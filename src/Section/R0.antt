-- ===== src/Section/R0.antt =====
-- r2sonic/include/r2sonic/sections/r0.hpp: 16-bit ranges of the bathymetry points.
use ros2sonic.Prelude.{ℕ, ◌+◌, ◌*◌, drop}
use ros2sonic.Outcome.{Outcome, ok, ◌>>=◌}
use ros2sonic.Memory.{Bytes, get_at}
use ros2sonic.Floats.{Floats}
use ros2sonic.Section.{Section, after_info, u16}

-- scaliningFactor()
abbrev pub scaling_factor : Section → Bytes
scaling_factor s = after_info s

abbrev pub range : Section → ℕ → Bytes
range s beam_no = drop (4 + 2 * u16 beam_no) (after_info s)

unfoldable pub get_range : Section → ℕ → Outcome ℕ
get_range s beam_no = get_at 2 (range s beam_no)

module _ (fl : Floats) where
  open fl use {F32, of_bits, of_ℕ, mul}

  unfoldable pub get_scaled_range : Section → ℕ → Outcome F32
  get_scaled_range s beam_no = do
    raw ← get_range s beam_no
    scale ← get_at 4 (scaling_factor s)
    ok (mul (of_ℕ raw) (of_bits scale))
