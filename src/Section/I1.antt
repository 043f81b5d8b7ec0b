-- ===== src/Section/I1.antt =====
-- r2sonic/include/r2sonic/sections/i1.hpp: 16-bit intensities of the bathymetry points.
use ros2sonic.Prelude.{ℕ, ◌+◌, ◌*◌, drop}
use ros2sonic.Outcome.{Outcome, ok, ◌>>=◌, ◌>>◌}
use ros2sonic.Memory.{Bytes, get_at}
use ros2sonic.Floats.{Floats}
use ros2sonic.Section.{Section, after_info, existance_error_check, u16}

unfoldable pub scaling_factor : Section → Outcome Bytes
scaling_factor s = do existance_error_check s; ok (after_info s)

unfoldable pub intensity : Section → ℕ → Outcome Bytes
intensity s beam_no = do existance_error_check s; ok (drop (4 + 2 * u16 beam_no) (after_info s))

module _ (fl : Floats) where
  open fl use {F32, of_bits, of_ℕ, mul}

  unfoldable pub get_scaled_intensity : Section → ℕ → Outcome F32
  get_scaled_intensity s beam_no = do
    p ← intensity s beam_no
    raw ← get_at 2 p
    q ← scaling_factor s
    scale ← get_at 4 q
    ok (mul (of_ℕ raw) (of_bits scale))
