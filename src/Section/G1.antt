-- ===== src/Section/G1.antt =====
-- r2sonic/include/r2sonic/sections/g1.hpp: 8-bit gates, one for each beam.
use ros2sonic.Prelude.{ℕ, ◌+◌, ◌*◌, [], ◌∷◌, drop}
use ros2sonic.Outcome.{Outcome, ok, ◌>>◌}
use ros2sonic.Memory.{Bytes}
use ros2sonic.Struct.{Layout, sizeof}
use ros2sonic.Section.{Section, after_info, existance_error_check, u16}

-- G1::Gate: RangeMin, RangeMax
abbrev pub gate_layout : Layout
gate_layout = 1 ∷ 1 ∷ []

unfoldable pub scaling_factor : Section → Outcome Bytes
scaling_factor s = do existance_error_check s; ok (after_info s)

unfoldable pub gate : Section → ℕ → Outcome Bytes
gate s beam_no = do
  existance_error_check s
  ok (drop (4 + sizeof gate_layout * u16 beam_no) (after_info s))
