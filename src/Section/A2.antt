-- ===== src/Section/A2.antt =====
-- r2sonic/include/r2sonic/sections/a2.hpp: 16-bit angle steps, in "equi-distant" mode.
use ros2sonic.Prelude.{ℕ, ◌+◌, ◌*◌, [], ◌∷◌, drop}
use ros2sonic.Outcome.{Outcome, ok, ◌>>◌}
use ros2sonic.Memory.{Bytes}
use ros2sonic.Struct.{Layout, sizeof}
use ros2sonic.Section.{Section, after_info, existance_error_check, u16}

-- A2::Body: AngleFirst, ScalingFactor, MoreInfo[6]
abbrev pub body_layout : Layout
body_layout = 4 ∷ 4 ∷ 24 ∷ []

abbrev pub angle_first : ℕ
angle_first = 0

abbrev pub scaling_factor : ℕ
scaling_factor = 1

unfoldable pub body : Section → Outcome Bytes
body s = do existance_error_check s; ok (after_info s)

-- AngleStep(beam_no)
unfoldable pub angle_step : Section → ℕ → Outcome Bytes
angle_step s beam_no = do
  existance_error_check s
  ok (drop (sizeof body_layout + 2 * u16 beam_no) (after_info s))
