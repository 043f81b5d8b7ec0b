-- ===== src/Section/A0.antt =====
-- r2sonic/include/r2sonic/sections/a0.hpp: equally spaced angles, in "equi-angle" mode.
use ros2sonic.Prelude.{ℕ, [], ◌∷◌}
use ros2sonic.Outcome.{Outcome, ok, ◌>>◌}
use ros2sonic.Memory.{Bytes}
use ros2sonic.Struct.{Layout}
use ros2sonic.Section.{Section, after_info, existance_error_check}

-- A0::Body: AngleFirst, AngleLast, MoreInfo[6]
abbrev pub body_layout : Layout
body_layout = 4 ∷ 4 ∷ 24 ∷ []

abbrev pub angle_first : ℕ
angle_first = 0

abbrev pub angle_last : ℕ
angle_last = 1

unfoldable pub body : Section → Outcome Bytes
body s = do existance_error_check s; ok (after_info s)
