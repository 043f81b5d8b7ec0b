-- ===== src/Section/G0.antt =====
-- r2sonic/include/r2sonic/sections/g0.hpp: straight-line depth gates.
use ros2sonic.Prelude.{[], ◌∷◌}
use ros2sonic.Outcome.{Outcome, ok, ◌>>◌}
use ros2sonic.Memory.{Bytes}
use ros2sonic.Struct.{Layout}
use ros2sonic.Section.{Section, after_info, existance_error_check}

-- G0::Body: G0_DepthGateMin, G0_DepthGateMax, G0_DepthGateSlope
abbrev pub body_layout : Layout
body_layout = 4 ∷ 4 ∷ 4 ∷ []

unfoldable pub body : Section → Outcome Bytes
body s = do existance_error_check s; ok (after_info s)
