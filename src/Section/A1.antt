-- ===== src/Section/A1.antt =====
-- r2sonic/include/r2sonic/sections/a1.hpp: float angles of the acoustic image's beams.
use ros2sonic.Prelude.{ℕ, ◌+◌, ◌*◌, [], ◌∷◌, drop}
use ros2sonic.Outcome.{Outcome, ok, ◌>>◌}
use ros2sonic.Memory.{Bytes}
use ros2sonic.Struct.{Layout, sizeof}
use ros2sonic.Section.{Section, after_info, existance_error_check, u16}

-- A1::Body: MoreInfo[6]
abbrev pub body_layout : Layout
body_layout = 24 ∷ []

-- BeamAngle(beam_no)
unfoldable pub beam_angle : Section → ℕ → Outcome Bytes
beam_angle s beam_no = do
  existance_error_check s
  ok (drop (sizeof body_layout + 4 * u16 beam_no) (after_info s))
