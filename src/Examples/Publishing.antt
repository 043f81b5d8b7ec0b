-- ===== src/Examples/Publishing.antt =====
-- The driver receives the packet that completes an image.
use ros2sonic.Prelude.{
  ℕ, ◌+◌, ◌*◌, ◌<◌, ◌≡◌, refl, false, none, some, [], ◌∷◌, ◌++◌, ◌&&◌, get_or, if◌then◌else◌, ltb,
  ◌==◌, true, arith,
}
use ros2sonic.Outcome.{ok}
use ros2sonic.Section.M0
use ros2sonic.Packet.Sequence.{sections}
use ros2sonic.Packet.Sequence.Image.{image_kinds}
use ros2sonic.Conversions.Assembler.Copy.{of_part, part_byte}
use ros2sonic.Conversions.Assembler.Image.{within}
use ros2sonic.Conversions.Assembler.Parts.{canvas}
use ros2sonic.Conversions.Assembler.{RawSonarImage}
use ros2sonic.Node.MsgMap.{find}
use ros2sonic.Node.Publish.{Node, raw_aid0_sent, image_sent, all_free, publish_aid0}
use ros2sonic.Node.Publish.Calls.{IsReady, raw_of}
use ros2sonic.Node.Publish.Image.{publish_aid0_complete}
use ros2sonic.Examples.{blank, whole_numbers, are_bytes-IsBytes}
use ros2sonic.Examples.Image.{
  last_bins, head_of, assembler_of, only_m0, behind, later, last_bins-IsPart, only_m0-IsSmall,
  behind-IsTail,
}

-- The driver waits for ping 17, and pings 3 and 20 are under way.
abbrev pub driver : Node whole_numbers
driver = record {
  tx_frame_id = b't' ∷ b'x' ∷ [];
  dectections_pub = false;
  bth0_pub = false;
  aid0_pub = true;
  acoustic_image_pub = true;
  dectections_msg = blank;
  bth0_msg = record { frame_id = []; payload = [] };
  aid0_msg = record { frame_id = []; payload = [] };
  assemblers = (3, assembler_of 3) ∷ (17, assembler_of 17) ∷ (20, assembler_of 20) ∷ [];
  locks = all_free;
  sent = [];
}

driver-IsReady : IsReady whole_numbers driver
driver-IsReady = record { free = refl; raws = refl; images = refl }

-- What the constructor of a message leaves.
abbrev pub no_image : RawSonarImage whole_numbers
no_image = record ((assembler_of 0).sonar_image) { image = [] }

pub waiting : find (of_part M0.ping_number last_bins) driver.assemblers ≡ some (assembler_of 17)
unfolding find
waiting = refl

publish_aid0_complete_example :
    (after : Node whole_numbers) × (sent : RawSonarImage whole_numbers) × (publish_aid0
        whole_numbers no_image later driver
      ≡ ok after)
    × (after.sent
        ≡ (driver.sent
            ++ raw_aid0_sent
                (raw_of whole_numbers driver 52 1 (sections only_m0 image_kinds behind))
              ∷ [])
          ++ image_sent sent ∷ [])
    × (after.locks ≡ all_free)
    × ((bin beam : ℕ)
        → beam < of_part M0.total_beams last_bins
        → get_or sent.image (bin * of_part M0.total_beams last_bins + beam) 0 ≡ (
            if within (of_part M0.first_beam last_bins) (of_part M0.beams last_bins) beam
              && within (of_part M0.first_bin last_bins) (of_part M0.bins last_bins) bin
            then part_byte last_bins beam bin
            else get_or
                (canvas last_bins (assembler_of 17).sonar_image.image)
                (bin * of_part M0.total_beams last_bins + beam)
                0))
    × ((k : ℕ)
        → find k after.assemblers ≡ (
            if ltb (k + 10) (of_part M0.ping_number last_bins)
            then none
            else if of_part M0.ping_number last_bins == k
            then none
            else find k driver.assemblers))
publish_aid0_complete_example =
    publish_aid0_complete whole_numbers none last_bins 52 1 behind no_image driver (assembler_of 17)
      (head_of 17) only_m0-IsSmall behind-IsTail last_bins-IsPart waiting refl
      (are_bytes-IsBytes (head_of 17) refl, omega arith) refl (omega arith) (omega arith)
      driver-IsReady (omega arith) (omega arith)
