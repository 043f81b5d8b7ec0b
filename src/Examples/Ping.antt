-- ===== src/Examples/Ping.antt =====
-- A ping of three packets: the head, the first bin, and the last two bins of the image.
use ros2sonic.Prelude.{◌≡◌, refl, none, some, [], ◌∷◌, ◌++◌, map, arith, ℕ, List}
use ros2sonic.Outcome.{ok}
use ros2sonic.Node.Worker.{in_turn}
use ros2sonic.Node.Publish.Stream.{
  ImagePacket, first, later, image_packet, IsWhole, IsSound, Passed, InOrder, begun_in,
}
use ros2sonic.Node.Publish.Stream.Passes.{in_turn-whole}
use ros2sonic.Memory.{Bytes}
use ros2sonic.Section.{h0}
use ros2sonic.Section.H0
use ros2sonic.Packet.Sequence.{IsSmall}
use ros2sonic.Conversions.Assembler.{RawSonarImage}
use ros2sonic.Conversions.Assembler.Copy.{IsPart}
use ros2sonic.Conversions.Assembler.Parts.{of_h0}
use ros2sonic.Conversions.Assembler.Packets.{image_contents, first_packet}
use ros2sonic.Conversions.Assembler.Collect.{LaterPacket, IsLater, packet}
use ros2sonic.Node.MsgMap.{find}
use ros2sonic.Node.Publish.{Node, raw_aid0_sent, image_sent, all_free, publish_aid0}
use ros2sonic.Node.Publish.Parts.{publish_all, raw_message}
use ros2sonic.Node.Publish.Begun.{ShowsPing}
use ros2sonic.Node.Publish.Ping.{raw_start, publish_ping}
use ros2sonic.Node.Publish.Calls.{IsReady}
use ros2sonic.Examples.{whole_numbers, are_bytes-IsBytes, fits_small}
use ros2sonic.Examples.Image.{
  last_bins, last_bins-IsPart, only_m0-IsSmall, head_of, two_angles, start-IsSmall, behind,
  behind-IsTail, assembler_of,
}
use ros2sonic.Examples.Publishing.{driver, no_image}

-- Bin 0 of 3, beams 0 and 1 of 2.
abbrev first_bin : Bytes
first_bin =
    (0 ∷ 0 ∷ 0 ∷ 17 ∷ 0 ∷ 0 ∷ 0 ∷ 0 ∷ 0 ∷ 0 ∷ 0 ∷ 4 ∷ 0 ∷ 0 ∷ 0 ∷ 3 ∷ [])
    ++ ((0 ∷ 0 ∷ 0 ∷ 0 ∷ 0 ∷ 1 ∷ 0 ∷ 2 ∷ 0 ∷ 0 ∷ 0 ∷ 2 ∷ 0 ∷ 0 ∷ 0 ∷ 0 ∷ []) ++ 5 ∷ 6 ∷ [])

first_bin-IsPart : IsPart first_bin
first_bin-IsPart = record {
  full = (are_bytes-IsBytes first_bin refl, omega arith);
  beams_fit = omega arith;
  bins_fit = omega arith;
  few_bins = omega arith;
  indexable = omega arith;
}

first_bin-IsSmall : IsSmall (image_contents none none (some first_bin))
first_bin-IsSmall h0 b e = fits_small (image_contents none none (some first_bin) h0) b refl e
first_bin-IsSmall k b e = fits_small (image_contents none none (some first_bin) k) b refl e

abbrev pub one_bin : LaterPacket
one_bin = record { angles = none; part = first_bin; size = 50; stream = 1; rest = behind }

abbrev pub two_bins : LaterPacket
two_bins = record { angles = none; part = last_bins; size = 52; stream = 1; rest = behind }

pub one_bin-IsLater : IsLater 17 3 2 one_bin
one_bin-IsLater = record {
  small = first_bin-IsSmall;
  tail = behind-IsTail;
  inside = first_bin-IsPart;
  ping = refl;
  bins = refl;
  stated = record { narrow = omega arith; fits = omega arith };
  beams = refl;
}

pub two_bins-IsLater : IsLater 17 3 2 two_bins
two_bins-IsLater = record {
  small = only_m0-IsSmall;
  tail = behind-IsTail;
  inside = last_bins-IsPart;
  ping = refl;
  bins = refl;
  stated = record { narrow = omega arith; fits = omega arith };
  beams = refl;
}

-- A node that has seen no packet of the ping.
abbrev pub waiting_node : Node whole_numbers
waiting_node = record driver { assemblers = (3, assembler_of 3) ∷ (20, assembler_of 20) ∷ [] }

waiting_node-IsReady : IsReady whole_numbers waiting_node
waiting_node-IsReady = record { free = refl; raws = refl; images = refl }

pub not_begun : find (of_h0 H0.ping_number (head_of 17)) waiting_node.assemblers ≡ none
unfolding find
not_begun = refl

publish_ping_example :
    (after : Node whole_numbers) × (img : RawSonarImage whole_numbers) × (publish_all whole_numbers
        no_image
        (first_packet (head_of 17) (some two_angles) none 164 1 behind
          ∷ map packet ((one_bin ∷ []) ++ two_bins ∷ []))
        waiting_node
      ≡ ok after)
    × (after.sent
        ≡ (waiting_node.sent
            ++ raw_aid0_sent
                (raw_start whole_numbers no_image (head_of 17) two_angles waiting_node 164 1 behind)
              ∷ map
                  (raw_message whole_numbers no_image waiting_node)
                  ((one_bin ∷ []) ++ two_bins ∷ []))
          ++ image_sent img ∷ [])
    × ShowsPing whole_numbers no_image
        (head_of 17)
        two_angles
        3
        2
        waiting_node.tx_frame_id
        ((one_bin ∷ []) ++ two_bins ∷ [])
        img
    × (after.locks ≡ all_free)
    × (find (of_h0 H0.ping_number (head_of 17)) after.assemblers ≡ none)
publish_ping_example =
    publish_ping whole_numbers no_image (head_of 17) two_angles 164 1 behind 3 2 (one_bin ∷ [])
      two_bins waiting_node (are_bytes-IsBytes (head_of 17) refl, omega arith)
      (are_bytes-IsBytes two_angles refl, omega arith) start-IsSmall behind-IsTail
      (record { narrow = omega arith; fits = omega arith }) (one_bin-IsLater, tt) (refl, tt)
      two_bins-IsLater refl not_begun refl waiting_node-IsReady

-- The last two bins come before the first, the head comes twice, one packet is of another ping, and
-- ping 20 had been begun before.
abbrev pub start_of : ℕ → ImagePacket
start_of ping = first (head_of ping) two_angles none 164 1 behind

abbrev disorder : List ImagePacket
disorder =
    start_of 17 ∷ later one_bin ∷ start_of 18 ∷ start_of 17 ∷ later one_bin ∷ later two_bins ∷ []

disorder-InOrder : InOrder (begun_in waiting_node) disorder
unfolding find
disorder-InOrder = (tt, (refl, (tt, (tt, (refl, (refl, tt))))))

pub heads-IsSmall :
    (ping : ℕ) → IsSmall (image_contents (some (head_of ping)) (some two_angles) none)
heads-IsSmall ping h0 b e =
    fits_small (image_contents (some (head_of ping)) (some two_angles) none h0) b refl e
heads-IsSmall ping k b e =
    fits_small (image_contents (some (head_of ping)) (some two_angles) none k) b refl e

start_17-IsWhole : IsWhole (start_of 17)
start_17-IsWhole = (
  (are_bytes-IsBytes (head_of 17) refl, omega arith),
  (are_bytes-IsBytes two_angles refl, omega arith),
  heads-IsSmall 17,
  behind-IsTail,
  tt,
  record { narrow = omega arith; fits = omega arith },
)

pub start_18-IsWhole : IsWhole (start_of 18)
start_18-IsWhole = (
  (are_bytes-IsBytes (head_of 18) refl, omega arith),
  (are_bytes-IsBytes two_angles refl, omega arith),
  heads-IsSmall 18,
  behind-IsTail,
  tt,
  record { narrow = omega arith; fits = omega arith },
)

pub waiting_node-IsSound : IsSound waiting_node
waiting_node-IsSound = record {
  ready = waiting_node-IsReady;
  heads = (
    (head_of 3, refl, (are_bytes-IsBytes (head_of 3) refl, omega arith)),
    ((head_of 20, refl, (are_bytes-IsBytes (head_of 20) refl, omega arith)), tt),
  );
}

in_turn-whole_example :
    (after : Node whole_numbers) × (in_turn
        (publish_aid0 whole_numbers no_image)
        (map image_packet disorder)
        waiting_node
      ≡ ok after)
    × Passed disorder waiting_node after
in_turn-whole_example =
    in_turn-whole no_image disorder waiting_node
      (
        start_17-IsWhole,
        (
          one_bin-IsLater,
          (start_18-IsWhole, (start_17-IsWhole, (one_bin-IsLater, (two_bins-IsLater, tt)))),
        ),
      )
      disorder-InOrder waiting_node-IsSound
