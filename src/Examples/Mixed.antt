-- ===== src/Examples/Mixed.antt =====
-- Between the packets of ping 17 come the heads of ping 18 and ping 20.
use ros2sonic.Prelude.{ℕ, ◌≡◌, ◌≢◌, refl, none, some, List, [], ◌∷◌, ◌++◌, map, arith}
use ros2sonic.Outcome.{ok}
use ros2sonic.Section.H0
use ros2sonic.Conversions.Assembler.{RawSonarImage}
use ros2sonic.Conversions.Assembler.Parts.{of_h0}
use ros2sonic.Conversions.Assembler.Packets.{first_packet}
use ros2sonic.Node.MsgMap.{find}
use ros2sonic.Node.Worker.{in_turn}
use ros2sonic.Node.Publish.{Node, Message, image_sent, publish_aid0}
use ros2sonic.Node.Publish.Begun.{ShowsPing}
use ros2sonic.Node.Publish.Stream.{IsWhole, InOrder, begun_in}
use ros2sonic.Node.Publish.Stream.Among.{
  Between, own, other, others, packet_between, own_parts, publish_ping_among,
}
use ros2sonic.Examples.{whole_numbers, are_bytes-IsBytes}
use ros2sonic.Examples.Image.{head_of, two_angles, start-IsSmall, behind, behind-IsTail}
use ros2sonic.Examples.Publishing.{no_image}
use ros2sonic.Examples.Ping.{
  one_bin, two_bins, one_bin-IsLater, two_bins-IsLater, start_of, start_18-IsWhole, heads-IsSmall,
  waiting_node, waiting_node-IsSound, not_begun,
}

start_20-IsWhole : IsWhole (start_of 20)
start_20-IsWhole = (
  (are_bytes-IsBytes (head_of 20) refl, omega arith),
  (are_bytes-IsBytes two_angles refl, omega arith),
  heads-IsSmall 20,
  behind-IsTail,
  tt,
  record { narrow = omega arith; fits = omega arith },
)

abbrev mixed : List Between
mixed = other (start_of 18) ∷ own one_bin ∷ other (start_of 20) ∷ []

differs_18 : ◌≢◌ {A = ℕ} 17 18
differs_18 e = omega arith

differs_20 : ◌≢◌ {A = ℕ} 17 20
differs_20 e = omega arith

in_order : InOrder (begun_in waiting_node) (others mixed)
in_order = (tt, (tt, tt))

publish_ping_among_example :
    (after : Node whole_numbers) × (before : List (Message whole_numbers)) × (img : RawSonarImage
      whole_numbers)
    × (in_turn
          (publish_aid0 whole_numbers no_image)
          (first_packet (head_of 17) (some two_angles) none 164 1 behind
            ∷ map packet_between (mixed ++ own two_bins ∷ []))
          waiting_node
        ≡ ok after)
    × (after.sent ≡ before ++ image_sent img ∷ [])
    × ShowsPing whole_numbers no_image
        (head_of 17)
        two_angles
        3
        2
        waiting_node.tx_frame_id
        (own_parts mixed ++ two_bins ∷ [])
        img
    × (find (of_h0 H0.ping_number (head_of 17)) after.assemblers ≡ none)
publish_ping_among_example =
    publish_ping_among whole_numbers no_image (head_of 17) two_angles 164 1 behind 3 2 mixed
      two_bins waiting_node (are_bytes-IsBytes (head_of 17) refl, omega arith)
      (are_bytes-IsBytes two_angles refl, omega arith) start-IsSmall behind-IsTail
      (record { narrow = omega arith; fits = omega arith })
      (
        (start_18-IsWhole, differs_18, omega arith, omega arith),
        ((one_bin-IsLater, refl), ((start_20-IsWhole, differs_20, omega arith, omega arith), tt)),
      )
      two_bins-IsLater refl not_begun refl in_order waiting_node-IsSound
