-- ===== src/Node/Publish/Calls.antt =====
-- What one call of R2SonicNode::publish does with an acoustic-image packet, by what the assembler
-- answers.
use ros2sonic.Prelude.{ℕ, ◌%◌, ◌^◌, ◌≤◌, ◌<◌, ◌≡◌, true, false, [], ◌∷◌, ◌++◌, length, take}
use ros2sonic.Outcome.{ok, fault}
use ros2sonic.Memory.{Bytes}
use ros2sonic.Floats.{Floats}
use ros2sonic.Packet.{PacketKind}
use ros2sonic.Packet.Aid0
use ros2sonic.Packet.Sequence.{packet_of, encode_packet, is_type-packet_of}
use ros2sonic.Conversions.{RawPacket}
use ros2sonic.Conversions.Raw.{packet2_raw_packet-eq}
use ros2sonic.Conversions.Assembler.{Assembler, RawSonarImage, add_packet}
use ros2sonic.Node.MsgMap.{put, erase, clean_msg_map}
use ros2sonic.Node.Publish.{
  Node, raw_aid0_sent, image_sent, all_free, assembler_for, publish_raw_aid0, publish_image,
  publish_aid0,
}

module _ (fl : Floats) where
  -- Nobody holds a mutex and both publishers exist.
  pub record IsReady (node : Node fl) : Type 0 where
    pub free : node.locks ≡ all_free
    pub raws : node.aid0_pub ≡ true
    pub images : node.acoustic_image_pub ≡ true

  abbrev pub raw_of : Node fl → ℕ → ℕ → Bytes → RawPacket
  raw_of node size stream rest = record (node.aid0_msg) {
    payload = take (size % 65536) (encode_packet PacketKind.aid0 size stream rest);
    frame_id = node.tx_frame_id;
  }

  -- The node after the raw packet.
  abbrev pub seen : Node fl → RawPacket → Node fl
  seen node raw = record node {
    aid0_msg = raw;
    locks = all_free;
    sent = node.sent ++ raw_aid0_sent raw ∷ [];
  }

  -- An assembler's image with the frame of the transducer.
  abbrev pub image_of : Node fl → Assembler fl → RawSonarImage fl
  image_of node asm =
      let img = asm.sonar_image in
      record img { header = record (img.header) { frame_id = node.tx_frame_id } }

  abbrev pub framed : Node fl → Assembler fl → Assembler fl
  framed node asm = record asm { sonar_image = image_of node asm }

  -- The node after an assembler was kept, and after its image was sent.
  abbrev pub stored : Node fl → ℕ → Assembler fl → Node fl
  stored node ping_no asm = record node { assemblers = put ping_no asm node.assemblers }

  abbrev pub completed : Node fl → ℕ → Assembler fl → Node fl
  completed node ping_no asm = record node {
    assemblers =
        clean_msg_map ping_no (erase ping_no (put ping_no (framed node asm) node.assemblers));
    sent = node.sent ++ image_sent (image_of node asm) ∷ [];
  }

  module _ (size stream : ℕ) (body : Bytes) (ping_no : ℕ) (no_image : RawSonarImage fl)
      (added : Assembler fl) (node : Node fl) (ready : IsReady node) (narrow : size < 2 ^ 32)
      (fits : size % 65536 ≤ length (encode_packet PacketKind.aid0 size stream body))
      (numbered : Aid0.get_ping_no (packet_of PacketKind.aid0 size stream body) ≡ ok ping_no) where
    pub publish_aid0-stored :
        add_packet fl
            (packet_of PacketKind.aid0 size stream body)
            (assembler_for fl no_image ping_no node.assemblers)
          ≡ ok (false, added)
        → publish_aid0 fl no_image (packet_of PacketKind.aid0 size stream body) node
          ≡ ok (stored (seen node (raw_of node size stream body)) ping_no added)
    unfolding publish_aid0 publish_raw_aid0 publish_image
    publish_aid0-stored step = rw (
      is_type-packet_of PacketKind.aid0 size stream body,
      ready.free,
      numbered,
      ready.raws,
      packet2_raw_packet-eq PacketKind.aid0 size stream body node.aid0_msg narrow fits,
      ready.images,
      step,
    )

    pub publish_aid0-completed :
        add_packet fl
            (packet_of PacketKind.aid0 size stream body)
            (assembler_for fl no_image ping_no node.assemblers)
          ≡ ok (true, added)
        → publish_aid0 fl no_image (packet_of PacketKind.aid0 size stream body) node
          ≡ ok (completed (seen node (raw_of node size stream body)) ping_no added)
    unfolding publish_aid0 publish_raw_aid0 publish_image
    publish_aid0-completed step = rw (
      is_type-packet_of PacketKind.aid0 size stream body,
      ready.free,
      numbered,
      ready.raws,
      packet2_raw_packet-eq PacketKind.aid0 size stream body node.aid0_msg narrow fits,
      ready.images,
      step,
    )

    pub publish_aid0-fault :
        add_packet fl
            (packet_of PacketKind.aid0 size stream body)
            (assembler_for fl no_image ping_no node.assemblers)
          ≡ fault
        → publish_aid0 fl no_image (packet_of PacketKind.aid0 size stream body) node ≡ fault
    unfolding publish_aid0 publish_raw_aid0 publish_image
    publish_aid0-fault step = rw (
      is_type-packet_of PacketKind.aid0 size stream body,
      ready.free,
      numbered,
      ready.raws,
      packet2_raw_packet-eq PacketKind.aid0 size stream body node.aid0_msg narrow fits,
      ready.images,
      step,
    )
