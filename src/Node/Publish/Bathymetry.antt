-- ===== src/Node/Publish/Bathymetry.antt =====
-- What R2SonicNode::publish sends for a complete bathymetry packet.
use ros2sonic.Prelude.{ℕ, ◌%◌, ◌^◌, ◌≤◌, ◌<◌, ◌≡◌, true, [], ◌∷◌, ◌++◌, length, take}
use ros2sonic.Outcome.{ok}
use ros2sonic.Memory.{Bytes, IsBytes}
use ros2sonic.Floats.{Floats}
use ros2sonic.Packet.{PacketKind}
use ros2sonic.Packet.Sequence.{
  IsSmall, IsTail, sections, packet_of, encode_packet, is_type-packet_of,
}
use ros2sonic.Packet.Sequence.Bathymetry.{bathymetry_kinds}
use ros2sonic.Conversions.{RawPacket}
use ros2sonic.Conversions.Raw.{packet2_raw_packet-eq}
use ros2sonic.Conversions.Detections.{SonarDetections}
use ros2sonic.Conversions.Detections.Spec.{Ping, IsComplete, contents_of, detections_of}
use ros2sonic.Conversions.Detections.Correct.{bth02_sonar_detections-eq}
use ros2sonic.Node.Publish.{
  Node, detections_sent, raw_bth0_sent, all_free, publish_detections, publish_raw_bth0,
  publish_bth0,
}

module _ (fl : Floats) where
  -- The message of a ping, with the frame of the transducer.
  abbrev pub framed : Node fl → SonarDetections fl → SonarDetections fl
  framed node msg = record msg { header = record (msg.header) { frame_id = node.tx_frame_id } }

  abbrev pub raw_of : Node fl → PacketKind → ℕ → ℕ → Bytes → RawPacket
  raw_of node k size stream rest = record (node.bth0_msg) {
    payload = take (size % 65536) (encode_packet k size stream rest);
    frame_id = node.tx_frame_id;
  }

  -- Nobody holds a mutex and both publishers exist.
  pub record IsReady (node : Node fl) : Type 0 where
    pub free : node.locks ≡ all_free
    pub detects : node.dectections_pub ≡ true
    pub raws : node.bth0_pub ≡ true

  module _ (p : Ping) (size stream : ℕ) (rest : Bytes) (full : IsComplete p)
      (small : IsSmall (contents_of p)) (tail : IsTail bathymetry_kinds rest)
      (bytes : IsBytes rest) where
    abbrev body_of : Bytes
    body_of = sections (contents_of p) bathymetry_kinds rest

    -- On a complete bathymetry packet, with both publishers made and no mutex taken, `publish`
    -- sends the decoded detections and then the raw packet, both with the transducer's frame, keeps
    -- both messages for the next packet, and gives every mutex back. The buffer holds as many bytes
    -- as the 32-bit size in the header says modulo 65536.
    pub publish_bth0-eq :
        (node : Node fl)
        → IsReady node
        → size < 2 ^ 32
        → size % 65536 ≤ length (encode_packet PacketKind.bth0 size stream body_of)
        → publish_bth0 fl (packet_of PacketKind.bth0 size stream body_of) node
          ≡ ok (record node {
            dectections_msg = framed node (detections_of fl p node.dectections_msg);
            bth0_msg = raw_of node PacketKind.bth0 size stream body_of;
            locks = all_free;
            sent =
                (node.sent
                  ++ detections_sent (framed node (detections_of fl p node.dectections_msg)) ∷ [])
                ++ raw_bth0_sent (raw_of node PacketKind.bth0 size stream body_of) ∷ [];
          })
    unfolding publish_bth0 publish_detections publish_raw_bth0
    publish_bth0-eq node ready h fits = rw (
      is_type-packet_of PacketKind.bth0 size stream body_of,
      ready.free,
      ready.detects,
      bth02_sonar_detections-eq fl p size stream rest full small tail bytes node.dectections_msg,
      ready.raws,
      packet2_raw_packet-eq PacketKind.bth0 size stream body_of node.bth0_msg h fits,
    )
