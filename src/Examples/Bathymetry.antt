-- ===== src/Examples/Bathymetry.antt =====
-- A bathymetry packet of two beams, without A0 and the gates.
use ros2sonic.Prelude.{
  ◌≡◌, ◌+◌, refl, true, false, none, some, [], ◌∷◌, ◌++◌, replicate, take, ◌%◌, arith,
}
use ros2sonic.Outcome.{ok}
use ros2sonic.Memory.{Bytes, IsBytes}
use ros2sonic.Section.{h0, r0, a0, a2, i1, g0, g1, q0, exists, is_type, strncmp_eq}
use ros2sonic.Packet.{PacketKind, Packet}
use ros2sonic.Packet.Bth0
use ros2sonic.Packet.Sequence.{IsSmall, IsTail, sections, packet_of, encode_packet}
use ros2sonic.Packet.Sequence.Bathymetry.{bathymetry_kinds, Finds, sections_found}
use ros2sonic.Conversions.{RawPacket, packet2_raw_packet}
use ros2sonic.Conversions.Raw.{packet2_raw_packet-eq}
use ros2sonic.Conversions.Detections.{SonarDetections, bth02_sonar_detections}
use ros2sonic.Conversions.Detections.Spec.{Ping, IsComplete, contents_of, detections_of}
use ros2sonic.Conversions.Detections.Correct.{bth02_sonar_detections-eq}
use ros2sonic.Node.Publish.{Node, detections_sent, raw_bth0_sent, all_free, publish_bth0}
use ros2sonic.Node.Publish.Bathymetry.{IsReady, framed, raw_of, publish_bth0-eq}
use ros2sonic.Node.Publish.{receive_bth0}
use ros2sonic.Node.Receiver.{arrived, overlay, run}
use ros2sonic.Node.Receiver.Loop.{at_work}
use ros2sonic.Node.Receiver.Delivery.{datagram_of, stale, seen_by, run-bathymetry}
use ros2sonic.Examples.{blank, whole_numbers, are_bytes-IsBytes, fits_small}

abbrev steps : Bytes
steps = replicate 32 1 ++ 0 ∷ 4 ∷ 0 ∷ 6 ∷ []

abbrev strengths : Bytes
strengths = 0 ∷ 0 ∷ 0 ∷ 2 ∷ 0 ∷ 9 ∷ 0 ∷ 8 ∷ []

abbrev qualities : Bytes
qualities = 0x8F ∷ 0 ∷ 0 ∷ 0 ∷ []

abbrev pub two_beams : Ping
two_beams = record {
  h0_contents = replicate 110 7 ++ 0 ∷ 2 ∷ [];
  r0_contents = 0 ∷ 0 ∷ 0 ∷ 3 ∷ 1 ∷ 0 ∷ 1 ∷ 5 ∷ [];
  a0_contents = none;
  a2_contents = some steps;
  i1_contents = some strengths;
  g0_contents = none;
  g1_contents = none;
  q0_contents = some qualities;
}

abbrev pub behind : Bytes
behind = 0 ∷ 0 ∷ []

pub two_beams-IsComplete : IsComplete two_beams
two_beams-IsComplete = record {
  h0_full = (are_bytes-IsBytes two_beams.h0_contents refl, omega arith);
  r0_full = (are_bytes-IsBytes two_beams.r0_contents refl, omega arith);
  a0_full = tt;
  a2_full = (are_bytes-IsBytes steps refl, omega arith);
  i1_full = (are_bytes-IsBytes strengths refl, omega arith);
  q0_full = (are_bytes-IsBytes qualities refl, omega arith);
}

pub two_beams-IsSmall : IsSmall (contents_of two_beams)
two_beams-IsSmall h0 b e = fits_small (contents_of two_beams h0) b refl e
two_beams-IsSmall k b e = fits_small (contents_of two_beams k) b refl e

pub behind-IsTail : IsTail bathymetry_kinds behind
unfolding exists is_type strncmp_eq
behind-IsTail = (refl, (refl, (refl, (refl, (refl, (refl, (refl, (refl, tt))))))))

pub behind-IsBytes : IsBytes behind
behind-IsBytes = (omega arith, (omega arith, tt))

bth02_sonar_detections-eq_example :
    bth02_sonar_detections whole_numbers
      (packet_of PacketKind.bth0 200 1 (sections (contents_of two_beams) bathymetry_kinds behind))
      blank
    ≡ ok (detections_of whole_numbers two_beams blank)
bth02_sonar_detections-eq_example =
    bth02_sonar_detections-eq whole_numbers two_beams 200 1 behind two_beams-IsComplete
      two_beams-IsSmall behind-IsTail behind-IsBytes blank

abbrev pub sounding : Packet
sounding =
    packet_of PacketKind.bth0 200 1 (sections (contents_of two_beams) bathymetry_kinds behind)

sections_found_example :
    Finds
      (contents_of two_beams)
      behind
      (Bth0.h0 sounding)
      h0
      (r0 ∷ a0 ∷ a2 ∷ i1 ∷ g0 ∷ g1 ∷ q0 ∷ [])
    × Finds (contents_of two_beams) behind (Bth0.r0 sounding) r0 (a0 ∷ a2 ∷ i1 ∷ g0 ∷ g1 ∷ q0 ∷ [])
    × Finds (contents_of two_beams) behind (Bth0.a0 sounding) a0 (a2 ∷ i1 ∷ g0 ∷ g1 ∷ q0 ∷ [])
    × Finds (contents_of two_beams) behind (Bth0.a2 sounding) a2 (i1 ∷ g0 ∷ g1 ∷ q0 ∷ [])
    × Finds (contents_of two_beams) behind (Bth0.i1 sounding) i1 (g0 ∷ g1 ∷ q0 ∷ [])
    × Finds (contents_of two_beams) behind (Bth0.g0 sounding) g0 (g1 ∷ q0 ∷ [])
    × Finds (contents_of two_beams) behind (Bth0.g1 sounding) g1 (q0 ∷ [])
    × Finds (contents_of two_beams) behind (Bth0.q0 sounding) q0 []
sections_found_example =
    sections_found (contents_of two_beams) 200 1 behind two_beams-IsSmall behind-IsTail

abbrev no_payload : RawPacket
no_payload = record { frame_id = []; payload = [] }

packet2_raw_packet-eq_example :
    packet2_raw_packet (packet_of PacketKind.bth0 (65536 + 13) 1 (5 ∷ 6 ∷ [])) no_payload
    ≡ ok (record no_payload {
      payload =
          take ((65536 + 13) % 65536) (encode_packet PacketKind.bth0 (65536 + 13) 1 (5 ∷ 6 ∷ []));
    })
packet2_raw_packet-eq_example =
    packet2_raw_packet-eq PacketKind.bth0 (65536 + 13) 1 (5 ∷ 6 ∷ []) no_payload (omega arith)
      (omega arith)

abbrev driver : Node whole_numbers
driver = record {
  tx_frame_id = b't' ∷ b'x' ∷ [];
  dectections_pub = true;
  bth0_pub = true;
  aid0_pub = false;
  acoustic_image_pub = false;
  dectections_msg = blank;
  bth0_msg = no_payload;
  aid0_msg = no_payload;
  assemblers = [];
  locks = all_free;
  sent = [];
}

driver-IsReady : IsReady whole_numbers driver
driver-IsReady = record { free = refl; detects = refl; raws = refl }

abbrev raw_sounding : RawPacket
raw_sounding =
    raw_of whole_numbers driver PacketKind.bth0 200 1
      (sections (contents_of two_beams) bathymetry_kinds behind)

abbrev seen : SonarDetections whole_numbers
seen = framed whole_numbers driver (detections_of whole_numbers two_beams blank)

publish_bth0-eq_example :
    publish_bth0 whole_numbers sounding driver
    ≡ ok (record driver {
      dectections_msg = seen;
      bth0_msg = raw_sounding;
      locks = all_free;
      sent = detections_sent seen ∷ raw_bth0_sent raw_sounding ∷ [];
    })
publish_bth0-eq_example =
    publish_bth0-eq whole_numbers two_beams 200 1 behind two_beams-IsComplete two_beams-IsSmall
      behind-IsTail behind-IsBytes driver driver-IsReady (omega arith) (omega arith)

-- A buffer that earlier datagrams have left.
abbrev buffer : Bytes
buffer = replicate 300 0

buffer-IsTail : IsTail bathymetry_kinds (stale two_beams 200 1 buffer)
unfolding exists is_type strncmp_eq
buffer-IsTail = (refl, (refl, (refl, (refl, (refl, (refl, (refl, (refl, tt))))))))

run-bathymetry_example :
    run
      (receive_bth0 whole_numbers)
      (arrived (datagram_of two_beams 200 1) ∷ [])
      (at_work (receive_bth0 whole_numbers) buffer driver)
    ≡ ok (
        at_work
          (receive_bth0 whole_numbers)
          (overlay (datagram_of two_beams 200 1) buffer)
          (seen_by whole_numbers two_beams 200 1 buffer driver))
run-bathymetry_example =
    run-bathymetry whole_numbers two_beams 200 1 buffer driver two_beams-IsComplete
      two_beams-IsSmall buffer-IsTail (are_bytes-IsBytes buffer refl) driver-IsReady (omega arith)
      (omega arith) (omega arith)
