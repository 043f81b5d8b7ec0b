-- ===== src/Node/Publish/Begun.antt =====
-- The assembler of a ping: as the first packet leaves it, and its image after all the parts.
use mathlib.Core.Option
use ros2sonic.Outcome.{ok}
use ros2sonic.Packet.Sequence.{IsSmall, IsTail}
use ros2sonic.Packet.Sequence.Image.{get_ping_no-eq}
use ros2sonic.Conversions.Assembler.{new_assembler, add_packet}
use ros2sonic.Conversions.Assembler.Packets.{first_packet, add_packet_first}
use ros2sonic.Conversions.Assembler.Collect.{StatesSize}
use ros2sonic.Node.MsgMap.{find}
use ros2sonic.Node.Publish.{publish_aid0}
use ros2sonic.Node.Publish.Calls.{IsReady, raw_of, seen, stored, publish_aid0-stored}
use ros2sonic.Prelude.{
  ℕ, ◌+◌, ◌*◌, ◌<◌, ◌≡◌, refl, sym, ap, ◌∙◌, none, some, List, [], ◌∷◌, ◌++◌, All, All-take, length,
  take, take-drop-take, length-take, tabulate, get_or, arith,
}
use mathlib.Core.Path.{subst}
use ros2sonic.Memory.{Bytes}
use ros2sonic.Memory.Endian.{be_value}
use ros2sonic.Floats.{Floats}
use ros2sonic.Section.H0
use ros2sonic.Packet.Sequence.{sections}
use ros2sonic.Packet.Sequence.Image.{image_kinds}
use ros2sonic.Conversions.Assembler.{Assembler, RawSonarImage}
use ros2sonic.Conversions.Assembler.Parts.{of_h0}
use ros2sonic.Conversions.Assembler.Packets.{image_contents, started}
use ros2sonic.Conversions.Assembler.Collect.{
  LaterPacket, IsLater, latest, collect, collect-others, length-collect, cell-collect_empty,
}
use ros2sonic.Conversions.Detections.Spec.{HasBytes, u32_at, header_of, ping_info_of}
use ros2sonic.Node.Publish.{Node}
use ros2sonic.Node.Publish.Calls.{image_of}
use ros2sonic.Node.Publish.Parts.{IsStarted}

-- The H0 section of a ping as the assembler keeps it.
of_h0-take : (h : Bytes) → of_h0 H0.ping_number (take 112 h) ≡ of_h0 H0.ping_number h
of_h0-take h = ap be_value (take-drop-take 4 32 112 h (omega arith))

-- The sections of the first packet.
abbrev pub first_body : Bytes → Bytes → Bytes → Bytes
first_body h a rest = sections (image_contents (some h) (some a) none) image_kinds rest

module _ (fl : Floats) (no_image : RawSonarImage fl) (h a : Bytes) where
  open fl use {of_bits}

  -- The image of a ping: what H0 and A1 say, and in every cell the byte of the last part that
  -- covers it, or zero if none does.
  pub record ShowsPing (nb nw : ℕ) (frame_id : Bytes) (qs : List LaterPacket)
      (img : RawSonarImage fl) : Type 0 where
    pub header : img.header ≡ record (header_of h no_image.header) { frame_id = frame_id }
    pub ping_info : img.ping_info ≡ ping_info_of fl h
    pub beam_count : img.beam_count ≡ of_h0 H0.beams h
    pub tx_angles :
        img.tx_angles ≡ tabulate (of_h0 H0.beams h) 0 (λ j. of_bits (of_h0 H0.tx_steering_vert h))
    pub rx_angles :
        img.rx_angles ≡ tabulate (of_h0 H0.beams h) 0 (λ j. of_bits (u32_at a (24 + 4 * j)))
    pub sized : length img.image ≡ nb * nw
    pub cells :
        (bin beam : ℕ) → beam < nw → get_or img.image (bin * nw + beam) 0 ≡ latest qs beam bin 0

  abbrev pub begun : Assembler fl
  begun = record {
    sonar_image = started fl h a no_image;
    ready = none;
    h0_body = some (take 112 h);
  }

  pub begun-IsStarted :
      (nb nw : ℕ) → HasBytes 112 h → IsStarted fl no_image (of_h0 H0.ping_number h) nb nw begun
  begun-IsStarted nb nw full = record {
    body = take 112 h;
    held = refl;
    whole = (All-take (λ b. b < 256) 112 h full.0, omega (arith, length-take {0} 112 h, full.1));
    ping = of_h0-take h;
  }

  pub collect-IsStarted :
      (nb nw : ℕ) (qs : List LaterPacket)
      → IsStarted fl no_image (of_h0 H0.ping_number h) nb nw begun
      → IsStarted fl no_image
          (of_h0 H0.ping_number h)
          nb
          nw
          (collect (of_h0 H0.ping_number h) nb nw fl qs begun)
  collect-IsStarted nb nw qs start =
      subst (IsStarted fl no_image (of_h0 H0.ping_number h) nb nw)
        (sym (collect-others (of_h0 H0.ping_number h) nb nw fl qs begun))
        (record { body = start.body; held = start.held; whole = start.whole; ping = start.ping })

  -- The first packet of a ping that the node does not know.
  pub publish_aid0-begun :
      (size stream : ℕ) (rest : Bytes) (node : Node fl)
      → HasBytes 112 h
      → HasBytes (24 + 4 * of_h0 H0.beams h) a
      → IsSmall (image_contents (some h) (some a) none)
      → IsTail image_kinds rest
      → StatesSize size stream (first_body h a rest)
      → find (of_h0 H0.ping_number h) node.assemblers ≡ none
      → IsReady fl node
      → publish_aid0 fl no_image (first_packet h (some a) none size stream rest) node
        ≡ ok (
            stored fl
              (seen fl node (raw_of fl node size stream (first_body h a rest)))
              (of_h0 H0.ping_number h)
              begun)
  publish_aid0-begun size stream rest node full angles small tail stated unknown ready =
      publish_aid0-stored fl size stream (first_body h a rest) (of_h0 H0.ping_number h) no_image
        begun node ready stated.narrow stated.fits
        (get_ping_no-eq (image_contents (some h) (some a) none) size stream rest small tail full tt)
        (ap
            (λ t.
              add_packet fl (first_packet h (some a) none size stream rest)
                (Option.get_or t (new_assembler fl no_image)))
            unknown
          ∙ add_packet_first fl h none size stream rest tail full a small angles
              (new_assembler fl no_image))

  module _ (nb nw : ℕ) (qs : List LaterPacket) (q : LaterPacket) (frame_id : Bytes)
      (laters : All (IsLater (of_h0 H0.ping_number h) nb nw) qs)
      (last : IsLater (of_h0 H0.ping_number h) nb nw q) (empty : no_image.image ≡ []) where
    abbrev ping_no : ℕ
    ping_no = of_h0 H0.ping_number h

    abbrev whole : Assembler fl
    whole = collect ping_no nb nw fl (qs ++ q ∷ []) begun

    pub shows :
        (node : Node fl)
        → node.tx_frame_id ≡ frame_id
        → ShowsPing nb nw frame_id (qs ++ q ∷ []) (image_of fl node whole)
    shows node framed =
        let others = collect-others ping_no nb nw fl (qs ++ q ∷ []) begun in
        record {
          header =
              ap (λ f. record (whole.sonar_image.header) { frame_id = f }) framed
              ∙ ap (λ x. record (x.sonar_image.header) { frame_id = frame_id }) others;
          ping_info = ap (λ x. x.sonar_image.ping_info) others;
          beam_count = ap (λ x. x.sonar_image.beam_count) others;
          tx_angles = ap (λ x. x.sonar_image.tx_angles) others;
          rx_angles = ap (λ x. x.sonar_image.rx_angles) others;
          sized = length-collect ping_no nb nw fl qs q begun last;
          cells = λ bin beam inside.
              cell-collect_empty ping_no nb nw fl qs q begun bin beam empty laters last inside;
        }
