-- ===== src/Conversions/Assembler/Packets.antt =====
-- What whole acoustic-image packets do to the assembler of their ping.
use ros2sonic.Prelude.{
  ℕ, zero, suc, ◌+◌, ◌*◌, ◌≤◌, ◌<◌, ◌≡◌, refl, ap, ◌∙◌, false, Option, none, some, [], ◌∷◌, ◌++◌,
  ◌&&◌, length, length-append, take, drop, get_or, tabulate, fill, leb, if◌then◌else◌, arith,
}
use ros2sonic.Outcome.{ok, throw, out_of_range}
use ros2sonic.Memory.{Bytes, get_at}
use ros2sonic.Memory.Reads.{read_bytes-take}
use ros2sonic.Floats.{Floats}
use ros2sonic.Section.{h0, a1, m0, u16}
use ros2sonic.Section.Identity.{at, encode, existance_error_check-absent}
use ros2sonic.Section.H0
use ros2sonic.Section.A1
use ros2sonic.Section.M0
use ros2sonic.Packet.{PacketKind, Packet}
use ros2sonic.Packet.Sequence.{Contents, IsSmall, IsTail, sections, packet_of}
use ros2sonic.Packet.Sequence.Image.{
  image_kinds, h0-Finds, a1-Finds, m0-Finds, image_sections_found,
}
use ros2sonic.Conversions.Assembler.{
  Assembler, RawSonarImage, dtype_uint8, fill_angles, start_image, add_packet,
}
use ros2sonic.Conversions.Assembler.Copy.{of_part, IsPart, part_byte}
use ros2sonic.Conversions.Assembler.Image.{within}
use ros2sonic.Conversions.Assembler.Parts.{
  of_h0, canvas, length-drawn, cell-drawn, extended, add_section-eq,
}
use ros2sonic.Conversions.Detections.Spec.{HasBytes, u32_at, header_of, ping_info_of}
use ros2sonic.Conversions.Detections.Reads.{u16_at-lt, present, u32_at-read}
use ros2sonic.Conversions.Detections.Correct.{
  h0_field, h02_header-eq, h02_ping_info-eq, fill-resize,
}

-- The contents of a packet's three sections.
abbrev pub image_contents : Option Bytes → Option Bytes → Option Bytes → Contents
image_contents h a m h0 = h
image_contents h a m a1 = a
image_contents h a m m0 = m
image_contents h a m _ = none

take-append_le : (n : ℕ) (b rest : Bytes) → n ≤ length b → take n (b ++ rest) ≡ take n b
take-append_le zero b rest h = refl
take-append_le (suc n) [] rest h = absurd (omega arith)
take-append_le (suc n) (x ∷ b) rest h = ap (λ t. x ∷ t) (take-append_le n b rest (omega arith))

-- A packet with H0, and with A1 and M0 if they are given.
abbrev pub first_packet : Bytes → Option Bytes → Option Bytes → ℕ → ℕ → Bytes → Packet
first_packet h o m size stream rest =
    packet_of PacketKind.aid0 size stream (sections (image_contents (some h) o m) image_kinds rest)

-- A later packet of a ping, with M0 and perhaps A1.
abbrev pub later_packet : Option Bytes → Bytes → ℕ → ℕ → Bytes → Packet
later_packet o b size stream rest =
    packet_of PacketKind.aid0 size stream
      (sections (image_contents none o (some b)) image_kinds rest)

module _ (fl : Floats) where
  open fl use {of_bits, of_ℕ}

  -- The image after the first packet of a ping, from the contents of its H0 and A1.
  abbrev pub started : Bytes → Bytes → RawSonarImage fl → RawSonarImage fl
  started h a img =
      let n = of_h0 H0.beams h in
      record img {
        header = header_of h img.header;
        ping_info = ping_info_of fl h;
        dtype = dtype_uint8;
        sample0 = 0;
        beam_count = n;
        tx_delays = tabulate n 0 (λ j. of_ℕ 0);
        tx_angles = tabulate n 0 (λ j. of_bits (of_h0 H0.tx_steering_vert h));
        rx_angles = tabulate n 0 (λ j. of_bits (u32_at a (24 + 4 * j)));
      }

  module _ (h : Bytes) (m : Option Bytes) (size stream : ℕ) (rest : Bytes)
      (tail : IsTail image_kinds rest) (full : HasBytes 112 h) where
    module _ (a : Bytes) (small : IsSmall (image_contents (some h) (some a) m))
        (angles : HasBytes (24 + 4 * of_h0 H0.beams h) a) where
      angle-read :
          (j : ℕ) (behind : Bytes)
          → j < of_h0 H0.beams h
          → j < 65536
          → get_at 4 (drop (24 + 4 * u16 j) (a ++ behind)) ≡ ok (u32_at a (24 + 4 * j))
      angle-read j behind below short =
          let same : u16 j ≡ j = omega arith in
          ap (λ i. get_at 4 (drop (24 + 4 * i) (a ++ behind))) same
          ∙ u32_at-read a behind (24 + 4 * j) (24 + 4 * of_h0 H0.beams h) angles (omega arith)

      -- All the rounds from `i` on.
      fill_angles-eq :
          (left i : ℕ) (img : RawSonarImage fl)
          → i + left ≤ of_h0 H0.beams h
          → fill_angles fl left i
              (first_packet h (some a) m size stream rest)
              (at h0
                (encode h0 h (sections (image_contents (some h) (some a) m) (a1 ∷ m0 ∷ []) rest)))
              img
            ≡ ok (record img {
              tx_delays = fill left i (λ j. of_ℕ 0) img.tx_delays;
              tx_angles = fill left i (λ j. of_bits (of_h0 H0.tx_steering_vert h)) img.tx_angles;
              rx_angles = fill left i (λ j. of_bits (u32_at a (24 + 4 * j))) img.rx_angles;
            })
      unfolding fill_angles A1.beam_angle
      fill_angles-eq zero i img within_beams = refl
      fill_angles-eq (suc left) i img within_beams =
          let c = image_contents (some h) (some a) m in
          let behind = sections c (m0 ∷ []) rest in
          rw
            (
              h0_field H0.tx_steering_vert h (sections c (a1 ∷ m0 ∷ []) rest) full (omega arith),
              (a1-Finds c size stream rest small tail).0,
              present a1 a behind,
              angle-read i behind (omega arith) (omega (arith, u16_at-lt h 110 full.0)),
            )
            (fill_angles-eq left (i + 1) _ (omega arith))

      -- The first packet of a ping, with H0 and one angle in A1 for each beam, leaves the assembler
      -- with the header, the ping information and the angles that the sections say and with the H0
      -- body, and the image is not complete. The sections hold what the beam count asks for, their
      -- sizes fit 16 bits, and what follows them does not begin like one of them.
      pub add_packet_first :
          (asm : Assembler fl)
          → add_packet fl (first_packet h (some a) m size stream rest) asm
            ≡ ok (
              false,
              record asm { sonar_image = started h a asm.sonar_image; h0_body = some (take 112 h) },
            )
      unfolding add_packet start_image
      add_packet_first asm =
          let c = image_contents (some h) (some a) m in
          let behind = sections c (a1 ∷ m0 ∷ []) rest in
          let kept = take-append_le 112 h behind full.1 in
          rw
            (
              (image_sections_found c size stream rest small tail).3,
              (h0-Finds c size stream rest small tail).0,
              h02_header-eq h behind full asm.sonar_image.header,
              h02_ping_info-eq h behind full fl asm.sonar_image.ping_info,
              read_bytes-take 112 (h ++ behind) (omega (arith, full.1, length-append {0} h behind)),
              kept,
              h0_field H0.beams h behind full (omega arith),
              fill_angles-eq (of_h0 H0.beams h) 0 _ (omega arith),
            )
            (simp fill-resize)

    missing_angles :
        (left : ℕ) (img : RawSonarImage fl)
        → IsSmall (image_contents (some h) none m)
        → 0 < left
        → fill_angles fl left 0
            (first_packet h none m size stream rest)
            (at h0 (encode h0 h (sections (image_contents (some h) none m) (a1 ∷ m0 ∷ []) rest)))
            img
          ≡ throw out_of_range
    unfolding fill_angles A1.beam_angle
    missing_angles zero img small some_beam = absurd (omega arith)
    missing_angles (suc left) img small some_beam =
        let c = image_contents (some h) none m in
        let found = a1-Finds c size stream rest small tail in
        rw (
          h0_field H0.tx_steering_vert h (sections c (a1 ∷ m0 ∷ []) rest) full (omega arith),
          found.0,
          existance_error_check-absent _ found.1,
        )

    -- A first packet without A1 raises `out_of_range` if it has a beam. H0 holds its whole body,
    -- the sizes fit 16 bits, and what follows the sections does not begin like one of them.
    pub add_packet_missing_angles :
        (asm : Assembler fl)
        → IsSmall (image_contents (some h) none m)
        → 0 < of_h0 H0.beams h
        → add_packet fl (first_packet h none m size stream rest) asm ≡ throw out_of_range
    unfolding add_packet start_image
    add_packet_missing_angles asm small some_beam =
        let c = image_contents (some h) none m in
        let behind = sections c (a1 ∷ m0 ∷ []) rest in
        rw (
          (image_sections_found c size stream rest small tail).3,
          (h0-Finds c size stream rest small tail).0,
          h02_header-eq h behind full asm.sonar_image.header,
          h02_ping_info-eq h behind full fl asm.sonar_image.ping_info,
          read_bytes-take 112 (h ++ behind) (omega (arith, full.1, length-append {0} h behind)),
          h0_field H0.beams h behind full (omega arith),
          missing_angles (of_h0 H0.beams h) _ small some_beam,
        )

  -- A later packet of the assembler's own ping extends its image by the part.
  pub add_packet-extended :
      (o : Option Bytes) (b : Bytes) (size stream : ℕ) (rest : Bytes)
      → IsSmall (image_contents none o (some b))
      → IsTail image_kinds rest
      → IsPart b
      → (asm : Assembler fl) (body : Bytes) → asm.h0_body ≡ some body
      → HasBytes 112 body
      → of_h0 H0.ping_number body ≡ of_part M0.ping_number b
      → add_packet fl (later_packet o b size stream rest) asm
        ≡ ok (
          leb (of_part M0.total_bins b) (of_part M0.first_bin b + of_part M0.bins b),
          extended fl b asm,
        )
  unfolding add_packet
  add_packet-extended o b size stream rest small tail part asm body held kept same =
      let c = image_contents none o (some b) in
      let found = m0-Finds c size stream rest small tail in
      rw ((image_sections_found c size stream rest small tail).3, found.0, found.1)
        (add_section-eq fl b rest part asm body held kept same)

  -- A later packet of the assembler's own ping, whose part lies within its image, with bins that
  -- end at 65536 at most and an image of at most 2 ^ 31 cells, is added without a fault or an
  -- exception. The answer is true exactly when the part reaches the last bin. The image then has
  -- one byte for each bin and beam; a cell of the part holds the part's byte, which the packet
  -- stores beam by beam, and every other cell holds what it held before, or zero if the image was
  -- of another size. The sections' sizes fit 16 bits, what follows them does not begin like one of
  -- them, and the assembler holds a whole H0 body.
  pub add_packet_cells :
      (o : Option Bytes) (b : Bytes) (size stream : ℕ) (rest : Bytes)
      → IsSmall (image_contents none o (some b))
      → IsTail image_kinds rest
      → IsPart b
      → (asm : Assembler fl) (body : Bytes) → asm.h0_body ≡ some body
      → HasBytes 112 body
      → of_h0 H0.ping_number body ≡ of_part M0.ping_number b
      → (after : Assembler fl) × (add_packet fl (later_packet o b size stream rest) asm
          ≡ ok (leb (of_part M0.total_bins b) (of_part M0.first_bin b + of_part M0.bins b), after))
        × (length after.sonar_image.image ≡ of_part M0.total_bins b * of_part M0.total_beams b)
        × ((bin beam : ℕ)
            → beam < of_part M0.total_beams b
            → get_or after.sonar_image.image (bin * of_part M0.total_beams b + beam) 0 ≡ (
                if within (of_part M0.first_beam b) (of_part M0.beams b) beam
                  && within (of_part M0.first_bin b) (of_part M0.bins b) bin
                then part_byte b beam bin
                else get_or
                    (canvas b asm.sonar_image.image)
                    (bin * of_part M0.total_beams b + beam)
                    0))
  add_packet_cells o b size stream rest small tail part asm body held kept same = (
    extended fl b asm,
    add_packet-extended o b size stream rest small tail part asm body held kept same,
    length-drawn b asm.sonar_image.image,
    λ bin beam inside. cell-drawn b asm.sonar_image.image bin beam part inside,
  )
