-- ===== src/Conversions/Assembler/Faults.antt =====
-- A packet whose part cannot be copied from its first cell on.
use ros2sonic.Prelude.{
  drop, ℕ, zero, suc, ◌+◌, ◌-◌, ◌*◌, ◌%◌, ◌^◌, ◌≤◌, ◌<◌, ◌≡◌, sym, ap, ◌∙◌, Option, none, some,
  true, [], append-nil, ◌++◌, length, ◌==◌, ==_iff, lt→ltb, le→leb, Bool-cases, inl, inr,
  length-replicate, arith,
}
use ros2sonic.Outcome.{ok, fault}
use ros2sonic.Memory.{Bytes}
use ros2sonic.Floats.{Floats}
use ros2sonic.Struct.{offset, width, field}
use ros2sonic.Struct.Fields.{field-within}
use ros2sonic.Section.{m0, Section, u16, existance_error_check}
use ros2sonic.Section.Identity.{at, encode, exists-encode_self, existance_error_check-exists}
use ros2sonic.Section.H0
use ros2sonic.Section.M0
use ros2sonic.Packet.Sequence.{IsSmall, IsTail}
use ros2sonic.Packet.Sequence.Image.{image_kinds, m0-Finds, image_sections_found}
use ros2sonic.Conversions.Assembler.{
  Assembler, RawSonarImage, prepare, beam_fuel, image_index, copy_cell, copy_bins, copy_beams,
  add_section, add_packet,
}
use ros2sonic.Conversions.Assembler.Copy.{of_part}
use ros2sonic.Conversions.Assembler.Parts.{of_h0}
use ros2sonic.Conversions.Assembler.Packets.{image_contents, later_packet}
use ros2sonic.Conversions.Detections.Spec.{HasBytes}
use ros2sonic.Conversions.Detections.Reads.{u16_at-lt}

module _ (b tail : Bytes) (full : HasBytes 32 b) where
  abbrev pub s : Section
  s = at m0 (encode m0 b tail)

  pub part_field :
      (k : ℕ)
      → offset M0.body_layout k + width M0.body_layout k ≤ 32
      → field M0.body_layout k (b ++ tail) ≡ ok (of_part k b)
  part_field k h = field-within M0.body_layout k b tail full.0 (omega (arith, full.1))

  pub present : existance_error_check s ≡ ok tt
  present = existance_error_check-exists s (exists-encode_self m0 b tail)

  -- The first beam of a part is the first row of its magnitudes.
  first_row :
      M0.int_product (u16 (of_part M0.first_beam b)) (of_part M0.first_beam b) (of_part M0.bins b)
      ≡ ok 0
  unfolding M0.int_product
  first_row =
      let small : u16 (of_part M0.first_beam b) ≡ of_part M0.first_beam b =
        omega (arith, u16_at-lt b 24 full.0) in
      let nothing : (of_part M0.first_beam b - of_part M0.first_beam b) * of_part M0.bins b ≡ 0 =
        grind arith in
      rw (small, le→leb (of_part M0.first_beam b) (of_part M0.first_beam b) (omega arith), nothing)

  -- Where `magnitude` points for the first cell: the cut of the bin is all that may go wrong.
  pub first_magnitude :
      M0.magnitude s (of_part M0.first_beam b) (of_part M0.first_bin b)
      ≡ ok (
          drop
            (((u16 (of_part M0.first_bin b) + 2 ^ 32 - of_part M0.first_bin b) % 2 ^ 32 + 0)
              % 2 ^ 32)
            (drop 32 (b ++ tail)))
  unfolding M0.magnitude M0.body
  first_magnitude = rw (
    present,
    part_field M0.first_beam (omega arith),
    part_field M0.first_bin (omega arith),
    part_field M0.bins (omega arith),
    first_row,
  )

  pub first_index :
      of_part M0.first_bin b < 2 ^ 31
      → of_part M0.first_bin b * of_part M0.total_beams b + of_part M0.first_beam b < 2 ^ 31
      → image_index (of_part M0.first_bin b) (of_part M0.total_beams b) (of_part M0.first_beam b)
        ≡ ok (of_part M0.first_bin b * of_part M0.total_beams b + of_part M0.first_beam b)
  unfolding image_index
  first_index low fits = rw (lt→ltb _ (2 ^ 31) low, lt→ltb _ (2 ^ 31) fits)

  module _ (some_bin : 0 < of_part M0.bins b) (some_beam : 0 < of_part M0.beams b)
      (bins_end : of_part M0.first_bin b + of_part M0.bins b < 2 ^ 32) (image : Bytes)
      (first_cell : copy_cell s
          (of_part M0.total_beams b)
          (of_part M0.first_beam b)
          (of_part M0.first_bin b)
          image
        ≡ fault) where
    first_bins :
        (fuel last : ℕ)
        → 0 < fuel
        → of_part M0.first_bin b < last
        → copy_bins fuel s
            (of_part M0.total_beams b)
            (of_part M0.first_beam b)
            (of_part M0.first_bin b)
            last
            image
          ≡ fault
    unfolding copy_bins
    first_bins zero last h below = absurd (omega arith)
    first_bins (suc fuel) last h below =
        rw (lt→ltb (of_part M0.first_bin b) last below, copy_bins, first_cell)

    first_copy :
        (fuel last : ℕ)
        → 0 < fuel
        → of_part M0.first_bin b < last
        → copy_beams fuel s
            (of_part M0.total_beams b)
            (of_part M0.first_beam b)
            (of_part M0.first_beam b + of_part M0.beams b)
            (of_part M0.first_bin b)
            last
            (of_part M0.bins b)
            image
          ≡ fault
    unfolding copy_beams
    first_copy zero last h below = absurd (omega arith)
    first_copy (suc fuel) last h below = rw (
      lt→ltb (of_part M0.first_beam b) (of_part M0.first_beam b + of_part M0.beams b)
          (omega (arith, some_beam)),
      copy_beams,
      first_bins (of_part M0.bins b + 1) last (omega arith) below,
    )

    pub copy_beams-fault :
        copy_beams beam_fuel s
          (of_part M0.total_beams b)
          (of_part M0.first_beam b)
          (of_part M0.first_beam b + of_part M0.beams b)
          (of_part M0.first_bin b)
          ((of_part M0.first_bin b + of_part M0.bins b) % 2 ^ 32)
          (of_part M0.bins b)
          image
        ≡ fault
    copy_beams-fault =
        first_copy beam_fuel ((of_part M0.first_bin b + of_part M0.bins b) % 2 ^ 32) (omega arith)
          (omega (arith, some_bin, bins_end))

length-prepare :
    (fl : Floats) (total_bins n : ℕ) (img : RawSonarImage fl)
    → length (prepare fl total_bins n img).image ≡ n
length-prepare fl total_bins n img = elim (Bool-cases (length img.image == n)) [
  | inl whole ↦ rw whole ((==_iff _ n).0 whole)
  | inr other ↦ rw other (length-replicate {A = ℕ} n 0)
]

module _ (fl : Floats) (b tail : Bytes) (full : HasBytes 32 b) (asm : Assembler fl) where
  -- The image that the part is copied to.
  abbrev pub target : Bytes
  target =
      (prepare fl (of_part M0.total_bins b)
        (of_part M0.total_bins b * of_part M0.total_beams b % 2 ^ 32) asm.sonar_image).image

  pub length-target : length target ≡ of_part M0.total_bins b * of_part M0.total_beams b % 2 ^ 32
  length-target = length-prepare fl (of_part M0.total_bins b) _ asm.sonar_image

  module _ (some_bin : 0 < of_part M0.bins b) (some_beam : 0 < of_part M0.beams b)
      (bins_end : of_part M0.first_bin b + of_part M0.bins b < 2 ^ 32)
      (first_cell : copy_cell
          (at m0 (encode m0 b tail))
          (of_part M0.total_beams b)
          (of_part M0.first_beam b)
          (of_part M0.first_bin b)
          target
        ≡ fault)
      (body : Bytes) (held : asm.h0_body ≡ some body) (kept : HasBytes 112 body)
      (same : of_h0 H0.ping_number body ≡ of_part M0.ping_number b) where
    mine : field H0.body_layout H0.ping_number body ≡ ok (of_h0 H0.ping_number body)
    mine =
        ap (field H0.body_layout H0.ping_number) (sym (append-nil body))
        ∙ field-within H0.body_layout H0.ping_number body [] kept.0 (omega (arith, kept.1))

    add_section-fault : add_section fl (at m0 (encode m0 b tail)) asm ≡ fault
    unfolding add_section M0.body
    add_section-fault =
        let equal : (of_h0 H0.ping_number body == of_part M0.ping_number b) ≡ true =
          (==_iff _ _).1 same in
        rw (
          held,
          mine,
          present b tail full,
          part_field b tail full M0.ping_number (omega arith),
          equal,
          part_field b tail full M0.total_bins (omega arith),
          part_field b tail full M0.first_bin (omega arith),
          part_field b tail full M0.bins (omega arith),
          part_field b tail full M0.beams (omega arith),
          part_field b tail full M0.total_beams (omega arith),
          part_field b tail full M0.first_beam (omega arith),
          part_field b tail full M0.total_samples (omega arith),
          copy_beams-fault b tail full some_bin some_beam bins_end target first_cell,
        )

    pub add_packet-fault :
        (o : Option Bytes) (size stream : ℕ)
        → IsSmall (image_contents none o (some b))
        → IsTail image_kinds tail
        → add_packet fl (later_packet o b size stream tail) asm ≡ fault
    unfolding add_packet
    add_packet-fault o size stream small ends =
        let c = image_contents none o (some b) in
        let found = m0-Finds c size stream tail small ends in
        rw ((image_sections_found c size stream tail small ends).3, found.0, found.1)
          add_section-fault
