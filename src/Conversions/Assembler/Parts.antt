-- ===== src/Conversions/Assembler/Parts.antt =====
-- What adding one M0 section does to the assembler.
use mathlib.Core.Option
use ros2sonic.Prelude.{
  some, ℕ, [], append-nil, ◌+◌, ◌*◌, ◌%◌, ◌^◌, ◌≤◌, ◌<◌, ◌≡◌, ◌≢◌, refl, sym, ap, ◌∙◌, Bool, true,
  false, ◌&&◌, length, replicate, length-replicate, get_or, leb, ◌==◌, ==_iff, Bool-cases, inl, inr,
  if◌then◌else◌, arith,
}
use ros2sonic.Outcome.{ok}
use ros2sonic.Memory.{Bytes}
use ros2sonic.Floats.{Floats}
use ros2sonic.Struct.{offset, width, field}
use ros2sonic.Struct.Fields.{value_in, field-within}
use ros2sonic.Section.{m0, Section}
use ros2sonic.Section.Identity.{at, encode}
use ros2sonic.Section.H0
use ros2sonic.Section.M0
use ros2sonic.Conversions.Assembler.{Assembler, prepare, beam_fuel, add_section}
use ros2sonic.Conversions.Assembler.Copy.{of_part, IsPart, part_byte, part_field, present}
use ros2sonic.Conversions.Assembler.Image.{
  within, paint_beams, length-paint_beams, cell-paint_beams, copy_beams-eq,
}
use ros2sonic.Conversions.Detections.Spec.{HasBytes}
use ros2sonic.Conversions.Detections.Reads.{u16_at-lt}

-- A number that stands in the copied H0 body.
abbrev pub of_h0 : ℕ → Bytes → ℕ
of_h0 k body = value_in H0.body_layout k body

-- The image before the part is drawn: kept if it has the right size, else all zeros.
abbrev pub canvas : Bytes → Bytes → Bytes
canvas b image =
    let n = of_part M0.total_bins b * of_part M0.total_beams b in
    if length image == n then image else replicate n 0

length-canvas :
    (b image : Bytes) → length (canvas b image) ≡ of_part M0.total_bins b * of_part M0.total_beams b
length-canvas b image =
    let n = of_part M0.total_bins b * of_part M0.total_beams b in
    ground (arith, length-replicate {A = ℕ} n 0)

abbrev pub drawn : Bytes → Bytes → Bytes
drawn b image =
    paint_beams (part_byte b) (of_part M0.total_beams b) (of_part M0.beams b)
      (of_part M0.first_beam b) (of_part M0.bins b) (of_part M0.first_bin b) (canvas b image)

-- The image after a part has been added has one byte for each bin and beam of the ping. A cell of
-- the part holds the part's byte, read beam by beam, and every other cell what it held before.
pub cell-drawn :
    (b image : Bytes) (c d : ℕ)
    → IsPart b
    → d < of_part M0.total_beams b
    → get_or (drawn b image) (c * of_part M0.total_beams b + d) 0 ≡ (
        if within (of_part M0.first_beam b) (of_part M0.beams b) d
          && within (of_part M0.first_bin b) (of_part M0.bins b) c
        then part_byte b d c
        else get_or (canvas b image) (c * of_part M0.total_beams b + d) 0)
cell-drawn b image c d part inside =
    cell-paint_beams (part_byte b) (of_part M0.total_beams b) (of_part M0.total_bins b) c d inside
      (of_part M0.beams b) (of_part M0.first_beam b) (of_part M0.bins b) (of_part M0.first_bin b)
      (canvas b image) (length-canvas b image) part.beams_fit part.bins_fit

pub length-drawn :
    (b image : Bytes) → length (drawn b image) ≡ of_part M0.total_bins b * of_part M0.total_beams b
length-drawn b image =
    length-paint_beams (part_byte b) (of_part M0.total_beams b) (of_part M0.beams b)
      (of_part M0.first_beam b) (of_part M0.bins b) (of_part M0.first_bin b) (canvas b image)
    ∙ length-canvas b image

-- The assembler after a part of its ping.
module _ (fl : Floats) (b : Bytes) (asm : Assembler fl) where
  open fl use {of_bits, double_of_ℕ, double_of_float, double_mul, double_div, float_of_double}

  abbrev reaches_end : Bool
  reaches_end = leb (of_part M0.total_bins b) (of_part M0.first_bin b + of_part M0.bins b)

  abbrev scaled_rate : fl.F32
  scaled_rate =
      let scale =
        double_div (double_of_ℕ (of_part M0.total_bins b))
          (double_of_ℕ (of_part M0.total_samples b)) in
      float_of_double (
        double_mul
          (double_of_float (of_bits (of_h0 H0.rx_sample_rate (Option.get_or asm.h0_body []))))
          scale)

  abbrev pub extended : Assembler fl
  extended =
      let img = asm.sonar_image in
      let n = of_part M0.total_bins b * of_part M0.total_beams b in
      record asm {
        sonar_image = record img {
          samples_per_beam =
              if length img.image == n then img.samples_per_beam else of_part M0.total_bins b;
          image = drawn b img.image;
          sample_rate = if reaches_end then scaled_rate else img.sample_rate;
        };
      }

module _ (fl : Floats) (b tail : Bytes) (part : IsPart b) (asm : Assembler fl) (body : Bytes)
    (held : asm.h0_body ≡ some body) (kept : HasBytes 112 body) where
  abbrev s : Section
  s = at m0 (encode m0 b tail)

  kept_field :
      (k : ℕ)
      → offset H0.body_layout k + width H0.body_layout k ≤ 112
      → field H0.body_layout k body ≡ ok (of_h0 k body)
  kept_field k h =
      ap (field H0.body_layout k) (sym (append-nil body))
      ∙ field-within H0.body_layout k body [] kept.0 (omega (arith, kept.1))

  -- A part of another ping than the one whose H0 body the assembler holds changes nothing, and the
  -- answer is false. The part is whole, and so is the H0 body.
  pub add_section-other_ping :
      of_h0 H0.ping_number body ≢ of_part M0.ping_number b → add_section fl s asm ≡ ok (false, asm)
  unfolding add_section M0.body
  add_section-other_ping differ =
      let unequal : (of_h0 H0.ping_number body == of_part M0.ping_number b) ≡ false =
        ground arith in
      rw (
        held,
        kept_field H0.ping_number (omega arith),
        present b tail part,
        part_field b tail part M0.ping_number (omega arith),
        unequal,
      )

  prepared :
      prepare fl
        (of_part M0.total_bins b)
        (of_part M0.total_bins b * of_part M0.total_beams b)
        asm.sonar_image
      ≡ (let img = asm.sonar_image in
          record img {
            samples_per_beam =
                if length img.image == of_part M0.total_bins b * of_part M0.total_beams b
                then img.samples_per_beam
                else of_part M0.total_bins b;
            image = canvas b img.image;
          })
  prepared =
      elim (Bool-cases
        (length asm.sonar_image.image == of_part M0.total_bins b * of_part M0.total_beams b)) [
          | inl kept_size ↦ rw kept_size
          | inr other_size ↦ rw other_size
        ]

  -- A part of the assembler's own ping, which lies within its image, with bins that end at 65536 at
  -- most and an image of at most 2 ^ 31 cells, is added without a fault; the answer is true exactly
  -- when the part reaches the last bin.
  pub add_section-eq :
      of_h0 H0.ping_number body ≡ of_part M0.ping_number b
      → add_section fl s asm
        ≡ ok (
          leb (of_part M0.total_bins b) (of_part M0.first_bin b + of_part M0.bins b),
          extended fl b asm,
        )
  unfolding add_section M0.body
  add_section-eq same =
      let n = of_part M0.total_bins b * of_part M0.total_beams b in
      let equal : (of_h0 H0.ping_number body == of_part M0.ping_number b) ≡ true =
        (==_iff _ _).1 same in
      let sum : (of_part M0.first_bin b + of_part M0.bins b) % 2 ^ 32
          ≡ of_part M0.first_bin b + of_part M0.bins b =
        omega (arith, part.bins_fit, part.few_bins) in
      let area_fits : n % 2 ^ 32 ≡ n = omega (arith, part.indexable) in
      rw
        (
          held,
          kept_field H0.ping_number (omega arith),
          present b tail part,
          part_field b tail part M0.ping_number (omega arith),
          equal,
          part_field b tail part M0.total_bins (omega arith),
          part_field b tail part M0.first_bin (omega arith),
          part_field b tail part M0.bins (omega arith),
          part_field b tail part M0.beams (omega arith),
          part_field b tail part M0.total_beams (omega arith),
          part_field b tail part M0.first_beam (omega arith),
          part_field b tail part M0.total_samples (omega arith),
          sum,
          area_fits,
          prepared,
          copy_beams-eq b tail part beam_fuel (of_part M0.beams b) (of_part M0.first_beam b)
              (canvas b asm.sonar_image.image)
              (omega (arith, part.beams_fit, u16_at-lt b 22 part.full.0)) refl (omega arith)
              (length-canvas b asm.sonar_image.image),
          kept_field H0.rx_sample_rate (omega arith),
        )
        (elim (Bool-cases
          (leb (of_part M0.total_bins b) (of_part M0.first_bin b + of_part M0.bins b))) [
            | inl done ↦ rw done
            | inr more ↦ rw more
          ])
