-- ===== src/Conversions/Assembler/Outside.antt =====
-- Parts whose first cell is not where it should be: its place behind the image, or its byte outside
-- the buffer.
use ros2sonic.Prelude.{
  drop, get_or, length-drop, ℕ, zero, suc, ◌+◌, ◌-◌, ◌*◌, ◌%◌, ◌^◌, ◌≤◌, ◌<◌, ◌≡◌, refl, ap, ◌∙◌,
  false, [], ◌∷◌, ◌++◌, length, ltb, arith,
}
use ros2sonic.Outcome.{ok, fault}
use ros2sonic.Memory.{Bytes, get_at}
use ros2sonic.Floats.{Floats}
use ros2sonic.Section.{m0, u16}
use ros2sonic.Section.Identity.{at, encode}
use ros2sonic.Section.M0
use ros2sonic.Conversions.Assembler.{Assembler, image_index, copy_cell}
use ros2sonic.Conversions.Assembler.Copy.{of_part}
use ros2sonic.Conversions.Detections.Spec.{HasBytes}
use ros2sonic.Conversions.Assembler.Copy.{one_byte}
use ros2sonic.Conversions.Assembler.Faults.{target, length-target, first_magnitude, first_index}
use ros2sonic.Struct.Fields.{get_at-within}

-- A part with a cell, whose first magnitude is there, that begins behind the last bin of its image.
-- The number of a bin fits 16 bits and the index of the first cell an `int`.
pub record IsOutside (b : Bytes) : Type 0 where
  pub full : HasBytes 33 b
  pub some_bin : 0 < of_part M0.bins b
  pub some_beam : 0 < of_part M0.beams b
  pub behind : of_part M0.total_bins b ≤ of_part M0.first_bin b
  pub few_bins : of_part M0.first_bin b + of_part M0.bins b ≤ 65536
  pub indexed : of_part M0.first_bin b * of_part M0.total_beams b + of_part M0.first_beam b < 2 ^ 31

-- A part with a cell whose first bin has a number that does not fit 16 bits. The index of the first
-- cell fits an `int`, and the rest of the buffer is shorter than 2 ^ 31.
pub record IsFar (b tail : Bytes) : Type 0 where
  pub full : HasBytes 32 b
  pub some_bin : 0 < of_part M0.bins b
  pub some_beam : 0 < of_part M0.beams b
  pub far : 65536 ≤ of_part M0.first_bin b
  pub few_bins : of_part M0.first_bin b + of_part M0.bins b < 2 ^ 31
  pub indexed : of_part M0.first_bin b * of_part M0.total_beams b + of_part M0.first_beam b < 2 ^ 31
  pub short : length (b ++ tail) < 2 ^ 31

behind_image : (n w bin beam : ℕ) → n ≤ bin → n * w ≤ bin * w + beam
behind_image n w bin beam h = grind arith

no_cut : (bin : ℕ) → bin < 65536 → ((u16 bin + 2 ^ 32 - bin) % 2 ^ 32 + 0) % 2 ^ 32 ≡ 0
no_cut bin low = omega arith

drop_all : (n : ℕ) (x : Bytes) → length x ≤ n → drop n x ≡ []
drop_all zero [] h = refl
drop_all zero (a ∷ x) h = absurd (omega arith)
drop_all (suc n) [] h = refl
drop_all (suc n) (a ∷ x) h = drop_all n x (omega arith)

module _ (b tail : Bytes) (outside : IsOutside b) where
  abbrev pub header : HasBytes 32 b
  header = (outside.full.0, omega (arith, outside.full.1))

  pub magnitude-outside :
      M0.magnitude (at m0 (encode m0 b tail)) (of_part M0.first_beam b) (of_part M0.first_bin b)
      ≡ ok (drop 32 (b ++ tail))
  magnitude-outside =
      first_magnitude b tail header
      ∙ ap (λ i. ok (drop i (drop 32 (b ++ tail))))
          (no_cut (of_part M0.first_bin b) (omega (arith, outside.few_bins, outside.some_bin)))

  pub byte-outside : get_at 1 (drop 32 (b ++ tail)) ≡ ok (get_or b 32 0)
  byte-outside =
      get_at-within 1 32 b tail outside.full.0 (omega (arith, outside.full.1))
      ∙ ap ok (one_byte b 32 (omega (arith, outside.full.1)))

  pub index-outside :
      image_index (of_part M0.first_bin b) (of_part M0.total_beams b) (of_part M0.first_beam b)
      ≡ ok (of_part M0.first_bin b * of_part M0.total_beams b + of_part M0.first_beam b)
  index-outside =
      first_index b tail header (omega (arith, outside.few_bins, outside.some_bin)) outside.indexed

  pub target-le :
      (fl : Floats) (asm : Assembler fl)
      → length (target fl b tail header asm)
        ≤ of_part M0.first_bin b * of_part M0.total_beams b + of_part M0.first_beam b
  target-le fl asm = omega (
    arith,
    length-target fl b tail header asm,
    outside.indexed,
    behind_image (of_part M0.total_bins b) (of_part M0.total_beams b) (of_part M0.first_bin b)
        (of_part M0.first_beam b) outside.behind,
  )

  pub copy_cell-outside :
      (fl : Floats) (asm : Assembler fl)
      → copy_cell
          (at m0 (encode m0 b tail))
          (of_part M0.total_beams b)
          (of_part M0.first_beam b)
          (of_part M0.first_bin b)
          (target fl b tail header asm)
        ≡ fault
  unfolding copy_cell
  copy_cell-outside fl asm =
      let past : ltb (of_part M0.first_bin b * of_part M0.total_beams b + of_part M0.first_beam b)
            (length (target fl b tail header asm))
          ≡ false =
        ground (arith, target-le fl asm) in
      rw (index-outside, magnitude-outside, byte-outside, past)

module _ (b tail : Bytes) (far : IsFar b tail) where
  -- The 16 bits of the bin minus the first bin is negative, which a u32 takes for a large number.
  pub magnitude-far :
      M0.magnitude (at m0 (encode m0 b tail)) (of_part M0.first_beam b) (of_part M0.first_bin b)
      ≡ ok []
  magnitude-far =
      first_magnitude b tail far.full
      ∙ ap ok (
          drop_all _ (drop 32 (b ++ tail))
            (omega (arith, far.far, far.few_bins, far.short, length-drop {0} 32 (b ++ tail))))

  pub copy_cell-far :
      (image : Bytes)
      → copy_cell
          (at m0 (encode m0 b tail))
          (of_part M0.total_beams b)
          (of_part M0.first_beam b)
          (of_part M0.first_bin b)
          image
        ≡ fault
  unfolding copy_cell get_at
  copy_cell-far image =
      rw (first_index b tail far.full (omega (arith, far.few_bins)) far.indexed, magnitude-far)
