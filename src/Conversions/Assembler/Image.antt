-- ===== src/Conversions/Assembler/Image.antt =====
-- The image after a part has been added, cell by cell.
use ros2sonic.Prelude.{
  ℕ, zero, suc, ◌+◌, ◌*◌, ◌%◌, ◌^◌, ◌≤◌, ◌<◌, ◌≡◌, ◌≢◌, refl, ap, ◌∙◌, Bool, true, false, ◌&&◌, [],
  ◌∷◌, length, set, get_or, length-set, ltb, leb, ◌==◌, lt→ltb, if◌then◌else◌, arith,
}
use ros2sonic.Outcome.{ok}
use ros2sonic.Memory.{Bytes}
use ros2sonic.Section.{m0, Section}
use ros2sonic.Section.Identity.{at, encode}
use ros2sonic.Section.M0
use ros2sonic.Conversions.Assembler.{copy_bins, copy_beams}
use ros2sonic.Conversions.Assembler.Copy.{of_part, IsPart, part_byte, copy_cell-eq}
use ros2sonic.Conversions.Detections.Reads.{u16_at-lt}

-- Whether a cell lies in a block of beams and bins.
abbrev pub within : ℕ → ℕ → ℕ → Bool
within first count i = leb first i && ltb i (first + count)

module _ (src : ℕ → ℕ → ℕ) (width : ℕ) where
  -- The same writes, with no reads and no failures.
  abbrev pub paint_bins : ℕ → ℕ → ℕ → Bytes → Bytes
  paint_bins zero beam bin image = image
  paint_bins (suc left) beam bin image =
      paint_bins left beam (bin + 1) (set image (bin * width + beam) (src beam bin))

  abbrev pub paint_beams : ℕ → ℕ → ℕ → ℕ → Bytes → Bytes
  paint_beams zero beam bins first_bin image = image
  paint_beams (suc left) beam bins first_bin image =
      paint_beams left (beam + 1) bins first_bin (paint_bins bins beam first_bin image)

  length-paint_bins :
      (left beam bin : ℕ) (image : Bytes) → length (paint_bins left beam bin image) ≡ length image
  length-paint_bins zero beam bin image = refl
  length-paint_bins (suc left) beam bin image =
      length-paint_bins left beam (bin + 1) _ ∙ length-set image (bin * width + beam) (src beam bin)

  pub length-paint_beams :
      (left beam bins first_bin : ℕ) (image : Bytes)
      → length (paint_beams left beam bins first_bin image) ≡ length image
  length-paint_beams zero beam bins first_bin image = refl
  length-paint_beams (suc left) beam bins first_bin image =
      length-paint_beams left (beam + 1) bins first_bin _
      ∙ length-paint_bins bins beam first_bin image

get_or-set :
    (xs : Bytes) (i j v : ℕ)
    → i < length xs
    → get_or (set xs i v) j 0 ≡ (if i == j then v else get_or xs j 0)
get_or-set [] i j v h = absurd (omega arith)
get_or-set (x ∷ xs) zero zero v h = refl
get_or-set (x ∷ xs) zero (suc j) v h = ground arith
get_or-set (x ∷ xs) (suc i) zero v h = ground arith
get_or-set (x ∷ xs) (suc i) (suc j) v h = get_or-set xs i j v (omega arith) ∙ ground arith

-- Two cells of an image are one only if their beams and their bins agree.
cells_differ : (n a b c d : ℕ) → b < n → d < n → a < c → a * n + b ≢ c * n + d
cells_differ n a b c d p q r e = grind arith

same_cell : (n a b c d : ℕ) → b < n → d < n → ((a * n + b) == (c * n + d)) ≡ ((a == c) && (b == d))
same_cell n a b c d p q = ground (
  arith,
  λ (r : a < c). cells_differ n a b c d p q r,
  λ (r : c < a). cells_differ n c d a b q p r,
)

cell_in_image :
    (bin beam bins width : ℕ) → bin < bins → beam < width → bin * width + beam < bins * width
cell_in_image bin beam bins width p q = grind arith

-- What stands at bin `c` and beam `d` after the writes.
module _ (src : ℕ → ℕ → ℕ) (width total : ℕ) (c d : ℕ) (d_in : d < width) where
  cell_after_set :
      (image : Bytes) (beam bin : ℕ)
      → length image ≡ total * width
      → beam < width
      → bin < total
      → get_or (set image (bin * width + beam) (src beam bin)) (c * width + d) 0
        ≡ (if (bin == c) && (beam == d) then src d c else get_or image (c * width + d) 0)
  cell_after_set image beam bin e beam_in bin_in =
      get_or-set image (bin * width + beam) (c * width + d) (src beam bin)
        (omega (arith, e, cell_in_image bin beam total width bin_in beam_in))
      ∙ ap (λ t. if t then src beam bin else get_or image (c * width + d) 0)
          (same_cell width bin beam c d beam_in d_in)
      ∙ ground arith

  cell-paint_bins :
      (left beam bin : ℕ) (image : Bytes)
      → length image ≡ total * width
      → beam < width
      → bin + left ≤ total
      → get_or (paint_bins src width left beam bin image) (c * width + d) 0
        ≡ (if (beam == d) && within bin left c then src d c else get_or image (c * width + d) 0)
  cell-paint_bins zero beam bin image e beam_in fits = ground arith
  cell-paint_bins (suc left) beam bin image e beam_in fits =
      cell-paint_bins left beam (bin + 1) (set image (bin * width + beam) (src beam bin))
        (length-set image (bin * width + beam) (src beam bin) ∙ e) beam_in (omega arith)
      ∙ ap (λ t. if (beam == d) && within (bin + 1) left c then src d c else t)
          (cell_after_set image beam bin e beam_in (omega arith))
      ∙ ground arith

  pub cell-paint_beams :
      (left beam bins first_bin : ℕ) (image : Bytes)
      → length image ≡ total * width
      → beam + left ≤ width
      → first_bin + bins ≤ total
      → get_or (paint_beams src width left beam bins first_bin image) (c * width + d) 0 ≡ (
          if within beam left d && within first_bin bins c
          then src d c
          else get_or image (c * width + d) 0)
  cell-paint_beams zero beam bins first_bin image e beam_fits fits = ground arith
  cell-paint_beams (suc left) beam bins first_bin image e beam_fits fits =
      cell-paint_beams left (beam + 1) bins first_bin
        (paint_bins src width bins beam first_bin image)
        (length-paint_bins src width bins beam first_bin image ∙ e) (omega arith) fits
      ∙ ap (λ t. if within (beam + 1) left d && within first_bin bins c then src d c else t)
          (cell-paint_bins bins beam first_bin image e (omega arith) fits)
      ∙ ground arith

-- The loops are those writes, when the part lies within the image.
module _ (b tail : Bytes) (part : IsPart b) where
  abbrev s : Section
  s = at m0 (encode m0 b tail)

  abbrev width_of : ℕ
  width_of = of_part M0.total_beams b

  abbrev last_bin : ℕ
  last_bin = of_part M0.first_bin b + of_part M0.bins b

  abbrev last_beam : ℕ
  last_beam = of_part M0.first_beam b + of_part M0.beams b

  copy_bins-eq :
      (fuel left beam bin : ℕ) (image : Bytes)
      → left < fuel
      → bin + left ≡ last_bin
      → of_part M0.first_bin b ≤ bin
      → of_part M0.first_beam b ≤ beam
      → beam < last_beam
      → length image ≡ of_part M0.total_bins b * width_of
      → copy_bins fuel s width_of beam bin last_bin image
        ≡ ok (paint_bins (part_byte b) width_of left beam bin image)
  unfolding copy_bins
  copy_bins-eq zero left beam bin image h e p q r l = absurd (omega arith)
  copy_bins-eq (suc fuel) zero beam bin image h e p q r l =
      let done : ltb bin last_bin ≡ false = ground arith in rw (done, copy_bins)
  copy_bins-eq (suc fuel) (suc left) beam bin image h e p q r l =
      let more : ltb bin last_bin ≡ true = lt→ltb bin last_bin (omega arith) in
      let next : (bin + 1) % 2 ^ 32 ≡ bin + 1 = omega (arith, part.bins_fit, part.few_bins) in
      rw (more, copy_bins, copy_cell-eq b tail part beam bin q r p (omega arith) image l, next)
        (copy_bins-eq fuel left beam (bin + 1) _ (omega arith) (omega arith) (omega arith) q r
          (length-set image (bin * width_of + beam) (part_byte b beam bin) ∙ l))

  pub copy_beams-eq :
      (fuel left beam : ℕ) (image : Bytes)
      → left < fuel
      → beam + left ≡ last_beam
      → of_part M0.first_beam b ≤ beam
      → length image ≡ of_part M0.total_bins b * width_of
      → copy_beams fuel s width_of beam last_beam
          (of_part M0.first_bin b)
          last_bin
          (of_part M0.bins b)
          image
        ≡ ok (
            paint_beams
              (part_byte b)
              width_of
              left
              beam
              (of_part M0.bins b)
              (of_part M0.first_bin b)
              image)
  unfolding copy_beams
  copy_beams-eq zero left beam image h e p l = absurd (omega arith)
  copy_beams-eq (suc fuel) zero beam image h e p l =
      let done : ltb beam last_beam ≡ false = ground arith in rw (done, copy_beams)
  copy_beams-eq (suc fuel) (suc left) beam image h e p l =
      let more : ltb beam last_beam ≡ true = lt→ltb beam last_beam (omega arith) in
      let next : (beam + 1) % 65536 ≡ beam + 1 =
        omega (arith, part.beams_fit, u16_at-lt b 22 part.full.0) in
      rw
        (
          more,
          copy_beams,
          copy_bins-eq (of_part M0.bins b + 1) (of_part M0.bins b) beam (of_part M0.first_bin b)
              image (omega arith) refl (omega arith) p (omega arith) l,
          next,
        )
        (copy_beams-eq fuel left (beam + 1) _ (omega arith) (omega arith) (omega arith) (
          length-paint_bins (part_byte b) width_of (of_part M0.bins b) beam (of_part M0.first_bin b)
            image
          ∙ l))
