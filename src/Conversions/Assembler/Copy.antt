-- ===== src/Conversions/Assembler/Copy.antt =====
-- The two loops copy a part of the image to its place, turning it from beam order to bin order.
use ros2sonic.Prelude.{
  ℕ, [], ◌∷◌, ◌+◌, ◌-◌, ◌*◌, ◌%◌, ◌^◌, ◌≤◌, ◌<◌, ◌≡◌, ap, ◌∙◌, ◌++◌, length, set, take, drop,
  get_or, get_or-drop, drop-drop, length-drop, lt→ltb, le→leb, arith,
}
use ros2sonic.Outcome.{ok, ◌>>=◌}
use ros2sonic.Memory.{Bytes, get_at}
use ros2sonic.Memory.Endian.{be_value}
use ros2sonic.Struct.{offset, width, field}
use ros2sonic.Struct.Fields.{value_in, get_at-within, field-within}
use ros2sonic.Section.{m0, Section, u16, existance_error_check}
use ros2sonic.Section.Identity.{at, encode, exists-encode_self, existance_error_check-exists}
use ros2sonic.Section.M0
use ros2sonic.Conversions.Assembler.{image_index, copy_cell}
use ros2sonic.Conversions.Detections.Spec.{HasBytes}
use ros2sonic.Conversions.Detections.Reads.{u16_at-lt}

-- A field of an M0 section's contents.
abbrev pub of_part : ℕ → Bytes → ℕ
of_part k b = value_in M0.body_layout k b

-- A part that lies within its image, and whose bytes are all there. Besides, its bins end at 65536
-- at most, since `magnitude` cuts the number of a bin to a u16, and the image has at most 2 ^ 31
-- cells, since they are indexed by an `int`.
pub record IsPart (b : Bytes) : Type 0 where
  pub full : HasBytes (32 + of_part M0.bins b * of_part M0.beams b) b
  pub beams_fit : of_part M0.first_beam b + of_part M0.beams b ≤ of_part M0.total_beams b
  pub bins_fit : of_part M0.first_bin b + of_part M0.bins b ≤ of_part M0.total_bins b
  pub few_bins : of_part M0.first_bin b + of_part M0.bins b ≤ 65536
  pub indexable : of_part M0.total_bins b * of_part M0.total_beams b ≤ 2 ^ 31

-- The byte of a beam and a bin in the part.
abbrev pub part_byte : Bytes → ℕ → ℕ → ℕ
part_byte b beam bin =
    get_or b
      (32 + ((bin - of_part M0.first_bin b) + (beam - of_part M0.first_beam b) * of_part M0.bins b))
      0

row_bound : (d k n m : ℕ) → d < n → k < m → k + d * m < m * n
row_bound d k n m p q = grind arith

cell_bound : (bin beam m n : ℕ) → bin < m → beam < n → bin * n + beam < m * n
cell_bound bin beam m n p q = grind arith

mul_mono : (a b c d : ℕ) → a ≤ c → b ≤ d → a * b ≤ c * d
mul_mono a b c d p q = grind arith

pub one_byte : (b : Bytes) (n : ℕ) → n < length b → be_value (take 1 (drop n b)) ≡ get_or b n 0
one_byte b n h =
    single (drop n b) (omega (arith, length-drop {0} n b))
    ∙ get_or-drop n b 0 0
    ∙ ap (λ k. get_or b k 0) (omega arith)
  where
    single : (x : Bytes) → 0 < length x → be_value (take 1 x) ≡ get_or x 0 0
    single [] h = absurd (omega arith)
    single (a ∷ x) h = omega arith

-- The arithmetic of `magnitude`, where nothing overflows.
local_index :
    (beam bin first_beam first_bin n : ℕ) (q : Bytes)
    → first_beam ≤ beam
    → beam < 65536
    → first_bin ≤ bin
    → bin < 65536
    → (bin - first_bin) + (beam - first_beam) * n < 2 ^ 31
    → (M0.int_product (u16 beam) first_beam n >>= λ row.
        ok (drop (((u16 bin + 2 ^ 32 - first_bin) % 2 ^ 32 + row) % 2 ^ 32) q))
      ≡ ok (drop ((bin - first_bin) + (beam - first_beam) * n) q)
unfolding M0.int_product
local_index beam bin first_beam first_bin n q from small from' small' fits =
    let same : u16 beam ≡ beam = omega arith in
    rw (same, le→leb first_beam beam from, lt→ltb ((beam - first_beam) * n) (2 ^ 31) (omega arith))
      (ap (λ i. ok (drop i q)) (omega arith))

module _ (b tail : Bytes) (part : IsPart b) where
  abbrev s : Section
  s = at m0 (encode m0 b tail)

  abbrev bins : ℕ
  bins = of_part M0.bins b

  abbrev beams : ℕ
  beams = of_part M0.beams b

  abbrev first_bin : ℕ
  first_bin = of_part M0.first_bin b

  abbrev first_beam : ℕ
  first_beam = of_part M0.first_beam b

  abbrev total_beams : ℕ
  total_beams = of_part M0.total_beams b

  pub part_field :
      (k : ℕ)
      → offset M0.body_layout k + width M0.body_layout k ≤ 32
      → field M0.body_layout k (b ++ tail) ≡ ok (of_part k b)
  part_field k h = field-within M0.body_layout k b tail part.full.0 (omega (arith, part.full.1))

  area : bins * beams ≤ 2 ^ 31
  area = omega (
    arith,
    part.indexable,
    mul_mono bins beams (of_part M0.total_bins b) total_beams (omega (arith, part.bins_fit))
        (omega (arith, part.beams_fit)),
  )

  pub present : existance_error_check s ≡ ok tt
  present = existance_error_check-exists s (exists-encode_self m0 b tail)

  -- One cell inside the part.
  module _ (beam bin : ℕ) (from_beam : first_beam ≤ beam) (to_beam : beam < first_beam + beams)
      (from_bin : first_bin ≤ bin) (to_bin : bin < first_bin + bins) where
    abbrev local : ℕ
    local = (bin - first_bin) + (beam - first_beam) * bins

    local-lt : local < bins * beams
    local-lt =
        row_bound (beam - first_beam) (bin - first_bin) beams bins (omega arith) (omega arith)

    magnitude-eq : M0.magnitude s beam bin ≡ ok (drop local (drop 32 (b ++ tail)))
    unfolding M0.magnitude M0.body
    magnitude-eq =
        rw
          (
            present,
            part_field M0.first_beam (omega arith),
            part_field M0.first_bin (omega arith),
            part_field M0.bins (omega arith),
          )
          (local_index beam bin first_beam first_bin bins (drop 32 (b ++ tail)) from_beam
            (omega (arith, part.beams_fit, u16_at-lt b 22 part.full.0)) from_bin
            (omega (arith, part.bins_fit, part.few_bins)) (omega (arith, local-lt, area)))

    read_cell : get_at 1 (drop local (drop 32 (b ++ tail))) ≡ ok (part_byte b beam bin)
    read_cell =
        ap (get_at 1) (drop-drop 32 local (b ++ tail))
        ∙ get_at-within 1 (32 + local) b tail part.full.0 (omega (arith, local-lt, part.full.1))
        ∙ ap ok (one_byte b (32 + local) (omega (arith, local-lt, part.full.1)))

    cell-lt : bin * total_beams + beam < of_part M0.total_bins b * total_beams
    cell-lt =
        cell_bound bin beam (of_part M0.total_bins b) total_beams (omega (arith, part.bins_fit))
          (omega (arith, part.beams_fit))

    image_index-eq : image_index bin total_beams beam ≡ ok (bin * total_beams + beam)
    unfolding image_index
    image_index-eq = rw (
      lt→ltb bin (2 ^ 31) (omega (arith, part.bins_fit, part.few_bins)),
      lt→ltb (bin * total_beams + beam) (2 ^ 31) (omega (arith, cell-lt, part.indexable)),
    )

    pub copy_cell-eq :
        (image : Bytes)
        → length image ≡ of_part M0.total_bins b * total_beams
        → copy_cell s total_beams beam bin image
          ≡ ok (set image (bin * total_beams + beam) (part_byte b beam bin))
    unfolding copy_cell
    copy_cell-eq image e = rw (
      image_index-eq,
      magnitude-eq,
      read_cell,
      lt→ltb (bin * total_beams + beam) (length image) (omega (arith, e, cell-lt)),
    )
