-- ===== src/Section/Q0/Nibbles.antt =====
-- The flag of a beam is a half of a byte: word, byte order and shift cancel out.
use ros2sonic.Prelude.{
  ℕ, zero, suc, ◌+◌, ◌*◌, ◌/◌, ◌%◌, ◌^◌, ◌≤◌, ◌<◌, ◌≡◌, refl, ap, ◌∙◌, [], ◌∷◌, get_or, get_or-drop,
  All-drop, length, length-drop, drop, bit_or, leb, ◌==◌, if◌then◌else◌, arith,
}
use ros2sonic.Prelude.Bits.{bit_or_disjoint, bit_and_15, bit_and_8, bit_and_4}
use ros2sonic.Outcome.{ok, ◌>>=◌}
use ros2sonic.Memory.{Bytes, IsBytes}
use ros2sonic.Section.{Section, u16}
use ros2sonic.Section.Q0.{
  quality_words, read_be_u32, nibble, get_quality_flag, phase_detect, magnitude_detect,
}

-- The first four bits of a byte for an even beam, the last four for an odd one.
abbrev pub half_of : ℕ → ℕ → ℕ
half_of beam byte = if beam % 2 == 0 then byte / 16 else byte % 16

module _ (p0 p1 p2 p3 : ℕ) (h0 : p0 < 256) (h1 : p1 < 256) (h2 : p2 < 256) (h3 : p3 < 256) where
  abbrev word : ℕ
  word = p0 * 2 ^ 24 + p1 * 2 ^ 16 + p2 * 2 ^ 8 + p3

  joined : bit_or (bit_or (bit_or (p0 * 2 ^ 24) (p1 * 2 ^ 16)) (p2 * 2 ^ 8)) p3 ≡ word
  joined =
      let first : bit_or (p0 * 2 ^ 24) (p1 * 2 ^ 16) ≡ (p0 * 256 + p1) * 2 ^ 16 =
        omega (arith, bit_or_disjoint 24 p0 (p1 * 2 ^ 16) (omega arith)) in
      let second : bit_or ((p0 * 256 + p1) * 2 ^ 16) (p2 * 2 ^ 8)
          ≡ (p0 * 65536 + p1 * 256 + p2) * 2 ^ 8 =
        omega (arith, bit_or_disjoint 16 (p0 * 256 + p1) (p2 * 2 ^ 8) (omega arith)) in
      ap (λ t. bit_or (bit_or t (p2 * 2 ^ 8)) p3) first
      ∙ ap (λ t. bit_or t p3) second
      ∙ omega (arith, bit_or_disjoint 8 (p0 * 65536 + p1 * 256 + p2) p3 h3)

  -- The byte of the word in which a nibble stands.
  abbrev byte_of : ℕ → ℕ
  byte_of k = get_or (p0 ∷ p1 ∷ p2 ∷ p3 ∷ []) (k / 2) 0

  nibble-word : (k : ℕ) → k < 8 → nibble word k ≡ half_of k (byte_of k)
  unfolding nibble
  nibble-word zero h = omega (arith, bit_and_15 (word / 2 ^ 28))
  nibble-word (suc zero) h = omega (arith, bit_and_15 (word / 2 ^ 24))
  nibble-word (suc (suc zero)) h = omega (arith, bit_and_15 (word / 2 ^ 20))
  nibble-word (suc (suc (suc zero))) h = omega (arith, bit_and_15 (word / 2 ^ 16))
  nibble-word (suc (suc (suc (suc zero)))) h = omega (arith, bit_and_15 (word / 2 ^ 12))
  nibble-word (suc (suc (suc (suc (suc zero))))) h = omega (arith, bit_and_15 (word / 2 ^ 8))
  nibble-word (suc (suc (suc (suc (suc (suc zero)))))) h = omega (arith, bit_and_15 (word / 2 ^ 4))
  nibble-word (suc (suc (suc (suc (suc (suc (suc zero))))))) h =
      omega (arith, bit_and_15 (word / 2 ^ 0))
  nibble-word (suc (suc (suc (suc (suc (suc (suc (suc k)))))))) h = absurd (omega arith)

first_four :
    (a b c d : ℕ) (r : Bytes) (n : ℕ)
    → n < 4
    → get_or (a ∷ b ∷ c ∷ d ∷ []) n 0 ≡ get_or (a ∷ b ∷ c ∷ d ∷ r) n 0
first_four a b c d r zero h = refl
first_four a b c d r (suc zero) h = refl
first_four a b c d r (suc (suc zero)) h = refl
first_four a b c d r (suc (suc (suc zero))) h = refl
first_four a b c d r (suc (suc (suc (suc n)))) h = absurd (omega arith)

flag_at :
    (p : Bytes) (k : ℕ)
    → 4 ≤ length p
    → IsBytes p
    → k < 8
    → (read_be_u32 p >>= λ w. ok (nibble w k)) ≡ ok (half_of k (get_or p (k / 2) 0))
unfolding read_be_u32
flag_at [] k h bytes small = absurd (omega arith)
flag_at (a ∷ []) k h bytes small = absurd (omega arith)
flag_at (a ∷ b ∷ []) k h bytes small = absurd (omega arith)
flag_at (a ∷ b ∷ c ∷ []) k h bytes small = absurd (omega arith)
flag_at (a ∷ b ∷ c ∷ d ∷ r) k h bytes small = ap ok (
    ap (λ w. nibble w k) (joined a b c d bytes.0 bytes.1.0 bytes.1.1.0 bytes.1.1.1.0)
    ∙ nibble-word a b c d bytes.0 bytes.1.0 bytes.1.1.0 bytes.1.1.1.0 k small
    ∙ ap (half_of k) (first_four a b c d r (k / 2) (omega arith)))

-- The flag of a beam is half of the byte at half the beam's number: the first four bits for an even
-- beam, the last four for an odd one. The beam's number fits 16 bits, and its whole word lies in
-- the buffer.
pub get_quality_flag-eq-half :
    (s : Section) (beam : ℕ)
    → IsBytes (quality_words s)
    → beam < 65536
    → beam / 8 * 4 + 4 ≤ length (quality_words s)
    → get_quality_flag s beam ≡ ok (half_of beam (get_or (quality_words s) (beam / 2) 0))
unfolding get_quality_flag
get_quality_flag-eq-half s beam bytes small fits =
    let words = quality_words s in
    let same : u16 beam ≡ beam = omega arith in
    let start = beam / 8 * 4 in
    ap (λ b. read_be_u32 (drop (b / 8 * 4) words) >>= λ w. ok (nibble w (b % 8))) same
    ∙ flag_at (drop start words) (beam % 8) (omega (arith, length-drop {0} start words))
        (All-drop (λ b. b < 256) start words bytes) (omega arith)
    ∙ ap ok (
        ap (half_of (beam % 8)) (
          get_or-drop start words (beam % 8 / 2) 0
          ∙ ap (λ i. get_or words i 0) {y = beam / 2} (omega arith))
        ∙ ap
            (λ (e : ℕ).
              if e == 0 then get_or words (beam / 2) 0 / 16 else get_or words (beam / 2) 0 % 16)
            {x = beam % 8 % 2} {y = beam % 2} (omega arith))

-- What the two detection tests say of a flag: its highest bit, and the next one.
pub detections-of_flag :
    (s : Section) (beam flag : ℕ)
    → flag < 16
    → get_quality_flag s beam ≡ ok flag
    → (phase_detect s beam ≡ ok (leb 8 flag)) × (magnitude_detect s beam ≡ ok (leb 4 (flag % 8)))
unfolding phase_detect magnitude_detect
detections-of_flag s beam flag small e =
    (rw e (ap ok (ground (arith, bit_and_8 flag))), rw e (ap ok (ground (arith, bit_and_4 flag))))
