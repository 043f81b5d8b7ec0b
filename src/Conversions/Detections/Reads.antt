-- ===== src/Conversions/Detections/Reads.antt =====
-- Each read that a round of the loop makes gives what the specification says.
use ros2sonic.Prelude.{
  ℕ, zero, suc, ◌+◌, ◌-◌, ◌*◌, ◌/◌, ◌%◌, ◌^◌, ◌≤◌, ◌<◌, ◌≡◌, refl, ap, ◌∙◌, true, false, Option,
  none, some, [], ◌∷◌, ◌++◌, length, take, drop, get_or, All-drop, length-append, ltb, leb,
  Bool-cases, inl, inr, if◌then◌else◌, arith,
}
use ros2sonic.Outcome.{ok, ◌>>=◌}
use ros2sonic.Memory.{Bytes, IsBytes, get_at}
use ros2sonic.Memory.Endian.{be_value}
use ros2sonic.Floats.{Floats}
use ros2sonic.Struct.{field}
use ros2sonic.Struct.Fields.{get_at-within}
use ros2sonic.Section.{Kind, r0, a0, a2, i1, q0, exists, existance_error_check, u16}
use ros2sonic.Section.Identity.{at, encode, exists-encode_self, existance_error_check-exists}
use ros2sonic.Section.R0
use ros2sonic.Section.A0
use ros2sonic.Section.A2
use ros2sonic.Section.I1
use ros2sonic.Section.Q0
use ros2sonic.Section.Q0.Nibbles.{half_of, get_quality_flag-eq-half, detections-of_flag}
use ros2sonic.Packet.{Packet}
use ros2sonic.Packet.Bth0
use ros2sonic.Packet.Sequence.{slot, is_present}
use ros2sonic.Conversions.Detections.{
  detect_ok, detect_bad_sonar, Angles, read_a2, read_a0, read_intensity, read_rx_angle, read_flag,
}
use ros2sonic.Conversions.Detections.Spec.{
  HasBytes, HasBytesIf, u16_at, u32_at, step_sum, step_sum_of, flag_of, scaled_at, intensity_of,
  rx_angle_of,
}

two_bytes-lt : (x : Bytes) → IsBytes x → be_value (take 2 x) < 65536
two_bytes-lt [] h = omega arith
two_bytes-lt (a ∷ []) h = omega (arith, h.0)
two_bytes-lt (a ∷ b ∷ x) h = omega (arith, h.0, h.1.0)

pub u16_at-lt : (b : Bytes) (n : ℕ) → IsBytes b → u16_at b n < 65536
u16_at-lt b n h = two_bytes-lt (drop n b) (All-drop (λ x. x < 256) n b h)

-- At most 65535 steps of at most 65535 stay below 2 ^ 32, so the sum in a uint32_t does not wrap.
step_sum-lt : (b : Bytes) (j : ℕ) → IsBytes b → j < 65536 → step_sum b j < 2 ^ 32
step_sum-lt b j h small = omega (arith, bounded j)
  where
    bounded : (k : ℕ) → step_sum b k ≤ 65535 * k
    bounded zero = omega arith
    bounded (suc k) = omega (arith, bounded k, u16_at-lt b (32 + 2 * k) h)

pub present : (k : Kind) (b tail : Bytes) → existance_error_check (at k (encode k b tail)) ≡ ok tt
present k b tail = existance_error_check-exists _ (exists-encode_self k b tail)

-- The 16-bit value of beam `j` in a table that starts at `start`.
u16_at-read :
    (b tail : Bytes) (start n j : ℕ)
    → HasBytes (start + 2 * n) b
    → j < n
    → j < 65536
    → get_at 2 (drop (start + 2 * u16 j) (b ++ tail)) ≡ ok (u16_at b (start + 2 * j))
u16_at-read b tail start n j (bytes, long) below small =
    let same : u16 j ≡ j = omega arith in
    ap (λ i. get_at 2 (drop (start + 2 * i) (b ++ tail))) same
    ∙ get_at-within 2 (start + 2 * j) b tail bytes (omega arith)

pub u32_at-read :
    (b tail : Bytes) (start n : ℕ)
    → HasBytes n b
    → start + 4 ≤ n
    → get_at 4 (drop start (b ++ tail)) ≡ ok (u32_at b start)
u32_at-read b tail start n (bytes, long) below = get_at-within 4 start b tail bytes (omega arith)

-- R0.getScaledRange
module _ (fl : Floats) (n j : ℕ) (below : j < n) (small : n < 65536) where
  pub get_scaled_range-eq :
      (b tail : Bytes)
      → HasBytes (4 + 2 * n) b
      → R0.get_scaled_range fl (at r0 (encode r0 b tail)) j ≡ ok (scaled_at fl b j)
  unfolding R0.get_scaled_range R0.get_range
  get_scaled_range-eq b tail full = rw (
    u16_at-read b tail 4 n j full below (omega arith),
    u32_at-read b tail 0 (4 + 2 * n) full (omega arith),
  )

  pub read_intensity-eq :
      (pkt : Packet) (o : Option Bytes) (tail : Bytes)
      → Bth0.i1 pkt ≡ ok (at i1 (slot i1 o tail))
      → exists (at i1 (slot i1 o tail)) ≡ ok (is_present o)
      → HasBytesIf (4 + 2 * n) o
      → read_intensity fl pkt j ≡ ok (intensity_of fl o j)
  unfolding read_intensity I1.get_scaled_intensity I1.intensity I1.scaling_factor
  read_intensity-eq pkt none tail found exact full = rw (found, exact)
  read_intensity-eq pkt (some b) tail found exact full = rw (
    found,
    exact,
    present i1 b tail,
    u16_at-read b tail 4 n j full below (omega arith),
    u32_at-read b tail 0 (4 + 2 * n) full (omega arith),
  )

-- What the angle sections give the loop.
module _ (fl : Floats) where
  open fl use {F32, of_bits, of_ℕ, sub, div}

  abbrev pub with_a2 : Option Bytes → Angles fl → Angles fl
  with_a2 none angles = record angles { has_a2 = false }
  with_a2 (some b) angles = record angles {
    has_a2 = true;
    a2_angle_first = of_bits (u32_at b 0);
    a2_scale_factor = of_bits (u32_at b 4);
  }

  abbrev pub with_a0 : Option Bytes → ℕ → Angles fl → Angles fl
  with_a0 none n angles = record angles { has_a0 = false }
  with_a0 (some b) n angles =
      if ltb 1 n
      then record angles {
        has_a0 = true;
        a0_angle_first = of_bits (u32_at b 0);
        a0_delta = div (sub (of_bits (u32_at b 4)) (of_bits (u32_at b 0))) (of_ℕ (n - 1));
      }
      else record angles { has_a0 = true }

  pub read_a2-eq :
      (pkt : Packet) (n : ℕ) (angles : Angles fl) (o : Option Bytes) (tail : Bytes)
      → Bth0.a2 pkt ≡ ok (at a2 (slot a2 o tail))
      → exists (at a2 (slot a2 o tail)) ≡ ok (is_present o)
      → HasBytesIf (32 + 2 * n) o
      → read_a2 fl pkt angles ≡ ok (with_a2 o angles)
  unfolding read_a2 A2.body field
  read_a2-eq pkt n angles none tail found exact full = rw (found, exact)
  read_a2-eq pkt n angles (some b) tail found exact full = rw (
    found,
    exact,
    present a2 b tail,
    u32_at-read b tail 0 (32 + 2 * n) full (omega arith),
    u32_at-read b tail 4 (32 + 2 * n) full (omega arith),
  )

  pub read_a0-eq :
      (pkt : Packet) (n : ℕ) (angles : Angles fl) (o : Option Bytes) (tail : Bytes)
      → Bth0.a0 pkt ≡ ok (at a0 (slot a0 o tail))
      → exists (at a0 (slot a0 o tail)) ≡ ok (is_present o)
      → HasBytesIf 32 o
      → read_a0 fl pkt n angles ≡ ok (with_a0 o n angles)
  unfolding read_a0 A0.body field
  read_a0-eq pkt n angles none tail found exact full = rw (found, exact)
  read_a0-eq pkt n angles (some b) tail found exact full = elim (Bool-cases (ltb 1 n)) [
    | inl many ↦ rw (
      found,
      exact,
      many,
      present a0 b tail,
      u32_at-read b tail 4 32 full (omega arith),
      u32_at-read b tail 0 32 full (omega arith),
    )
    | inr few ↦ rw (found, exact, few)
  ]

  rx_angle-a2 :
      (pkt : Packet) (n j : ℕ) (angles : Angles fl) (b tail : Bytes)
      → j < n
      → n < 65536
      → angles.has_a2 ≡ true
      → angles.a2_angle_first ≡ of_bits (u32_at b 0)
      → angles.a2_scale_factor ≡ of_bits (u32_at b 4)
      → Bth0.a2 pkt ≡ ok (at a2 (encode a2 b tail))
      → HasBytes (32 + 2 * n) b
      → read_rx_angle fl pkt angles j (step_sum b j)
        ≡ ok (rx_angle_of fl (some b) none n j, step_sum b (suc j))
  unfolding read_rx_angle A2.angle_step
  rx_angle-a2 pkt n j angles b tail below small has first scale found full =
      let whole : (step_sum b j + u16_at b (32 + 2 * j)) % 2 ^ 32 ≡ step_sum b (suc j) =
        omega (arith, step_sum-lt b (suc j) full.0 (omega arith)) in
      rw (
        has,
        found,
        present a2 b tail,
        u16_at-read b tail 32 n j full below (omega arith),
        whole,
        first,
        scale,
      )

  -- The angle of a beam, and the sum of the steps after it.
  pub read_rx_angle-eq :
      (pkt : Packet) (n j : ℕ) (base : Angles fl) (o o' : Option Bytes) (tail : Bytes)
      → j < n
      → n < 65536
      → base.a0_angle_first ≡ of_bits 0
      → base.a0_delta ≡ of_bits 0
      → Bth0.a2 pkt ≡ ok (at a2 (slot a2 o tail))
      → HasBytesIf (32 + 2 * n) o
      → read_rx_angle fl pkt (with_a0 o' n (with_a2 o base)) j (step_sum_of o j)
        ≡ ok (rx_angle_of fl o o' n j, step_sum_of o (suc j))
  unfolding read_rx_angle
  read_rx_angle-eq pkt n j base none none tail below small first delta found full = refl
  read_rx_angle-eq pkt n j base none (some b) tail below small first delta found full =
      elim (Bool-cases (ltb 1 n)) [ inl many ↦ rw many | inr few ↦ rw (few, first, delta) ]
  read_rx_angle-eq pkt n j base (some b) o' tail below small first delta found full =
      let angles = with_a0 o' n (with_a2 (some b) base) in
      rx_angle-a2 pkt n j angles b tail below small (ground arith) (ground arith) (ground arith)
        found full

get_or-append : (b tail : Bytes) (i : ℕ) → i < length b → get_or (b ++ tail) i 0 ≡ get_or b i 0
get_or-append [] tail i h = absurd (omega arith)
get_or-append (x ∷ b) tail zero h = refl
get_or-append (x ∷ b) tail (suc i) h = get_or-append b tail i (omega arith)

get_or-lt : (b : Bytes) (i : ℕ) → IsBytes b → get_or b i 0 < 256
get_or-lt [] i h = omega arith
get_or-lt (x ∷ b) zero h = h.0
get_or-lt (x ∷ b) (suc i) h = get_or-lt b i h.1

IsBytes-append : (b tail : Bytes) → IsBytes b → IsBytes tail → IsBytes (b ++ tail)
IsBytes-append [] tail h k = k
IsBytes-append (x ∷ b) tail h k = (h.0, IsBytes-append b tail h.1 k)

pub read_flag-eq :
    (pkt : Packet) (n j : ℕ) (o : Option Bytes) (tail : Bytes)
    → j < n
    → n < 65536
    → IsBytes tail
    → Bth0.q0 pkt ≡ ok (at q0 (slot q0 o tail))
    → HasBytesIf ((n + 7) / 8 * 4) o
    → read_flag pkt (is_present o) j ≡ ok (flag_of o j)
unfolding read_flag
read_flag-eq pkt n j none tail below small bytes found full = refl
read_flag-eq pkt n j (some b) tail below small bytes found (b_bytes, long) =
    let s = at q0 (encode q0 b tail) in
    let flag = half_of j (get_or b (j / 2) 0) in
    let fits : j / 8 * 4 + 4 ≤ length (b ++ tail) = omega (arith, length-append {0} b tail) in
    let read : Q0.get_quality_flag s j ≡ ok flag =
      get_quality_flag-eq-half s j (IsBytes-append b tail b_bytes bytes) (omega arith) fits
      ∙ ap (λ x. ok (half_of j x)) (get_or-append b tail (j / 2) (omega arith)) in
    let narrow : flag < 16 = ground (arith, get_or-lt b (j / 2) b_bytes) in
    let (phase, strength) = detections-of_flag s j flag narrow read in
    rw (found, phase, strength) (decide flag narrow)
  where
    decide :
        (flag : ℕ)
        → flag < 16
        → ((if leb 8 flag then ok true else ok (leb 4 (flag % 8))) >>= λ detected.
            ok (if detected then detect_ok else detect_bad_sonar))
          ≡ ok (if leb 4 flag then detect_ok else detect_bad_sonar)
    decide flag narrow = ground arith
