-- ===== src/Memory/Endian.antt =====
-- What the byte swap and the reads mean: numbers whose first byte is the highest.
use mathlib.Core.List.{reverse, reverse-cons, reverse-reverse}
use native.Mathlib.Nat.{pow-suc}
use ros2sonic.Prelude.{
  ℕ, zero, suc, ◌+◌, ◌*◌, ◌/◌, ◌^◌, ◌<◌, ◌≡◌, refl, sym, ap, ap₂, ◌∙◌, [], ◌∷◌, ◌++◌, length,
  get_or, length-append, arith,
}
use ros2sonic.Memory.{Bytes, IsBytes, le_value, le_bytes, copy_reversed, rev_primitive}

-- The value of bytes in network order.
abbrev pub be_value : Bytes → ℕ
be_value [] = 0
be_value (b ∷ bs) = b * 256 ^ length bs + be_value bs

-- A number in network order.
abbrev pub be_bytes : ℕ → ℕ → Bytes
be_bytes w u = reverse (le_bytes w u)

length-le_bytes : (w u : ℕ) → length (le_bytes w u) ≡ w
length-le_bytes zero u = refl
length-le_bytes (suc w) u = ap suc (length-le_bytes w (u / 256))

length-reverse : (bs : Bytes) → length (reverse bs) ≡ length bs
length-reverse [] = refl
length-reverse (b ∷ bs) =
    ap length (reverse-cons b bs)
    ∙ omega (arith, length-append {0} (reverse bs) (b ∷ []), length-reverse bs)

pub length-be_bytes : (w u : ℕ) → length (be_bytes w u) ≡ w
length-be_bytes w u = length-reverse (le_bytes w u) ∙ length-le_bytes w u

le_bytes-IsBytes : (w u : ℕ) → IsBytes (le_bytes w u)
le_bytes-IsBytes zero u = tt
le_bytes-IsBytes (suc w) u = (omega arith, le_bytes-IsBytes w (u / 256))

IsBytes-append : (xs ys : Bytes) → IsBytes xs → IsBytes ys → IsBytes (xs ++ ys)
IsBytes-append [] ys h k = k
IsBytes-append (x ∷ xs) ys h k = (h.0, IsBytes-append xs ys h.1 k)

reverse-IsBytes : (bs : Bytes) → IsBytes bs → IsBytes (reverse bs)
reverse-IsBytes [] h = h
reverse-IsBytes (b ∷ bs) h =
    rw reverse-cons (IsBytes-append (reverse bs) (b ∷ []) (reverse-IsBytes bs h.1) (h.0, tt))

pub be_bytes-IsBytes : (w u : ℕ) → IsBytes (be_bytes w u)
be_bytes-IsBytes w u = reverse-IsBytes (le_bytes w u) (le_bytes-IsBytes w u)

le_value-le_bytes : (w u : ℕ) → u < 256 ^ w → le_value (le_bytes w u) ≡ u
le_value-le_bytes zero u h = omega arith
le_value-le_bytes (suc w) u h =
    omega (arith, pow-suc 256 w, le_value-le_bytes w (u / 256) (omega (arith, pow-suc 256 w)))

pub le_bytes-le_value : (bs : Bytes) → IsBytes bs → le_bytes (length bs) (le_value bs) ≡ bs
le_bytes-le_value [] h = refl
le_bytes-le_value (b ∷ bs) h =
    let high : (b + 256 * le_value bs) / 256 ≡ le_value bs = omega (arith, h.0) in
    ap₂ ◌∷◌ (omega (arith, h.0)) (ap (le_bytes (length bs)) high ∙ le_bytes-le_value bs h.1)

le_value-lt : (bs : Bytes) → IsBytes bs → le_value bs < 256 ^ length bs
le_value-lt [] h = omega arith
le_value-lt (b ∷ bs) h = omega (arith, h.0, pow-suc 256 (length bs), le_value-lt bs h.1)

-- Where the loop's source grows at the front, its result grows at the back.
copy_reversed-cons :
    (k b : ℕ) (s : Bytes) → copy_reversed (suc k) (b ∷ s) ≡ copy_reversed k s ++ b ∷ []
copy_reversed-cons zero b s = refl
copy_reversed-cons (suc k) b s = ap (λ t. get_or s k 0 ∷ t) (copy_reversed-cons k b s)

copy_reversed-eq-reverse : (s : Bytes) → copy_reversed (length s) s ≡ reverse s
copy_reversed-eq-reverse [] = refl
copy_reversed-eq-reverse (b ∷ s) =
    copy_reversed-cons (length s) b s
    ∙ ap (λ t. t ++ b ∷ []) (copy_reversed-eq-reverse s)
    ∙ sym (reverse-cons b s)

pub rev_primitive-eq : (w u : ℕ) → rev_primitive w u ≡ le_value (be_bytes w u)
unfolding rev_primitive
rev_primitive-eq w u =
    ap (λ k. le_value (copy_reversed k (le_bytes w u))) (sym (length-le_bytes w u))
    ∙ ap le_value (copy_reversed-eq-reverse (le_bytes w u))

pub le_bytes-rev_primitive : (w u : ℕ) → le_bytes w (rev_primitive w u) ≡ be_bytes w u
le_bytes-rev_primitive w u =
    ap (le_bytes w) (rev_primitive-eq w u)
    ∙ ap (λ k. le_bytes k (le_value (be_bytes w u))) (sym (length-be_bytes w u))
    ∙ le_bytes-le_value (be_bytes w u) (be_bytes-IsBytes w u)

-- Swapping the bytes of a value that fits `w` bytes twice gives the value back, at every width.
pub rev_primitive-rev_primitive : (w u : ℕ) → u < 256 ^ w → rev_primitive w (rev_primitive w u) ≡ u
rev_primitive-rev_primitive w u h =
    rev_primitive-eq w (rev_primitive w u)
    ∙ ap (λ bs. le_value (reverse bs)) (le_bytes-rev_primitive w u)
    ∙ ap le_value (reverse-reverse (le_bytes w u))
    ∙ le_value-le_bytes w u h

le_value-append : (xs : Bytes) (b : ℕ) → le_value (xs ++ b ∷ []) ≡ le_value xs + b * 256 ^ length xs
le_value-append [] b = omega arith
le_value-append (x ∷ xs) b =
    omega (arith, le_value-append xs b, ap (λ (t : ℕ). b * t) (pow-suc 256 (length xs)))

pub le_value-reverse : (bs : Bytes) → le_value (reverse bs) ≡ be_value bs
le_value-reverse [] = refl
le_value-reverse (b ∷ bs) =
    ap le_value (reverse-cons b bs)
    ∙ le_value-append (reverse bs) b
    ∙ ap (λ k. le_value (reverse bs) + b * 256 ^ k) (length-reverse bs)
    ∙ omega (arith, le_value-reverse bs)

pub be_value-be_bytes : (w u : ℕ) → u < 256 ^ w → be_value (be_bytes w u) ≡ u
be_value-be_bytes w u h =
    sym (le_value-reverse (be_bytes w u))
    ∙ ap le_value (reverse-reverse (le_bytes w u))
    ∙ le_value-le_bytes w u h
