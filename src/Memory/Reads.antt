-- ===== src/Memory/Reads.antt =====
-- Reads and writes of big-endian values, in terms of the bytes.
use mathlib.Core.List.{reverse}
use native.Mathlib.Nat.{mod-lt, one-le-pow}
use ros2sonic.Prelude.{
  ℕ, zero, suc, ◌%◌, ◌^◌, ◌≤◌, ◌≡◌, refl, sym, ap, ◌∙◌, [], ◌∷◌, ◌++◌, length, take, length-take,
  arith,
}
use ros2sonic.Outcome.{ok}
use ros2sonic.Memory.{
  Bytes, IsBytes, le_value, rev_primitive, BigEndianPrimative, get, assign, read_bytes, get_at,
  bytes_of,
}
use ros2sonic.Memory.Endian.{
  be_value, be_bytes, rev_primitive-eq, le_bytes-le_value, le_value-reverse, le_bytes-rev_primitive,
  rev_primitive-rev_primitive,
}

read_bytes-append : (bs rest : Bytes) → read_bytes (length bs) (bs ++ rest) ≡ ok bs
unfolding read_bytes
read_bytes-append [] rest = refl
read_bytes-append (b ∷ bs) rest = rw (read_bytes-append bs rest)

pub read_bytes-take : (w : ℕ) (p : Bytes) → w ≤ length p → read_bytes w p ≡ ok (take w p)
unfolding read_bytes
read_bytes-take zero p h = refl
read_bytes-take (suc w) [] h = absurd (omega arith)
read_bytes-take (suc w) (b ∷ p) h = rw (read_bytes-take w p (omega arith))

rev_primitive-le_value :
    (bs : Bytes) → IsBytes bs → rev_primitive (length bs) (le_value bs) ≡ be_value bs
rev_primitive-le_value bs h =
    rev_primitive-eq (length bs) (le_value bs)
    ∙ ap (λ t. le_value (reverse t)) (le_bytes-le_value bs h)
    ∙ le_value-reverse bs

pub get_at-append :
    (bs rest : Bytes) → IsBytes bs → get_at (length bs) (bs ++ rest) ≡ ok (be_value bs)
unfolding get_at
get_at-append bs rest h = rw (read_bytes-append bs rest, rev_primitive-le_value bs h)

pub take-IsBytes : (w : ℕ) (p : Bytes) → IsBytes p → IsBytes (take w p)
take-IsBytes zero p h = tt
take-IsBytes (suc w) [] h = tt
take-IsBytes (suc w) (b ∷ p) h = (h.0, take-IsBytes w p h.1)

pub length-take_le : (w : ℕ) (p : Bytes) → w ≤ length p → length (take w p) ≡ w
length-take_le w p h = omega (arith, length-take {0} w p)

-- A read of `w` bytes from a place with at least as many bytes to the buffer's end gives the number
-- that they stand for in network order.
pub get_at-eq :
    (w : ℕ) (p : Bytes) → IsBytes p → w ≤ length p → get_at w p ≡ ok (be_value (take w p))
unfolding get_at
get_at-eq w p h fits = rw (read_bytes-take w p fits) (ap ok value)
  where
    value : rev_primitive w (le_value (take w p)) ≡ be_value (take w p)
    value =
        ap (λ k. rev_primitive k (le_value (take w p))) (sym (length-take_le w p fits))
        ∙ rev_primitive-le_value (take w p) (take-IsBytes w p h)

-- What an assignment leaves in memory: the value, cut to the width, in network order.
pub bytes_of-assign :
    (v : BigEndianPrimative) (val : ℕ)
    → bytes_of (assign v val) ≡ be_bytes v.width (val % 256 ^ v.width)
unfolding bytes_of assign
bytes_of-assign v val = le_bytes-rev_primitive v.width (val % 256 ^ v.width)

-- Reading back an assigned value gives it, cut to the width.
pub get-assign : (v : BigEndianPrimative) (val : ℕ) → get (assign v val) ≡ val % 256 ^ v.width
unfolding get assign
get-assign v val =
    rev_primitive-rev_primitive v.width (val % 256 ^ v.width)
      (mod-lt val (one-le-pow v.width 256 (omega arith)))
