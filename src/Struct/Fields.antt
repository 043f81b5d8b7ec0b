-- ===== src/Struct/Fields.antt =====
-- What a field of a packed struct reads.
use ros2sonic.Prelude.{
  ℕ, zero, suc, ◌+◌, ◌≤◌, ◌<◌, ◌≡◌, refl, sym, ap, ◌∙◌, [], ◌∷◌, ◌++◌, append_assoc, length, take,
  drop, length-drop, All-drop, arith,
}
use ros2sonic.Outcome.{ok}
use ros2sonic.Memory.{Bytes, IsBytes, get_at}
use ros2sonic.Memory.Endian.{be_value}
use ros2sonic.Memory.Reads.{get_at-append, take-IsBytes, length-take_le}
use ros2sonic.Struct.{Layout, offset, width, field}

-- The number that the bytes of a field stand for.
abbrev pub value_in : Layout → ℕ → Bytes → ℕ
value_in ws k b = be_value (take (width ws k) (drop (offset ws k) b))

drop-append_le : (n : ℕ) (b rest : Bytes) → n ≤ length b → drop n (b ++ rest) ≡ drop n b ++ rest
drop-append_le zero b rest h = refl
drop-append_le (suc n) [] rest h = absurd (omega arith)
drop-append_le (suc n) (x ∷ b) rest h = drop-append_le n b rest (omega arith)

take-append-drop : (n : ℕ) (b : Bytes) → take n b ++ drop n b ≡ b
take-append-drop zero b = refl
take-append-drop (suc n) [] = refl
take-append-drop (suc n) (x ∷ b) = ap (λ t. x ∷ t) (take-append-drop n b)

-- A read of `w` bytes that lie in `b`, whatever follows.
pub get_at-within :
    (w n : ℕ) (b rest : Bytes)
    → IsBytes b
    → n + w ≤ length b
    → get_at w (drop n (b ++ rest)) ≡ ok (be_value (take w (drop n b)))
get_at-within w n b rest bytes fits =
    let tail = drop n b in
    let long : w ≤ length tail = omega (arith, length-drop {0} n b) in
    ap (get_at w) (
      drop-append_le n b rest (omega arith)
      ∙ ap (λ t. t ++ rest) (sym (take-append-drop w tail))
      ∙ append_assoc (take w tail) (drop w tail) rest)
    ∙ ap (λ k. get_at k (take w tail ++ (drop w tail ++ rest))) (sym (length-take_le w tail long))
    ∙ get_at-append (take w tail) (drop w tail ++ rest)
        (take-IsBytes w tail (All-drop (λ x. x < 256) n b bytes))

pub field-within :
    (ws : Layout) (k : ℕ) (b rest : Bytes)
    → IsBytes b
    → offset ws k + width ws k ≤ length b
    → field ws k (b ++ rest) ≡ ok (value_in ws k b)
unfolding field
field-within ws k b rest bytes fits = get_at-within (width ws k) (offset ws k) b rest bytes fits
