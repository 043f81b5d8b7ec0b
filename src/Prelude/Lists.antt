-- ===== src/Prelude/Lists.antt =====
-- Lists measured and indexed by native numbers, under the library's names.
use Prim.Native.Nat.{◌≤◌, ℕ, zero, suc, ◌+◌, ◌-◌, min}
use mathlib.Core.Path.{◌≡◌, refl, ap, sym, ◌∙◌}
use mathlib.Core.List.{List, [], ◌∷◌, ◌++◌, append_assoc}
use mathlib.Core.Option.{Option, none, some}
use mathlib.Core.Bool.{Bool}
use mathlib.Core.Logic.{inl, inr}
use ros2sonic.Prelude.Tests.{if◌then◌else◌, Bool-cases}
use native.Mathlib.Omega.{arith}

module _ {ℓ} {A : Type ℓ} where
  abbrev pub length : List A → ℕ
  length [] = 0
  length (x ∷ xs) = suc (length xs)

  abbrev pub get_elem? : List A → ℕ → Option A
  get_elem? [] i = none
  get_elem? (x ∷ xs) zero = some x
  get_elem? (x ∷ xs) (suc i) = get_elem? xs i

  abbrev pub get_or : List A → ℕ → A → A
  get_or [] i d = d
  get_or (x ∷ xs) zero d = x
  get_or (x ∷ xs) (suc i) d = get_or xs i d

  -- A write out of bounds changes nothing.
  abbrev pub set : List A → ℕ → A → List A
  set [] i v = []
  set (x ∷ xs) zero v = v ∷ xs
  set (x ∷ xs) (suc i) v = x ∷ set xs i v

  abbrev pub take : ℕ → List A → List A
  take zero xs = []
  take (suc n) [] = []
  take (suc n) (x ∷ xs) = x ∷ take n xs

  abbrev pub drop : ℕ → List A → List A
  drop zero xs = xs
  drop (suc n) [] = []
  drop (suc n) (x ∷ xs) = drop n xs

  abbrev pub replicate : ℕ → A → List A
  replicate zero a = []
  replicate (suc n) a = a ∷ replicate n a

  -- A predicate of every element.
  abbrev pub All {κ} : (A → Type κ) → List A → Type κ
  All P [] = Unit
  All P (x ∷ xs) = P x × All P xs

module _ {ℓ} {A : Type ℓ} where
  pub length-append : (xs ys : List A) → length (xs ++ ys) ≡ length xs + length ys
  length-append [] ys = omega arith
  length-append (x ∷ xs) ys = omega (arith, length-append xs ys)

  pub length-set : (xs : List A) (i : ℕ) (v : A) → length (set xs i v) ≡ length xs
  length-set [] i v = refl
  length-set (x ∷ xs) zero v = refl
  length-set (x ∷ xs) (suc i) v = ap suc (length-set xs i v)

  pub length-take : (n : ℕ) (xs : List A) → length (take n xs) ≡ min n (length xs)
  length-take zero xs = omega arith
  length-take (suc n) [] = omega arith
  length-take (suc n) (x ∷ xs) = omega (arith, length-take n xs)

  pub take_whole : (n : ℕ) (xs : List A) → length xs ≤ n → take n xs ≡ xs
  take_whole zero [] h = refl
  take_whole zero (x ∷ xs) h = absurd (omega arith)
  take_whole (suc n) [] h = refl
  take_whole (suc n) (x ∷ xs) h = ap (λ t. x ∷ t) (take_whole n xs (omega arith))

  pub length-drop : (n : ℕ) (xs : List A) → length (drop n xs) ≡ length xs - n
  length-drop zero xs = omega arith
  length-drop (suc n) [] = omega arith
  length-drop (suc n) (x ∷ xs) = omega (arith, length-drop n xs)

  pub length-replicate : (n : ℕ) (a : A) → length (replicate n a) ≡ n
  length-replicate zero a = refl
  length-replicate (suc n) a = ap suc (length-replicate n a)

  pub get_or-drop :
      (n : ℕ) (xs : List A) (i : ℕ) (d : A) → get_or (drop n xs) i d ≡ get_or xs (n + i) d
  get_or-drop zero xs i d = ap (λ k. get_or xs k d) (omega arith)
  get_or-drop (suc n) [] i d = refl
  get_or-drop (suc n) (x ∷ xs) i d =
      get_or-drop n xs i d ∙ ap (λ k. get_or (x ∷ xs) k d) {x = suc (n + i)} (omega arith)

  pub drop-append : (xs ys : List A) → drop (length xs) (xs ++ ys) ≡ ys
  drop-append [] ys = refl
  drop-append (x ∷ xs) ys = drop-append xs ys

  pub drop-drop : (m n : ℕ) (xs : List A) → drop n (drop m xs) ≡ drop (m + n) xs
  drop-drop zero n xs = ap (λ k. drop k xs) (omega arith)
  drop-drop (suc m) zero [] = ap (λ k. drop k []) {x = suc m} (omega arith)
  drop-drop (suc m) (suc n) [] = ap (λ k. drop k []) {x = suc (m + suc n)} (omega arith)
  drop-drop (suc m) n (x ∷ xs) =
      drop-drop m n xs ∙ ap (λ k. drop k (x ∷ xs)) {x = suc (m + n)} (omega arith)

  pub All-drop {κ} : (P : A → Type κ) (n : ℕ) (xs : List A) → All P xs → All P (drop n xs)
  All-drop P zero xs h = h
  All-drop P (suc n) [] h = h
  All-drop P (suc n) (x ∷ xs) h = All-drop P n xs h.1

  pub All-take {κ} : (P : A → Type κ) (n : ℕ) (xs : List A) → All P xs → All P (take n xs)
  All-take P zero xs h = tt
  All-take P (suc n) [] h = tt
  All-take P (suc n) (x ∷ xs) h = (h.0, All-take P n xs h.1)

  pub All-append {κ} : (P : A → Type κ) (xs ys : List A) → All P xs → All P ys → All P (xs ++ ys)
  All-append P [] ys h k = k
  All-append P (x ∷ xs) ys h k = (h.0, All-append P xs ys h.1 k)

  -- A field that lies within the first bytes.
  pub take-drop-take :
      (w d n : ℕ) (xs : List A) → d + w ≤ n → take w (drop d (take n xs)) ≡ take w (drop d xs)
  take-drop-take zero d n xs h = refl
  take-drop-take (suc w) d zero xs h = absurd (omega arith)
  take-drop-take (suc w) zero (suc n) [] h = refl
  take-drop-take (suc w) zero (suc n) (x ∷ xs) h =
      ap (λ t. x ∷ t) (take-drop-take w zero n xs (omega arith))
  take-drop-take (suc w) (suc d) (suc n) [] h = refl
  take-drop-take (suc w) (suc d) (suc n) (x ∷ xs) h = take-drop-take (suc w) d n xs (omega arith)

module _ {ℓ} {A : Type ℓ} where
  -- The values of `f` at `n` numbers from `i` on.
  abbrev pub tabulate : ℕ → ℕ → (ℕ → A) → List A
  tabulate zero i f = []
  tabulate (suc n) i f = f i ∷ tabulate n (i + 1) f

  -- `n` writes, from index `i` on.
  abbrev pub fill : ℕ → ℕ → (ℕ → A) → List A → List A
  fill zero i f xs = xs
  fill (suc n) i f xs = fill n (i + 1) f (set xs i (f i))

  set-append :
      (before xs : List A) (x v : A) → set (before ++ x ∷ xs) (length before) v ≡ before ++ v ∷ xs
  set-append [] xs x v = refl
  set-append (y ∷ before) xs x v = ap (λ t. y ∷ t) (set-append before xs x v)

  fill-append :
      (n : ℕ) (f : ℕ → A) (before xs : List A)
      → length xs ≡ n
      → fill n (length before) f (before ++ xs) ≡ before ++ tabulate n (length before) f
  fill-append zero f before [] e = refl
  fill-append zero f before (x ∷ xs) e = absurd (omega arith)
  fill-append (suc n) f before [] e = absurd (omega arith)
  fill-append (suc n) f before (x ∷ xs) e =
      let i = length before in
      let next : length (before ++ f i ∷ []) ≡ i + 1 = length-append before (f i ∷ []) in
      ap (fill n (i + 1) f) (set-append before xs x (f i) ∙ sym (append_assoc before (f i ∷ []) xs))
      ∙ ap (λ k. fill n k f ((before ++ f i ∷ []) ++ xs)) (sym next)
      ∙ fill-append n f (before ++ f i ∷ []) xs (omega arith)
      ∙ ap (λ k. (before ++ f i ∷ []) ++ tabulate n k f) next
      ∙ append_assoc before (f i ∷ []) (tabulate n (i + 1) f)

  -- Writing every index of a list leaves the values written.
  pub fill-eq-tabulate :
      (n : ℕ) (f : ℕ → A) (xs : List A) → length xs ≡ n → fill n 0 f xs ≡ tabulate n 0 f
  fill-eq-tabulate n f xs e = fill-append n f [] xs e

abbrev pub select {ℓ} : {A : Type ℓ} → (A → Bool) → List A → List A
select keep [] = []
select keep (x ∷ xs) = if keep x then x ∷ select keep xs else select keep xs

pub select-append {ℓ} :
    {A : Type ℓ} (keep : A → Bool) (xs ys : List A)
    → select keep (xs ++ ys) ≡ select keep xs ++ select keep ys
select-append keep [] ys = refl
select-append keep (x ∷ xs) ys = elim (Bool-cases (keep x)) [
  | inl kept ↦ rw kept (ap (λ t. x ∷ t) (select-append keep xs ys))
  | inr left_out ↦ rw left_out (select-append keep xs ys)
]
