-- ===== src/Text.antt =====
-- Texts as the driver handles them: a `std::string` is the list of its characters.
use Prim.Native.Char.{code}
use Prim.Native.String.{String}
use ros2sonic.Prelude.{
  ℕ, ◌+◌, ◌-◌, ◌≡◌, ◌↔◌, refl, Bool, true, false, ◌&&◌, ◌||◌, [], ◌∷◌, ◌++◌, length, take,
  replicate, ltb, ◌==◌, if◌then◌else◌, arith,
}
use ros2sonic.Memory.{Bytes}

-- A literal.
abbrev pub text : String → Bytes
text String.[] = []
text (String.◌∷◌ c s) = code c ∷ text s

abbrev pub text_eq : Bytes → Bytes → Bool
text_eq [] [] = true
text_eq [] (b ∷ t) = false
text_eq (a ∷ s) [] = false
text_eq (a ∷ s) (b ∷ t) = (a == b) && text_eq s t

-- operator<, character by character
abbrev pub text_lt : Bytes → Bytes → Bool
text_lt [] [] = false
text_lt [] (b ∷ t) = true
text_lt (a ∷ s) [] = false
text_lt (a ∷ s) (b ∷ t) = let rest = text_lt s t in if a == b then rest else ltb a b

-- s.find(prefix) == 0
abbrev pub starts_with : Bytes → Bytes → Bool
starts_with [] s = true
starts_with (a ∷ prefix) [] = false
starts_with (a ∷ prefix) (b ∷ s) = (a == b) && starts_with prefix s

-- s.find(part) != npos
abbrev pub contains : Bytes → Bytes → Bool
contains part [] = starts_with part []
contains part (a ∷ s) = starts_with part (a ∷ s) || contains part s

-- s.c_str() as the C library reads it: up to the first null.
abbrev pub c_str : Bytes → Bytes
c_str [] = []
c_str (a ∷ s) = let rest = c_str s in if a == 0 then [] else a ∷ rest

-- strncpy(_, s, n): cut to `n` characters, or filled up with nulls.
abbrev pub strncpy : ℕ → Bytes → Bytes
strncpy n s = take n s ++ replicate (n - length s) 0

-- std::to_string of a number below 10.
abbrev pub digit : ℕ → Bytes
digit n = (b'0' + n) ∷ []

abbrev pub is_empty : Bytes → Bool
is_empty [] = true
is_empty (a ∷ s) = false

pub text_eq_iff : (s t : Bytes) → (text_eq s t ≡ true) ↔ (s ≡ t)
text_eq_iff [] [] = ground arith
text_eq_iff [] (b ∷ t) = ground arith
text_eq_iff (a ∷ s) [] = ground arith
text_eq_iff (a ∷ s) (b ∷ t) = ground (arith, text_eq_iff s t)

pub text_eq_self : (s : Bytes) → text_eq s s ≡ true
text_eq_self s = (text_eq_iff s s).1 refl
