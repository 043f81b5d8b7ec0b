-- ===== src/Section.antt =====
-- r2sonic/include/r2sonic/sections/section.hpp: what all sections of a packet have in common.
pub mod H0
pub mod R0
pub mod A0
pub mod A1
pub mod A2
pub mod G0
pub mod G1
pub mod I1
pub mod M0
pub mod Q0
pub mod Identity
use ros2sonic.Prelude.{
  ℕ, zero, suc, ◌%◌, Bool, true, false, List, [], ◌∷◌, drop, ◌==◌, if◌then◌else◌,
}
use ros2sonic.Outcome.{Outcome, ok, throw, fault, out_of_range, ◌>>=◌, ◌>>◌}
use ros2sonic.Memory.{Bytes, get_at}
use ros2sonic.Struct.{Layout, sizeof, offset, field}

-- The section classes.
pub data Kind : Type 0 where
  h0 r0 a0 a1 a2 i1 g0 g1 m0 q0 : Kind

-- The two characters of a section's name.
pub record Name : Type 0 where
  pub first : ℕ
  pub second : ℕ

abbrev pub name_of : Kind → Name
name_of h0 = record { first = b'H'; second = b'0' }
name_of r0 = record { first = b'R'; second = b'0' }
name_of a0 = record { first = b'A'; second = b'0' }
name_of a1 = record { first = b'A'; second = b'1' }
name_of a2 = record { first = b'A'; second = b'2' }
name_of i1 = record { first = b'I'; second = b'1' }
name_of g0 = record { first = b'G'; second = b'0' }
name_of g1 = record { first = b'G'; second = b'1' }
name_of m0 = record { first = b'M'; second = b'0' }
name_of q0 = record { first = b'Q'; second = b'0' }

-- nominalType(), a string constant with its final null.
abbrev pub nominal_type : Kind → Bytes
nominal_type k = (name_of k).first ∷ (name_of k).second ∷ 0 ∷ []

pub record Section : Type 0 where
  pub kind : Kind
  pub start_bit : Bytes

-- struct SectionInfo { char name[2]; u16 size; }
abbrev pub section_info : Layout
section_info = 2 ∷ 2 ∷ []

-- strncmp(p, q, n) == 0
unfoldable pub strncmp_eq : ℕ → Bytes → Bytes → Outcome Bool
strncmp_eq zero p q = ok true
strncmp_eq (suc n) [] q = fault
strncmp_eq (suc n) (a ∷ p) [] = fault
strncmp_eq (suc n) (a ∷ p) (b ∷ q) =
    if a == b then (if a == 0 then ok true else strncmp_eq n p q) else ok false

unfoldable pub is_type : Section → Outcome Bool
is_type s = strncmp_eq 2 s.start_bit (nominal_type s.kind)

unfoldable pub exists : Section → Outcome Bool
exists s = is_type s

-- A section of another type than the one asked for has size 0.
unfoldable pub get_size : Section → Outcome ℕ
get_size s = do found ← exists s; if found then field section_info 1 s.start_bit else ok 0

unfoldable pub end : Section → Outcome Bytes
end s = do size ← get_size s; ok (drop size s.start_bit)

unfoldable pub existance_error_check : Section → Outcome (Unit {0})
existance_error_check s = do found ← exists s; if found then ok tt else throw out_of_range

-- start_bit_ + sizeof(SectionInfo)
abbrev pub after_info : Section → Bytes
after_info s = drop (sizeof section_info) s.start_bit

-- The conversion to a parameter of type u16.
abbrev pub u16 : ℕ → ℕ
u16 n = n % 65536
