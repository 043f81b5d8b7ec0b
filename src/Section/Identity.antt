-- ===== src/Section/Identity.antt =====
-- When a section is there, what its size is, and where it ends.
use ros2sonic.Prelude.{
  ℕ, suc, ◌+◌, ◌<◌, ◌≡◌, refl, ap, ◌∙◌, Bool, true, false, ◌&&◌, ◌∷◌, ◌++◌, length, drop,
  drop-append, ◌==◌, arith,
}
use ros2sonic.Outcome.{ok, throw, out_of_range}
use ros2sonic.Memory.{Bytes}
use ros2sonic.Memory.Endian.{be_bytes, be_bytes-IsBytes, be_value-be_bytes}
use ros2sonic.Memory.Reads.{get_at-append}
use ros2sonic.Struct.{field}
use ros2sonic.Section.{
  Kind, h0, name_of, Section, strncmp_eq, is_type, exists, get_size, end, existance_error_check,
  section_info,
}

-- A section as the sonar writes it: its name, its whole size, its contents.
abbrev pub encode : Kind → Bytes → Bytes → Bytes
encode k contents rest =
    (name_of k).first
    ∷ (name_of k).second
    ∷ (be_bytes 2 (length contents + 4) ++ (contents ++ rest))

abbrev pub at : Kind → Bytes → Section
at k p = record { kind = k; start_bit = p }

abbrev pub same_name : Kind → Kind → Bool
same_name k j =
    ((name_of j).first == (name_of k).first) && ((name_of j).second == (name_of k).second)

name_nonzero : (k : Kind) → (((name_of k).first == 0) ≡ false) × (((name_of k).second == 0) ≡ false)
name_nonzero h0 = (refl, refl)
name_nonzero _ = (refl, refl)

-- A section exists when the two bytes at its start are its name.
exists-cons :
    (k : Kind) (a b : ℕ) (p : Bytes)
    → exists (at k (a ∷ b ∷ p)) ≡ ok ((a == (name_of k).first) && (b == (name_of k).second))
unfolding exists is_type strncmp_eq
exists-cons k a b p = ground (arith, name_nonzero k)

pub exists-encode :
    (k j : Kind) (contents rest : Bytes)
    → exists (at k (encode j contents rest)) ≡ ok (same_name k j)
exists-encode k j contents rest = exists-cons k _ _ _

same_name_self : (k : Kind) → same_name k k ≡ true
same_name_self h0 = refl
same_name_self _ = refl

pub exists-encode_self :
    (k : Kind) (contents rest : Bytes) → exists (at k (encode k contents rest)) ≡ ok true
exists-encode_self k contents rest = exists-encode k k contents rest ∙ ap ok (same_name_self k)

size-encode :
    (k : Kind) (contents rest : Bytes)
    → length contents + 4 < 65536
    → field section_info 1 (encode k contents rest) ≡ ok (length contents + 4)
unfolding field
size-encode k contents rest fits =
    get_at-append (be_bytes 2 (length contents + 4)) (contents ++ rest)
      (be_bytes-IsBytes 2 (length contents + 4))
    ∙ ap ok (be_value-be_bytes 2 (length contents + 4) (omega arith))

drop-section :
    (k : Kind) (contents rest : Bytes) → drop (length contents + 4) (encode k contents rest) ≡ rest
drop-section k contents rest =
    ap (λ n. drop n (encode k contents rest)) {y = suc (suc (suc (suc (length contents))))}
      (omega arith)
    ∙ drop-append contents rest

-- A section that is there ends behind its contents.
pub end-encode :
    (k : Kind) (contents rest : Bytes)
    → length contents + 4 < 65536
    → end (at k (encode k contents rest)) ≡ ok rest
unfolding end get_size
end-encode k contents rest fits =
    rw (exists-encode_self k contents rest, size-encode k contents rest fits)
      (ap ok (drop-section k contents rest))

-- A section that is not there ends where it starts.
pub end-absent : (s : Section) → exists s ≡ ok false → end s ≡ ok s.start_bit
unfolding end get_size
end-absent s e = rw e

pub existance_error_check-exists :
    (s : Section) → exists s ≡ ok true → existance_error_check s ≡ ok tt
unfolding existance_error_check
existance_error_check-exists s e = rw e

-- The accessor of a section that is not there raises.
pub existance_error_check-absent :
    (s : Section) → exists s ≡ ok false → existance_error_check s ≡ throw out_of_range
unfolding existance_error_check
existance_error_check-absent s e = rw e
