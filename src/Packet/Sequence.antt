-- ===== src/Packet/Sequence.antt =====
-- The specification of a packet: a header, and in a fixed order those sections that are present.
-- The code reaches a section through the ends of all the sections that may stand before it.
pub mod Bathymetry
pub mod Image
use ros2sonic.Prelude.{
  ap, ℕ, ◌+◌, ◌<◌, ◌≡◌, refl, Bool, true, false, Option, none, some, List, [], ◌∷◌, ◌++◌, ◌||◌, All,
  length, arith,
}
use ros2sonic.Outcome.{Outcome, ok, throw, out_of_range, ◌>>=◌}
use ros2sonic.Memory.{Bytes}
use ros2sonic.Memory.Endian.{be_bytes}
use ros2sonic.Section.{
  Kind, h0, r0, a0, a1, a2, i1, g0, g1, m0, q0, Section, exists, end, strncmp_eq,
}
use ros2sonic.Section.Identity.{
  encode, at, same_name, exists-encode, exists-encode_self, end-encode, end-absent,
}
use ros2sonic.Packet.{
  PacketKind, bth0, aid0, Packet, nominal_type, is_type, sections_start_bit, type_error_check,
}

-- What each section holds, or that it is absent.
abbrev pub Contents : Type 0
Contents = Kind → Option Bytes

abbrev pub is_present : Option Bytes → Bool
is_present none = false
is_present (some b) = true

abbrev pub slot : Kind → Option Bytes → Bytes → Bytes
slot k none rest = rest
slot k (some b) rest = encode k b rest

-- The present sections among `ks`, one behind the other, and then `rest`.
abbrev pub sections : Contents → List Kind → Bytes → Bytes
sections c [] rest = rest
sections c (k ∷ ks) rest = slot k (c k) (sections c ks rest)

abbrev pub encode_packet : PacketKind → ℕ → ℕ → Bytes → Bytes
encode_packet bth0 size stream rest =
    b'B' ∷ b'T' ∷ b'H' ∷ b'0' ∷ (be_bytes 4 size ++ (be_bytes 4 stream ++ rest))
encode_packet aid0 size stream rest =
    b'A' ∷ b'I' ∷ b'D' ∷ b'0' ∷ (be_bytes 4 size ++ (be_bytes 4 stream ++ rest))

abbrev pub packet_of : PacketKind → ℕ → ℕ → Bytes → Packet
packet_of k size stream rest = record { kind = k; start_bit = encode_packet k size stream rest }

-- Every section's size fits its u16.
abbrev pub IsSmall : Contents → Type 0
IsSmall c = (k : Kind) (b : Bytes) → c k ≡ some b → length b + 4 < 65536

-- What stands behind the sections does not begin like one of them.
abbrev pub IsTail : List Kind → Bytes → Type 0
IsTail ks rest = All (λ k. exists (at k rest) ≡ ok false) ks

-- Whether a section among `ks` has the name of `k`.
abbrev pub occurs : Kind → List Kind → Bool
occurs k [] = false
occurs k (j ∷ ks) = same_name k j || occurs k ks

exists-slot_other :
    (k j : Kind) (o : Option Bytes) (p : Bytes)
    → same_name k j ≡ false
    → exists (at k p) ≡ ok false
    → exists (at k (slot j o p)) ≡ ok false
exists-slot_other k j none p differ absent = absent
exists-slot_other k j (some b) p differ absent = rw (exists-encode k j b p) (ap ok differ)

exists-sections_other :
    (c : Contents) (k : Kind) (ks : List Kind) (rest : Bytes)
    → occurs k ks ≡ false
    → exists (at k rest) ≡ ok false
    → exists (at k (sections c ks rest)) ≡ ok false
exists-sections_other c k [] rest differ tail = tail
exists-sections_other c k (j ∷ ks) rest differ tail =
    exists-slot_other k j (c j) (sections c ks rest) (ground arith)
      (exists-sections_other c k ks rest (ground arith) tail)

module _ (c : Contents) (small : IsSmall c) (k : Kind) (ks : List Kind) (rest : Bytes)
    (differ : occurs k ks ≡ false) (tail : exists (at k rest) ≡ ok false) where
  -- Seen from the place where it would start, a section exists exactly when it is present.
  pub exists-sections : exists (at k (sections c (k ∷ ks) rest)) ≡ ok (is_present (c k))
  exists-sections = on (c k)
    where
      on : (o : Option Bytes) → exists (at k (slot k o (sections c ks rest))) ≡ ok (is_present o)
      on none = exists-sections_other c k ks rest differ tail
      on (some b) = exists-encode_self k b (sections c ks rest)

  -- Present or absent, it ends where the next one would start.
  pub end-sections : end (at k (sections c (k ∷ ks) rest)) ≡ ok (sections c ks rest)
  end-sections = on (c k) (small k)
    where
      on :
          (o : Option Bytes)
          → ((b : Bytes) → o ≡ some b → length b + 4 < 65536)
          → end (at k (slot k o (sections c ks rest))) ≡ ok (sections c ks rest)
      on none fits = end-absent _ (exists-sections_other c k ks rest differ tail)
      on (some b) fits = end-encode k b (sections c ks rest) (fits b refl)

pub is_type-packet_of :
    (k : PacketKind) (size stream : ℕ) (rest : Bytes)
    → is_type (packet_of k size stream rest) ≡ ok true
unfolding is_type strncmp_eq
is_type-packet_of bth0 size stream rest = refl
is_type-packet_of aid0 size stream rest = refl

pub type_error_check-packet_of :
    (k : PacketKind) (size stream : ℕ) (rest : Bytes)
    → type_error_check (packet_of k size stream rest) ≡ ok tt
unfolding type_error_check
type_error_check-packet_of k size stream rest = rw (is_type-packet_of k size stream rest)

pub sections_start_bit-packet_of :
    (k : PacketKind) (size stream : ℕ) (rest : Bytes)
    → sections_start_bit (packet_of k size stream rest) ≡ rest
sections_start_bit-packet_of bth0 size stream rest = refl
sections_start_bit-packet_of aid0 size stream rest = refl
