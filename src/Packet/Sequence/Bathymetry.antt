-- ===== src/Packet/Sequence/Bathymetry.antt =====
-- The accessors of BTH0 find the sections of every well-formed bathymetry packet.
use ros2sonic.Prelude.{ℕ, ◌≡◌, refl, List, [], ◌∷◌}
use ros2sonic.Outcome.{Outcome, ok}
use ros2sonic.Memory.{Bytes}
use ros2sonic.Section.{Kind, h0, r0, a0, a2, i1, g0, g1, q0, Section, exists}
use ros2sonic.Section.Identity.{at}
use ros2sonic.Packet.{PacketKind, Packet, type_error_check}
use ros2sonic.Packet.Bth0
use ros2sonic.Packet.Sequence.{
  Contents, IsSmall, IsTail, is_present, sections, packet_of, exists-sections, end-sections,
  type_error_check-packet_of, sections_start_bit-packet_of,
}

abbrev pub bathymetry_kinds : List Kind
bathymetry_kinds = h0 ∷ r0 ∷ a0 ∷ a2 ∷ i1 ∷ g0 ∷ g1 ∷ q0 ∷ []

-- `accessor` returns the section of kind `k` where it stands, or would stand, with `after` behind
-- it.
abbrev pub Finds : Contents → Bytes → Outcome Section → Kind → List Kind → Type 0
Finds c rest found k after =
    (found ≡ ok (at k (sections c (k ∷ after) rest)))
    × (exists (at k (sections c (k ∷ after) rest)) ≡ ok (is_present (c k)))

module _ (c : Contents) (size stream : ℕ) (rest : Bytes) (small : IsSmall c)
    (tail : IsTail bathymetry_kinds rest) where
  abbrev pkt : Packet
  pkt = packet_of PacketKind.bth0 size stream (sections c bathymetry_kinds rest)

  checked : type_error_check pkt ≡ ok tt
  checked =
      type_error_check-packet_of PacketKind.bth0 size stream (sections c bathymetry_kinds rest)

  pub h0-Finds : Finds c rest (Bth0.h0 pkt) h0 (r0 ∷ a0 ∷ a2 ∷ i1 ∷ g0 ∷ g1 ∷ q0 ∷ [])
  unfolding Bth0.h0
  h0-Finds = (
    rw (
      checked,
      sections_start_bit-packet_of PacketKind.bth0 size stream (sections c bathymetry_kinds rest),
    ),
    exists-sections c small h0 (r0 ∷ a0 ∷ a2 ∷ i1 ∷ g0 ∷ g1 ∷ q0 ∷ []) rest refl (tail.0),
  )

  pub r0-Finds : Finds c rest (Bth0.r0 pkt) r0 (a0 ∷ a2 ∷ i1 ∷ g0 ∷ g1 ∷ q0 ∷ [])
  unfolding Bth0.r0
  r0-Finds = (
    rw (
      checked,
      h0-Finds.0,
      end-sections c small h0 (r0 ∷ a0 ∷ a2 ∷ i1 ∷ g0 ∷ g1 ∷ q0 ∷ []) rest refl (tail.0),
    ),
    exists-sections c small r0 (a0 ∷ a2 ∷ i1 ∷ g0 ∷ g1 ∷ q0 ∷ []) rest refl (tail.1.0),
  )

  pub a0-Finds : Finds c rest (Bth0.a0 pkt) a0 (a2 ∷ i1 ∷ g0 ∷ g1 ∷ q0 ∷ [])
  unfolding Bth0.a0
  a0-Finds = (
    rw (
      checked,
      r0-Finds.0,
      end-sections c small r0 (a0 ∷ a2 ∷ i1 ∷ g0 ∷ g1 ∷ q0 ∷ []) rest refl (tail.1.0),
    ),
    exists-sections c small a0 (a2 ∷ i1 ∷ g0 ∷ g1 ∷ q0 ∷ []) rest refl (tail.1.1.0),
  )

  pub a2-Finds : Finds c rest (Bth0.a2 pkt) a2 (i1 ∷ g0 ∷ g1 ∷ q0 ∷ [])
  unfolding Bth0.a2
  a2-Finds = (
    rw (
      checked,
      a0-Finds.0,
      end-sections c small a0 (a2 ∷ i1 ∷ g0 ∷ g1 ∷ q0 ∷ []) rest refl (tail.1.1.0),
    ),
    exists-sections c small a2 (i1 ∷ g0 ∷ g1 ∷ q0 ∷ []) rest refl (tail.1.1.1.0),
  )

  pub i1-Finds : Finds c rest (Bth0.i1 pkt) i1 (g0 ∷ g1 ∷ q0 ∷ [])
  unfolding Bth0.i1
  i1-Finds = (
    rw (
      checked,
      a2-Finds.0,
      end-sections c small a2 (i1 ∷ g0 ∷ g1 ∷ q0 ∷ []) rest refl (tail.1.1.1.0),
    ),
    exists-sections c small i1 (g0 ∷ g1 ∷ q0 ∷ []) rest refl (tail.1.1.1.1.0),
  )

  pub g0-Finds : Finds c rest (Bth0.g0 pkt) g0 (g1 ∷ q0 ∷ [])
  unfolding Bth0.g0
  g0-Finds = (
    rw (
      checked,
      i1-Finds.0,
      end-sections c small i1 (g0 ∷ g1 ∷ q0 ∷ []) rest refl (tail.1.1.1.1.0),
    ),
    exists-sections c small g0 (g1 ∷ q0 ∷ []) rest refl (tail.1.1.1.1.1.0),
  )

  pub g1-Finds : Finds c rest (Bth0.g1 pkt) g1 (q0 ∷ [])
  unfolding Bth0.g1
  g1-Finds = (
    rw (checked, g0-Finds.0, end-sections c small g0 (g1 ∷ q0 ∷ []) rest refl (tail.1.1.1.1.1.0)),
    exists-sections c small g1 (q0 ∷ []) rest refl (tail.1.1.1.1.1.1.0),
  )

  pub q0-Finds : Finds c rest (Bth0.q0 pkt) q0 ([])
  unfolding Bth0.q0
  q0-Finds = (
    rw (checked, g1-Finds.0, end-sections c small g1 (q0 ∷ []) rest refl (tail.1.1.1.1.1.1.0)),
    exists-sections c small q0 ([]) rest refl (tail.1.1.1.1.1.1.1.0),
  )

  -- In every bathymetry packet whose optional sections are present or absent in any combination,
  -- each of the eight accessors returns its section where it stands, or would stand, and `exists`
  -- then tells exactly whether it is present. The sizes fit 16 bits, and what follows the sections
  -- does not begin like one of them.
  pub sections_found :
      Finds c rest (Bth0.h0 pkt) h0 (r0 ∷ a0 ∷ a2 ∷ i1 ∷ g0 ∷ g1 ∷ q0 ∷ [])
      × Finds c rest (Bth0.r0 pkt) r0 (a0 ∷ a2 ∷ i1 ∷ g0 ∷ g1 ∷ q0 ∷ [])
      × Finds c rest (Bth0.a0 pkt) a0 (a2 ∷ i1 ∷ g0 ∷ g1 ∷ q0 ∷ [])
      × Finds c rest (Bth0.a2 pkt) a2 (i1 ∷ g0 ∷ g1 ∷ q0 ∷ [])
      × Finds c rest (Bth0.i1 pkt) i1 (g0 ∷ g1 ∷ q0 ∷ [])
      × Finds c rest (Bth0.g0 pkt) g0 (g1 ∷ q0 ∷ [])
      × Finds c rest (Bth0.g1 pkt) g1 (q0 ∷ [])
      × Finds c rest (Bth0.q0 pkt) q0 ([])
  sections_found = (h0-Finds, r0-Finds, a0-Finds, a2-Finds, i1-Finds, g0-Finds, g1-Finds, q0-Finds)
