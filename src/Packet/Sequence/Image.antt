-- ===== src/Packet/Sequence/Image.antt =====
-- The accessors of AID0, and the ping number of every well-formed acoustic-image packet.
use ros2sonic.Prelude.{ℕ, ◌≤◌, ◌≡◌, refl, Option, none, some, List, [], ◌∷◌, length, arith}
use ros2sonic.Outcome.{ok}
use ros2sonic.Memory.{Bytes, IsBytes}
use ros2sonic.Struct.Fields.{value_in, field-within}
use ros2sonic.Section.{Kind, h0, a1, m0, exists}
use ros2sonic.Section.Identity.{at, existance_error_check-exists, exists-encode_self}
use ros2sonic.Section.H0
use ros2sonic.Section.M0
use ros2sonic.Packet.{PacketKind, Packet, type_error_check}
use ros2sonic.Packet.Aid0
use ros2sonic.Packet.Sequence.{
  Contents, IsSmall, IsTail, is_present, slot, sections, packet_of, exists-sections, end-sections,
  type_error_check-packet_of, sections_start_bit-packet_of,
}
use ros2sonic.Packet.Sequence.Bathymetry.{Finds}

abbrev pub image_kinds : List Kind
image_kinds = h0 ∷ a1 ∷ m0 ∷ []

-- Where a section is present, it holds `n` bytes at least.
abbrev pub HoldsIf : ℕ → Option Bytes → Type 0
HoldsIf n none = Unit
HoldsIf n (some b) = IsBytes b × (n ≤ length b)

-- The number in the M0 section if there is one, else that in the H0 section, else 0.
abbrev pub ping_of : Option Bytes → Option Bytes → ℕ
ping_of o (some m) = value_in M0.body_layout M0.ping_number m
ping_of (some h) none = value_in H0.body_layout H0.ping_number h
ping_of none none = 0

module _ (c : Contents) (size stream : ℕ) (rest : Bytes) (small : IsSmall c)
    (tail : IsTail image_kinds rest) where
  abbrev pkt : Packet
  pkt = packet_of PacketKind.aid0 size stream (sections c image_kinds rest)

  checked : type_error_check pkt ≡ ok tt
  checked = type_error_check-packet_of PacketKind.aid0 size stream (sections c image_kinds rest)

  pub h0-Finds : Finds c rest (Aid0.h0 pkt) h0 (a1 ∷ m0 ∷ [])
  unfolding Aid0.h0
  h0-Finds = (
    rw (
      checked,
      sections_start_bit-packet_of PacketKind.aid0 size stream (sections c image_kinds rest),
    ),
    exists-sections c small h0 (a1 ∷ m0 ∷ []) rest refl tail.0,
  )

  pub a1-Finds : Finds c rest (Aid0.a1 pkt) a1 (m0 ∷ [])
  unfolding Aid0.a1
  a1-Finds = (
    rw (checked, h0-Finds.0, end-sections c small h0 (a1 ∷ m0 ∷ []) rest refl tail.0),
    exists-sections c small a1 (m0 ∷ []) rest refl tail.1.0,
  )

  pub m0-Finds : Finds c rest (Aid0.m0 pkt) m0 []
  unfolding Aid0.m0
  m0-Finds = (
    rw (checked, a1-Finds.0, end-sections c small a1 (m0 ∷ []) rest refl tail.1.0),
    exists-sections c small m0 [] rest refl tail.1.1.0,
  )

  -- In every acoustic-image packet whose three sections are present or absent in any combination,
  -- the accessors return each section where it stands, or would stand, `exists` tells whether it is
  -- present, and the packet counts as the first of its ping exactly if H0 is present. The sizes fit
  -- 16 bits, and what follows the sections does not begin like one of them.
  pub image_sections_found :
      Finds c rest (Aid0.h0 pkt) h0 (a1 ∷ m0 ∷ [])
      × Finds c rest (Aid0.a1 pkt) a1 (m0 ∷ [])
      × Finds c rest (Aid0.m0 pkt) m0 []
      × (Aid0.is_first_in_series pkt ≡ ok (is_present (c h0)))
  unfolding Aid0.is_first_in_series
  image_sections_found = (h0-Finds, a1-Finds, m0-Finds, rw h0-Finds.0 h0-Finds.1)

ping_no_of :
    (pkt : Packet) (o o' : Option Bytes) (rest rest' : Bytes)
    → Aid0.h0 pkt ≡ ok (at h0 (slot h0 o rest))
    → exists (at h0 (slot h0 o rest)) ≡ ok (is_present o)
    → Aid0.m0 pkt ≡ ok (at m0 (slot m0 o' rest'))
    → exists (at m0 (slot m0 o' rest')) ≡ ok (is_present o')
    → HoldsIf 112 o
    → HoldsIf 32 o'
    → Aid0.get_ping_no pkt ≡ ok (ping_of o o')
unfolding Aid0.get_ping_no M0.body
ping_no_of pkt none none rest rest' h hx m mx full full' = rw (h, hx, m, mx)
ping_no_of pkt (some b) none rest rest' h hx m mx (bytes, long) full' =
    rw (h, hx, field-within H0.body_layout H0.ping_number b rest bytes (omega arith), m, mx)
ping_no_of pkt none (some b') rest rest' h hx m mx full (bytes', long') = rw (
  h,
  hx,
  m,
  mx,
  existance_error_check-exists _ (exists-encode_self m0 b' rest'),
  field-within M0.body_layout M0.ping_number b' rest' bytes' (omega arith),
)
ping_no_of pkt (some b) (some b') rest rest' h hx m mx (bytes, long) (bytes', long') = rw (
  h,
  hx,
  field-within H0.body_layout H0.ping_number b rest bytes (omega arith),
  m,
  mx,
  existance_error_check-exists _ (exists-encode_self m0 b' rest'),
  field-within M0.body_layout M0.ping_number b' rest' bytes' (omega arith),
)

-- The ping number of a packet is that of its M0 section if it has one, else that of its H0 section,
-- and else 0. Each section that is there holds its whole body, the sizes fit 16 bits, and what
-- follows the sections does not begin like one of them.
pub get_ping_no-eq :
    (c : Contents) (size stream : ℕ) (rest : Bytes)
    → IsSmall c
    → IsTail image_kinds rest
    → HoldsIf 112 (c h0)
    → HoldsIf 32 (c m0)
    → Aid0.get_ping_no (packet_of PacketKind.aid0 size stream (sections c image_kinds rest))
      ≡ ok (ping_of (c h0) (c m0))
get_ping_no-eq c size stream rest small tail full full' =
    let h = h0-Finds c size stream rest small tail in
    let m = m0-Finds c size stream rest small tail in
    ping_no_of _ (c h0) (c m0) (sections c (a1 ∷ m0 ∷ []) rest) rest h.0 h.1 m.0 m.1 full full'
