-- ===== src/Node/Publish/Stream/Whole.antt =====
-- A whole packet: its ping, and what the assembler that it finds does with it.
use ros2sonic.Prelude.{
  drop, All-drop, ◌<◌, ◌^◌, ℕ, ◌<◌, ◌≡◌, refl, sym, ◌∙◌, Bool, true, false, Bool-cases, inl, inr,
  none, some, All-take, length-take, take, ◌==◌, ==_iff, arith,
}
use ros2sonic.Outcome.{ok}
use ros2sonic.Floats.{Floats}
use ros2sonic.Section.H0
use ros2sonic.Section.M0
use ros2sonic.Packet.Aid0
use ros2sonic.Packet.Sequence.Image.{m0-Finds, image_sections_found, get_ping_no-eq}
use ros2sonic.Conversions.Assembler.{Assembler, RawSonarImage, new_assembler, add_packet}
use ros2sonic.Conversions.Assembler.Copy.{of_part}
use ros2sonic.Conversions.Assembler.Parts.{of_h0, extended, add_section-other_ping}
use ros2sonic.Conversions.Assembler.Packets.{
  image_contents, started, add_packet_first, add_packet-extended,
}
use ros2sonic.Conversions.Assembler.Collect.{StatesSize, reaches_end}
use ros2sonic.Node.Publish.Image.{four_bytes-lt}
use ros2sonic.Node.MsgMap.Every.{found-Every}
use ros2sonic.Node.Publish.{Node, assembler_for}
use ros2sonic.Node.Publish.Stream.{
  ImagePacket, first, later, image_packet, size_of, stream_of, body_in, IsWhole, HasHead, IsSound,
  number_of, may_complete, ComesInOrder, Knows,
}

pub get_ping_no-number_of :
    (p : ImagePacket) → IsWhole p → Aid0.get_ping_no (image_packet p) ≡ ok (number_of p)
get_ping_no-number_of (first h a m size stream rest) (full, angles, small, tail, part, stated) =
    get_ping_no-eq (image_contents (some h) (some a) m) size stream rest small tail full part
get_ping_no-number_of (later q) whole =
    get_ping_no-eq (image_contents none q.angles (some q.part)) q.size q.stream q.rest whole.small
      whole.tail tt (whole.inside.full.0, omega (arith, whole.inside.full.1))

pub StatesSize-IsWhole :
    (p : ImagePacket) → IsWhole p → StatesSize (size_of p) (stream_of p) (body_in p)
StatesSize-IsWhole (first h a m size stream rest) (full, angles, small, tail, part, stated) = stated
StatesSize-IsWhole (later q) whole = whole.stated

pub number_of-lt : (p : ImagePacket) → IsWhole p → number_of p < 2 ^ 32
number_of-lt (first h a none size stream rest) (full, angles, small, tail, part, stated) =
    four_bytes-lt (drop 32 h) (All-drop (λ b. b < 256) 32 h full.0)
number_of-lt (first h a (some m) size stream rest) (full, angles, small, tail, part, stated) =
    four_bytes-lt m part.0
number_of-lt (later q) whole = four_bytes-lt q.part whole.inside.full.0

module _ {fl : Floats} where
  -- The assembler that a packet finds.
  abbrev pub Meets : ImagePacket → Assembler fl → Type 0
  Meets (first h a m size stream rest) asm = Unit {0}
  Meets (later q) asm = HasHead asm

  pub add_packet-whole :
      (p : ImagePacket) (asm : Assembler fl)
      → IsWhole p
      → Meets p asm
      → (complete : Bool) × (added : Assembler fl) × (add_packet fl (image_packet p) asm
          ≡ ok (complete, added))
        × HasHead added
        × (complete ≡ true → may_complete p ≡ true)
  unfolding add_packet
  add_packet-whole (first h a m size stream rest) asm (full, angles, small, tail, part, stated)
        meets =
      (
        false,
        record asm { sonar_image = started fl h a asm.sonar_image; h0_body = some (take 112 h) },
        add_packet_first fl h m size stream rest tail full a small angles asm,
        (
          take 112 h,
          refl,
          (All-take (λ b. b < 256) 112 h full.0, omega (arith, length-take {0} 112 h, full.1)),
        ),
        λ e. e,
      )
  add_packet-whole (later q) asm whole (body, held, kept) =
      let c = image_contents none q.angles (some q.part) in
      let found = m0-Finds c q.size q.stream q.rest whole.small whole.tail in
      elim (Bool-cases (of_h0 H0.ping_number body == of_part M0.ping_number q.part)) [
        | inl same ↦ (
          reaches_end q,
          extended fl q.part asm,
          add_packet-extended fl q.angles q.part q.size q.stream q.rest whole.small whole.tail
              whole.inside asm body held kept ((==_iff _ _).0 same),
          (body, held, kept),
          λ e. e,
        )
        | inr differ ↦ (
          false,
          asm,
          rw
              (
                (image_sections_found c q.size q.stream q.rest whole.small whole.tail).3,
                found.0,
                found.1,
              )
              (add_section-other_ping fl q.part q.rest whole.inside asm body held kept
                (λ e. cc (sym differ ∙ (==_iff _ _).1 e))),
          (body, held, kept),
          λ e. cc,
        )
      ]

  -- In order, a part finds the assembler of its ping, which has got its H0 body.
  pub Meets-ComesInOrder :
      (no_image : RawSonarImage fl) (known : ℕ → Bool) (p : ImagePacket) (node : Node fl)
      → ComesInOrder known p
      → Knows known node
      → IsSound node
      → Meets p (assembler_for fl no_image (number_of p) node.assemblers)
  Meets-ComesInOrder no_image known (first h a m size stream rest) node order knows sound = tt
  Meets-ComesInOrder no_image known (later q) node order knows sound =
      found-Every HasHead (of_part M0.ping_number q.part) node.assemblers
        (new_assembler fl no_image) sound.heads (knows (of_part M0.ping_number q.part) order)
