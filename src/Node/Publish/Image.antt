-- ===== src/Node/Publish/Image.antt =====
-- What R2SonicNode::publish does with the packet that completes an acoustic image.
use mathlib.Core.Option
use ros2sonic.Prelude.{
  ℕ, ◌+◌, ◌*◌, ◌%◌, ◌^◌, ◌≤◌, ◌<◌, ◌≡◌, refl, ap, ◌∙◌, Option, none, some, [], ◌∷◌, ◌++◌, ◌&&◌,
  length, take, get_or, ltb, le→leb, ◌==◌, if◌then◌else◌, arith,
}
use ros2sonic.Outcome.{ok}
use ros2sonic.Memory.{Bytes, IsBytes}
use ros2sonic.Memory.Endian.{be_value}
use ros2sonic.Floats.{Floats}
use ros2sonic.Section.H0
use ros2sonic.Section.M0
use ros2sonic.Packet.{PacketKind}
use ros2sonic.Packet.Sequence.{IsSmall, IsTail, sections, encode_packet}
use ros2sonic.Packet.Sequence.Image.{image_kinds, get_ping_no-eq}
use ros2sonic.Conversions.Assembler.{Assembler, RawSonarImage, new_assembler, add_packet}
use ros2sonic.Conversions.Assembler.Copy.{of_part, IsPart, part_byte}
use ros2sonic.Conversions.Assembler.Image.{within}
use ros2sonic.Conversions.Assembler.Parts.{of_h0, canvas}
use ros2sonic.Conversions.Assembler.Packets.{image_contents, later_packet, add_packet_cells}
use ros2sonic.Conversions.Detections.Spec.{HasBytes}
use ros2sonic.Node.MsgMap.{MsgMap, find, put, erase, clean_msg_map}
use ros2sonic.Node.MsgMap.Clean.{find-clean_recent, find-erase, find-put}
use ros2sonic.Node.Publish.{Node, raw_aid0_sent, image_sent, all_free, publish_aid0}
use ros2sonic.Node.Publish.Calls.{
  IsReady, raw_of, seen, framed, image_of, completed, publish_aid0-completed,
}

pub four_bytes-lt : (x : Bytes) → IsBytes x → be_value (take 4 x) < 2 ^ 32
four_bytes-lt [] h = omega arith
four_bytes-lt (a ∷ []) h = omega (arith, h.0)
four_bytes-lt (a ∷ b ∷ []) h = omega (arith, h.0, h.1.0)
four_bytes-lt (a ∷ b ∷ c ∷ []) h = omega (arith, h.0, h.1.0, h.1.1.0)
four_bytes-lt (a ∷ b ∷ c ∷ d ∷ x) h = omega (arith, h.0, h.1.0, h.1.1.0, h.1.1.1.0)

-- The map after the image of a ping has been sent.
pub find-completed {ℓ} :
    {A : Type ℓ} (ping_no k : ℕ) (v : A) (m : MsgMap A)
    → 10 ≤ ping_no
    → ping_no < 2 ^ 32
    → find k (clean_msg_map ping_no (erase ping_no (put ping_no v m)))
      ≡ (if ltb (k + 10) ping_no then none else if ping_no == k then none else find k m)
find-completed ping_no k v m low high = ground (
  arith,
  find-clean_recent ping_no k (erase ping_no (put ping_no v m)) low high,
  find-erase ping_no k (put ping_no v m),
  find-put ping_no k v m,
)

module _ (fl : Floats) where
  -- When the part that reaches the last bin of a ping arrives, and both publishers exist and no
  -- mutex is taken, `publish` sends the raw packet and then the image, in which every cell of the
  -- part holds the part's byte and every other cell what the assembler held, or zero if its image
  -- was of another size, and gives the mutexes back. The ping's assembler is then forgotten, as are
  -- those of pings more than ten before it, and all others stay. The ping's number is 10 at least,
  -- the part lies within its image, with bins that end at 65536 at most and an image of at most 2 ^
  -- 31 cells, the map has an assembler of the ping, which holds its whole H0 body, the sections'
  -- sizes fit 16 bits, what follows them does not begin like one of them, and the buffer holds as
  -- many bytes as the 32-bit size in the header says modulo 65536.
  pub publish_aid0_complete :
      (o : Option Bytes) (b : Bytes) (size stream : ℕ) (rest : Bytes) (no_image : RawSonarImage fl)
      (node : Node fl) (asm : Assembler fl) (body : Bytes)
      → IsSmall (image_contents none o (some b))
      → IsTail image_kinds rest
      → IsPart b
      → find (of_part M0.ping_number b) node.assemblers ≡ some asm
      → asm.h0_body ≡ some body
      → HasBytes 112 body
      → of_h0 H0.ping_number body ≡ of_part M0.ping_number b
      → of_part M0.total_bins b ≤ of_part M0.first_bin b + of_part M0.bins b
      → 10 ≤ of_part M0.ping_number b
      → IsReady fl node
      → size < 2 ^ 32
      → size % 65536
        ≤ length (
            encode_packet PacketKind.aid0 size stream
              (sections (image_contents none o (some b)) image_kinds rest))
      → (after : Node fl) × (sent : RawSonarImage fl) × (publish_aid0 fl no_image
            (later_packet o b size stream rest)
            node
          ≡ ok after)
        × (after.sent
            ≡ (node.sent
                ++ raw_aid0_sent (
                    raw_of fl node size stream
                      (sections (image_contents none o (some b)) image_kinds rest))
                  ∷ [])
              ++ image_sent sent ∷ [])
        × (after.locks ≡ all_free)
        × ((bin beam : ℕ)
            → beam < of_part M0.total_beams b
            → get_or sent.image (bin * of_part M0.total_beams b + beam) 0 ≡ (
                if within (of_part M0.first_beam b) (of_part M0.beams b) beam
                  && within (of_part M0.first_bin b) (of_part M0.bins b) bin
                then part_byte b beam bin
                else get_or
                    (canvas b asm.sonar_image.image)
                    (bin * of_part M0.total_beams b + beam)
                    0))
        × ((k : ℕ)
            → find k after.assemblers ≡ (
                if ltb (k + 10) (of_part M0.ping_number b)
                then none
                else if of_part M0.ping_number b == k
                then none
                else find k node.assemblers))
  publish_aid0_complete o b size stream rest no_image node asm body small tail part known held kept
        same last late ready narrow fits =
      let c = image_contents none o (some b) in
      let ping_no = of_part M0.ping_number b in
      let (added, step, sized, cells) =
        add_packet_cells fl o b size stream rest small tail part asm body held kept same in
      let whole =
        le→leb (of_part M0.total_bins b) (of_part M0.first_bin b + of_part M0.bins b) last in
      (
        completed fl (seen fl node (raw_of fl node size stream (sections c image_kinds rest)))
            ping_no added,
        image_of fl node added,
        publish_aid0-completed fl size stream (sections c image_kinds rest) ping_no no_image added
            node ready narrow fits
            (get_ping_no-eq c size stream rest small tail tt
              (part.full.0, omega (arith, part.full.1)))
            (ap
                (λ t.
                  add_packet fl (later_packet o b size stream rest)
                    (Option.get_or t (new_assembler fl no_image)))
                known
              ∙ step
              ∙ ap (λ t. ok (t, added)) whole),
        refl,
        refl,
        cells,
        λ k.
            find-completed ping_no k (framed fl node added) node.assemblers late
              (four_bytes-lt b part.full.0),
      )
