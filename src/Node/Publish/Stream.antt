-- ===== src/Node/Publish/Stream.antt =====
-- Any sequence of whole acoustic-image packets, given to R2SonicNode::publish: packets may be lost,
-- come twice or out of order, and pings may be mixed.
pub mod Known
pub mod Whole
pub mod Passes
pub mod Among
use ros2sonic.Prelude.{
  ℕ, ltb, ◌+◌, ◌*◌, ◌≤◌, ◌<◌, ◌≡◌, ◌≢◌, refl, sym, ap, ◌∙◌, Bool, true, false, Bool-cases, ◌⊎◌, inl,
  inr, Option, none, some, List, [], ◌∷◌, ◌++◌, map, append-nil, append_assoc, select,
  select-append, All, All-take, length, length-take, take, ◌==◌, ==_iff, if◌then◌else◌, arith,
}
use ros2sonic.Outcome.{Outcome, ok, ◌>>=◌}
use ros2sonic.Memory.{Bytes}
use ros2sonic.Floats.{Floats}
use ros2sonic.Section.H0
use ros2sonic.Section.M0
use ros2sonic.Packet.{PacketKind, Packet}
use ros2sonic.Packet.Aid0
use ros2sonic.Packet.Sequence.{IsSmall, IsTail, sections, packet_of}
use ros2sonic.Packet.Sequence.Image.{
  image_kinds, HoldsIf, ping_of, m0-Finds, image_sections_found, get_ping_no-eq,
}
use ros2sonic.Conversions.Assembler.{Assembler, RawSonarImage, add_packet}
use ros2sonic.Conversions.Assembler.Copy.{of_part}
use ros2sonic.Conversions.Assembler.Parts.{of_h0, extended, add_section-other_ping}
use ros2sonic.Conversions.Assembler.Packets.{
  image_contents, started, add_packet_first, add_packet-extended,
}
use ros2sonic.Conversions.Assembler.Collect.{
  LaterPacket, IsLater, StatesSize, packet, body_of, reaches_end,
}
use ros2sonic.Conversions.Detections.Spec.{HasBytes}
use ros2sonic.Node.MsgMap.{MsgMap, find, put, erase, oldest_kept, clean_msg_map}
use ros2sonic.Node.MsgMap.Every.{Every, is_there, put-Every, erase-Every, clean-Every}
use ros2sonic.Node.Worker.{in_turn}
use ros2sonic.Node.Publish.{
  Message, Node, detections_sent, raw_bth0_sent, raw_aid0_sent, image_sent, assembler_for,
  publish_aid0,
}
use ros2sonic.Node.Publish.Calls.{
  IsReady, raw_of, seen, stored, completed, image_of, framed, publish_aid0-stored,
  publish_aid0-completed,
}

-- A first packet of a ping, with its H0, A1 and perhaps M0, or a later one.
pub data ImagePacket : Type 0 where
  first : (h a : Bytes) → Option Bytes → (size stream : ℕ) → Bytes → ImagePacket
  later : LaterPacket → ImagePacket

abbrev pub size_of : ImagePacket → ℕ
size_of (first h a m size stream rest) = size
size_of (later q) = q.size

abbrev pub stream_of : ImagePacket → ℕ
stream_of (first h a m size stream rest) = stream
stream_of (later q) = q.stream

abbrev pub body_in : ImagePacket → Bytes
body_in (first h a m size stream rest) =
    sections (image_contents (some h) (some a) m) image_kinds rest
body_in (later q) = body_of q

abbrev pub image_packet : ImagePacket → Packet
image_packet p = packet_of PacketKind.aid0 (size_of p) (stream_of p) (body_in p)

-- Every section holds what its numbers ask for, and a part lies within its image.
abbrev pub IsWhole : ImagePacket → Type 0
IsWhole (first h a m size stream rest) =
    HasBytes 112 h
    × HasBytes (24 + 4 * of_h0 H0.beams h) a
    × IsSmall (image_contents (some h) (some a) m)
    × IsTail image_kinds rest
    × HoldsIf 32 m
    × StatesSize size stream (sections (image_contents (some h) (some a) m) image_kinds rest)
IsWhole (later q) =
    IsLater (of_part M0.ping_number q.part) (of_part M0.total_bins q.part)
      (of_part M0.total_beams q.part) q

abbrev pub number_of : ImagePacket → ℕ
number_of (first h a m size stream rest) = ping_of (some h) m
number_of (later q) = of_part M0.ping_number q.part

abbrev pub may_complete : ImagePacket → Bool
may_complete (first h a m size stream rest) = false
may_complete (later q) = reaches_end q

-- The pings that surely have an assembler after a packet: a part that reaches the last bin may
-- complete its ping, which is forgotten then with the old ones; any other packet has its ping
-- remembered.
abbrev pub remembers : ImagePacket → (ℕ → Bool) → ℕ → Bool
remembers p known k =
    if may_complete p
    then (if ltb k (oldest_kept (number_of p))
        then false
        else if number_of p == k
        then false
        else known k)
    else if number_of p == k
    then true
    else known k

-- A part comes only while its ping has an assembler.
abbrev pub ComesInOrder : (ℕ → Bool) → ImagePacket → Type 0
ComesInOrder known (first h a m size stream rest) = Unit {0}
ComesInOrder known (later q) = known (of_part M0.ping_number q.part) ≡ true

abbrev pub InOrder : (ℕ → Bool) → List ImagePacket → Type 0
InOrder known [] = Unit {0}
InOrder known (p ∷ ps) = ComesInOrder known p × InOrder (remembers p known) ps

module _ {fl : Floats} where
  -- The pings that have an assembler.
  abbrev pub begun_in : Node fl → ℕ → Bool
  begun_in node k = is_there (find k node.assemblers)

  -- What is known to have an assembler has one.
  abbrev pub Knows : (ℕ → Bool) → Node fl → Type 0
  Knows known node = (k : ℕ) → known k ≡ true → begun_in node k ≡ true

  abbrev pub is_raw_aid0 : Message fl → Bool
  is_raw_aid0 (raw_aid0_sent m) = true
  is_raw_aid0 _ = false

  abbrev pub HasHead : Assembler fl → Type 0
  HasHead asm = (body : Bytes) × (asm.h0_body ≡ some body) × HasBytes 112 body

  -- The node is ready, and every assembler of its map has got an H0 body of 112 bytes.
  pub record IsSound (node : Node fl) : Type 0 where
    pub ready : IsReady fl node
    pub heads : Every HasHead node.assemblers

  abbrev pub raw_message : Node fl → ImagePacket → Message fl
  raw_message node p = raw_aid0_sent (raw_of fl node (size_of p) (stream_of p) (body_in p))

  -- What packets have made of the node.
  pub record Passed (ps : List ImagePacket) (node after : Node fl) : Type 0 where
    pub sound : IsSound after
    pub frame : after.tx_frame_id ≡ node.tx_frame_id
    pub raws :
        select is_raw_aid0 after.sent ≡ select is_raw_aid0 node.sent ++ map (raw_message node) ps

  module _ (p : ImagePacket) (ping_no : ℕ) (added : Assembler fl) (node : Node fl)
      (sound : IsSound node) (head : HasHead added) where
    Passed-stored : Passed (p ∷ []) node (
        stored fl
          (seen fl node (raw_of fl node (size_of p) (stream_of p) (body_in p)))
          ping_no
          added)
    Passed-stored = record {
      sound = record {
        ready = record { free = refl; raws = sound.ready.raws; images = sound.ready.images };
        heads = put-Every HasHead ping_no added node.assemblers sound.heads head;
      };
      frame = refl;
      raws = select-append is_raw_aid0 node.sent (raw_message node p ∷ []);
    }

    Passed-completed : Passed (p ∷ []) node (
        completed fl
          (seen fl node (raw_of fl node (size_of p) (stream_of p) (body_in p)))
          ping_no
          added)
    Passed-completed = record {
      sound = record {
        ready = record { free = refl; raws = sound.ready.raws; images = sound.ready.images };
        heads = clean-Every HasHead ping_no _ (
            erase-Every HasHead ping_no _
              (put-Every HasHead ping_no (framed fl node added) node.assemblers sound.heads head));
      };
      frame = refl;
      raws =
          select-append is_raw_aid0 (node.sent ++ raw_message node p ∷ [])
            (image_sent (image_of fl node added) ∷ [])
          ∙ append-nil _
          ∙ select-append is_raw_aid0 node.sent (raw_message node p ∷ []);
    }
