-- ===== src/Node/Receiver/Delivery.antt =====
-- From a datagram with a bathymetry packet to the messages of the node.
use mathlib.Core.Path.{subst}
use ros2sonic.Prelude.{
  ℕ, ◌+◌, ◌%◌, ◌^◌, ◌≤◌, ◌<◌, ◌≡◌, refl, ap, ◌∙◌, Option, none, some, List, [], ◌∷◌, ◌++◌,
  append_assoc, All-drop, length, take_whole, take, drop,
}
use ros2sonic.Outcome.{Outcome, ok, ◌>>=◌}
use ros2sonic.Memory.{Bytes, IsBytes}
use ros2sonic.Memory.Endian.{be_bytes}
use ros2sonic.Floats.{Floats}
use ros2sonic.Section.{Kind, name_of}
use ros2sonic.Packet.{PacketKind}
use ros2sonic.Packet.Sequence.{
  Contents, IsSmall, IsTail, slot, sections, packet_of, encode_packet, is_type-packet_of,
}
use ros2sonic.Packet.Sequence.Bathymetry.{bathymetry_kinds}
use ros2sonic.Conversions.Detections.Spec.{Ping, IsComplete, contents_of, detections_of}
use ros2sonic.Node.Publish.{
  Node, detections_sent, raw_bth0_sent, all_free, receive_bth0, publish_bth0,
}
use ros2sonic.Node.Publish.Bathymetry.{framed, raw_of, IsReady, publish_bth0-eq}
use ros2sonic.Node.Receiver.{arrived, overlay, run}
use ros2sonic.Node.Receiver.Loop.{at_work, run-arrived_all}

-- The bytes behind the sections.
slot-append :
    (k : Kind) (o : Option Bytes) (rest stale : Bytes)
    → slot k o rest ++ stale ≡ slot k o (rest ++ stale)
slot-append k none rest stale = refl
slot-append k (some b) rest stale =
    ap (λ t. (name_of k).first ∷ (name_of k).second ∷ (be_bytes 2 (length b + 4) ++ t))
      (append_assoc b rest stale)

sections-append :
    (c : Contents) (ks : List Kind) (stale : Bytes)
    → sections c ks [] ++ stale ≡ sections c ks stale
sections-append c [] stale = refl
sections-append c (k ∷ ks) stale =
    slot-append k (c k) (sections c ks []) stale ∙ ap (slot k (c k)) (sections-append c ks stale)

-- The datagram of a ping, and what it leaves in the buffer behind it.
abbrev pub datagram_of : Ping → ℕ → ℕ → Bytes
datagram_of p size stream =
    encode_packet PacketKind.bth0 size stream (sections (contents_of p) bathymetry_kinds [])

abbrev pub stale : Ping → ℕ → ℕ → Bytes → Bytes
stale p size stream buffer = drop (length (datagram_of p size stream)) buffer

-- What the buffer holds after it.
abbrev pub body_in : Ping → ℕ → ℕ → Bytes → Bytes
body_in p size stream buffer =
    sections (contents_of p) bathymetry_kinds (stale p size stream buffer)

encode_packet-append :
    (size stream : ℕ) (body behind : Bytes)
    → encode_packet PacketKind.bth0 size stream body ++ behind
      ≡ encode_packet PacketKind.bth0 size stream (body ++ behind)
encode_packet-append size stream body behind = refl

overlay-datagram_of :
    (p : Ping) (size stream : ℕ) (buffer : Bytes)
    → length (datagram_of p size stream) ≤ length buffer
    → overlay (datagram_of p size stream) buffer
      ≡ encode_packet PacketKind.bth0 size stream (body_in p size stream buffer)
overlay-datagram_of p size stream buffer fits =
    ap (λ t. t ++ stale p size stream buffer)
      (take_whole (length buffer) (datagram_of p size stream) fits)
    ∙ encode_packet-append size stream (sections (contents_of p) bathymetry_kinds [])
        (stale p size stream buffer)
    ∙ ap (encode_packet PacketKind.bth0 size stream)
        (sections-append (contents_of p) bathymetry_kinds (stale p size stream buffer))

received :
    {fl : Floats} (size stream : ℕ) (body : Bytes) (n : ℕ) (node node' : Node fl)
    → publish_bth0 fl (packet_of PacketKind.bth0 size stream body) node ≡ ok node'
    → receive_bth0 fl (encode_packet PacketKind.bth0 size stream body) n node ≡ ok node'
unfolding receive_bth0
received size stream body n node node' e = rw (is_type-packet_of PacketKind.bth0 size stream body) e

one_datagram :
    {S : Type 0} (receive_impl : Bytes → ℕ → S → Outcome S) (d buffer : Bytes) (state state' : S)
    → receive_impl (overlay d buffer) (length (take (length buffer) d)) state ≡ ok state'
    → run receive_impl (arrived d ∷ []) (at_work receive_impl buffer state)
      ≡ ok (at_work receive_impl (overlay d buffer) state')
one_datagram receive_impl d buffer state state' e =
    run-arrived_all receive_impl (d ∷ []) buffer state
    ∙ ap (λ m. (m >>= λ s. ok s) >>= λ s. ok (at_work receive_impl (overlay d buffer) s)) e

module _ (fl : Floats) (p : Ping) (size stream : ℕ) (buffer : Bytes) where
  -- What the node is after the ping.
  abbrev pub seen_by : Node fl → Node fl
  seen_by node =
      let msg = framed fl node (detections_of fl p node.dectections_msg) in
      let raw = raw_of fl node PacketKind.bth0 size stream (body_in p size stream buffer) in
      record node {
        dectections_msg = msg;
        bth0_msg = raw;
        locks = all_free;
        sent = (node.sent ++ detections_sent msg ∷ []) ++ raw_bth0_sent raw ∷ [];
      }

  -- A datagram with a complete bathymetry packet that fits into the buffer is published: the
  -- receiver that waits for it sends the decoded detections and then the raw packet, and waits
  -- again, with the datagram at the front of its buffer. Both publishers exist and no mutex is
  -- taken; what earlier datagrams have left behind this one holds bytes and does not begin like a
  -- section; the sizes of the sections fit 16 bits; and the size that the header states has 32
  -- bits and, modulo 65536, is not above the buffer's length.
  pub run-bathymetry :
      (node : Node fl)
      → IsComplete p
      → IsSmall (contents_of p)
      → IsTail bathymetry_kinds (stale p size stream buffer)
      → IsBytes buffer
      → IsReady fl node
      → size < 2 ^ 32
      → length (datagram_of p size stream) ≤ length buffer
      → size % 65536 ≤ length (overlay (datagram_of p size stream) buffer)
      → run
          (receive_bth0 fl)
          (arrived (datagram_of p size stream) ∷ [])
          (at_work (receive_bth0 fl) buffer node)
        ≡ ok (at_work (receive_bth0 fl) (overlay (datagram_of p size stream) buffer) (seen_by node))
  run-bathymetry node full small tail bytes ready h fits stated =
      let there = overlay-datagram_of p size stream buffer fits in
      let stale_bytes : IsBytes (stale p size stream buffer) =
        All-drop (λ b. b < 256) (length (datagram_of p size stream)) buffer bytes in
      one_datagram (receive_bth0 fl) (datagram_of p size stream) buffer node (seen_by node) (
        ap (λ b. receive_bth0 fl b (length (take (length buffer) (datagram_of p size stream))) node)
          there
        ∙ received size stream (body_in p size stream buffer) _ node (seen_by node) (
            publish_bth0-eq fl p size stream (stale p size stream buffer) full small tail
              stale_bytes node ready h (subst (λ b. size % 65536 ≤ length b) there stated)))
