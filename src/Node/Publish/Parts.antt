-- ===== src/Node/Publish/Parts.antt =====
-- What R2SonicNode::publish does with the later packets of one ping, in the order in which they
-- come.
use ros2sonic.Prelude.{
  ℕ, ◌≡◌, refl, sym, ap, ◌∙◌, true, false, none, some, List, [], ◌∷◌, ◌++◌, map, append-nil,
  append_assoc, All, arith,
}
use mathlib.Core.Option
use ros2sonic.Outcome.{Outcome, ok, throw, fault, hang, ◌>>=◌}
use ros2sonic.Memory.{Bytes}
use ros2sonic.Floats.{Floats}
use ros2sonic.Section.H0
use ros2sonic.Packet.{Packet}
use ros2sonic.Packet.Aid0
use ros2sonic.Packet.Sequence.Image.{get_ping_no-eq}
use ros2sonic.Conversions.Assembler.{Assembler, new_assembler, add_packet, RawSonarImage}
use ros2sonic.Conversions.Assembler.Parts.{of_h0, extended}
use ros2sonic.Conversions.Assembler.Packets.{image_contents, add_packet-extended}
use ros2sonic.Conversions.Assembler.Collect.{
  LaterPacket, IsLater, packet, body_of, reaches_end, collect,
}
use ros2sonic.Conversions.Detections.Spec.{HasBytes}
use ros2sonic.Node.MsgMap.{find}
use ros2sonic.Node.MsgMap.Clean.{find-put_same}
use ros2sonic.Node.Publish.{Message, Node, raw_aid0_sent, assembler_for, publish_aid0}
use ros2sonic.Node.Worker.{in_turn}
use ros2sonic.Node.Publish.Calls.{
  IsReady, raw_of, seen, stored, completed, publish_aid0-stored, publish_aid0-completed,
}

module _ (fl : Floats) (no_image : RawSonarImage fl) where
  -- One call for each packet.
  abbrev pub publish_all : List Packet → Node fl → Outcome (Node fl)
  publish_all = in_turn (publish_aid0 fl no_image)

  abbrev pub raw_message : Node fl → LaterPacket → Message fl
  raw_message node q = raw_aid0_sent (raw_of fl node q.size q.stream (body_of q))

  pub publish_all-append :
      (xs ys : List Packet) (node after : Node fl)
      → publish_all xs node ≡ ok after
      → publish_all (xs ++ ys) node ≡ publish_all ys after
  publish_all-append xs ys node after e = joined xs node ∙ ap (λ m. m >>= publish_all ys) e
    where
      behind :
          (xs : List Packet) (m : Outcome (Node fl))
          → ((n : Node fl) → publish_all (xs ++ ys) n ≡ (publish_all xs n >>= publish_all ys))
          → (m >>= publish_all (xs ++ ys)) ≡ ((m >>= publish_all xs) >>= publish_all ys)
      behind xs (ok n) h = h n
      behind xs (throw x) h = refl
      behind xs fault h = refl
      behind xs hang h = refl

      joined :
          (xs : List Packet) (n : Node fl)
          → publish_all (xs ++ ys) n ≡ (publish_all xs n >>= publish_all ys)
      joined [] n = refl
      joined (x ∷ xs) n = behind xs (publish_aid0 fl no_image x n) (joined xs)

  module _ (ping_no nb nw : ℕ) where
    -- An assembler that has the H0 section of the ping.
    pub record IsStarted (asm : Assembler fl) : Type 0 where
      pub body : Bytes
      pub held : asm.h0_body ≡ some body
      pub whole : HasBytes 112 body
      pub ping : of_h0 H0.ping_number body ≡ ping_no

    -- What the packets `qs` have made of the node.
    pub record Progress (qs : List LaterPacket) (asm : Assembler fl) (node after : Node fl)
        : Type 0 where
      pub sent : after.sent ≡ node.sent ++ map (raw_message node) qs
      pub frame : after.tx_frame_id ≡ node.tx_frame_id
      pub ready : IsReady fl after
      pub assembler : find ping_no after.assemblers ≡ some (collect ping_no nb nw fl qs asm)

    -- The node after a packet that does not complete the image.
    abbrev pub advanced : LaterPacket → Assembler fl → Node fl → Node fl
    advanced q asm node =
        stored fl (seen fl node (raw_of fl node q.size q.stream (body_of q))) ping_no
          (extended fl q.part asm)

    module _ (q : LaterPacket) (asm : Assembler fl) (node : Node fl) (ready : IsReady fl node)
        (later : IsLater ping_no nb nw q) (start : IsStarted asm)
        (kept : find ping_no node.assemblers ≡ some asm) where
      numbered : Aid0.get_ping_no (packet q) ≡ ok ping_no
      numbered =
          get_ping_no-eq (image_contents none q.angles (some q.part)) q.size q.stream q.rest
            later.small later.tail tt (later.inside.full.0, omega (arith, later.inside.full.1))
          ∙ ap ok later.ping

      added :
          add_packet fl (packet q) (assembler_for fl no_image ping_no node.assemblers)
          ≡ ok (reaches_end q, extended fl q.part asm)
      added =
          ap (λ t. add_packet fl (packet q) (Option.get_or t (new_assembler fl no_image))) kept
          ∙ add_packet-extended fl q.angles q.part q.size q.stream q.rest later.small later.tail
              later.inside asm start.body start.held start.whole (start.ping ∙ sym later.ping)

      pub publish-part :
          reaches_end q ≡ false
          → publish_aid0 fl no_image (packet q) node ≡ ok (advanced q asm node)
      publish-part more =
          publish_aid0-stored fl q.size q.stream (body_of q) ping_no no_image
            (extended fl q.part asm) node ready later.stated.narrow later.stated.fits numbered
            (added ∙ ap (λ t. ok (t, extended fl q.part asm)) more)

      pub publish-last :
          reaches_end q ≡ true
          → publish_aid0 fl no_image (packet q) node
            ≡ ok (
                completed fl
                  (seen fl node (raw_of fl node q.size q.stream (body_of q)))
                  ping_no
                  (extended fl q.part asm))
      publish-last last =
          publish_aid0-completed fl q.size q.stream (body_of q) ping_no no_image
            (extended fl q.part asm) node ready later.stated.narrow later.stated.fits numbered
            (added ∙ ap (λ t. ok (t, extended fl q.part asm)) last)

    pub publish_all-parts :
        (qs : List LaterPacket) (asm : Assembler fl) (node : Node fl)
        → All (IsLater ping_no nb nw) qs
        → All (λ q. reaches_end q ≡ false) qs
        → IsReady fl node
        → IsStarted asm
        → find ping_no node.assemblers ≡ some asm
        → (after : Node fl) × (publish_all (map packet qs) node ≡ ok after)
          × Progress qs asm node after
    publish_all-parts [] asm node laters more ready start kept = (
      node,
      refl,
      record { sent = sym (append-nil node.sent); frame = refl; ready = ready; assembler = kept },
    )
    publish_all-parts (q ∷ qs) asm node laters more ready start kept =
        let node' = advanced q asm node in
        let (after, run, p) =
          publish_all-parts qs (extended fl q.part asm) node' laters.1 more.1
            (record { free = refl; raws = ready.raws; images = ready.images })
            (record {
              body = start.body;
              held = start.held;
              whole = start.whole;
              ping = start.ping;
            })
            (find-put_same ping_no (extended fl q.part asm) node.assemblers) in
        (
          after,
          rw (publish-part q asm node ready laters.0 start kept more.0) run,
          record {
            sent =
                p.sent
                ∙ append_assoc node.sent (raw_message node q ∷ []) (map (raw_message node) qs);
            frame = p.frame;
            ready = p.ready;
            assembler = p.assembler;
          },
        )
