-- ===== src/Node/Publish/Ping.antt =====
-- All the packets of one ping, given to R2SonicNode::publish in the order in which the sonar sends
-- them.
use ros2sonic.Prelude.{
  ℕ, ◌+◌, ◌*◌, ◌≡◌, refl, sym, ap, ap₂, ◌∙◌, true, false, none, some, List, [], ◌∷◌, ◌++◌, map,
  map-append, append_assoc, All, arith,
}
use mathlib.Core.Path.{subst}
use ros2sonic.Outcome.{ok, ◌>>=◌}
use ros2sonic.Memory.{Bytes}
use ros2sonic.Floats.{Floats}
use ros2sonic.Section.H0
use ros2sonic.Packet.Sequence.{IsSmall, IsTail}
use ros2sonic.Packet.Sequence.Image.{image_kinds}
use ros2sonic.Conversions.{RawPacket}
use ros2sonic.Conversions.Assembler.{Assembler, RawSonarImage}
use ros2sonic.Conversions.Assembler.Parts.{of_h0, extended}
use ros2sonic.Conversions.Assembler.Packets.{image_contents, first_packet}
use ros2sonic.Conversions.Assembler.Collect.{
  LaterPacket, IsLater, StatesSize, packet, body_of, reaches_end, collect, collect-append,
}
use ros2sonic.Conversions.Detections.Spec.{HasBytes}
use ros2sonic.Node.MsgMap.{MsgMap, find, erase, clean_msg_map}
use ros2sonic.Node.MsgMap.Clean.{find-clean, find-erase, find-put_same}
use ros2sonic.Node.Publish.{Message, Node, raw_aid0_sent, image_sent, all_free, publish_aid0}
use ros2sonic.Node.Publish.Calls.{IsReady, raw_of, seen, image_of, stored, completed}
use ros2sonic.Node.Publish.Parts.{
  publish_all, publish_all-append, raw_message, IsStarted, Progress, publish-last,
  publish_all-parts,
}
use ros2sonic.Node.Publish.Begun.{
  begun, begun-IsStarted, publish_aid0-begun, collect-IsStarted, ShowsPing, shows, first_body,
}

-- A completed ping has no assembler any more.
pub find-forgotten {ℓ} :
    {A : Type ℓ} (k : ℕ) (m : MsgMap A) → find k (clean_msg_map k (erase k m)) ≡ none
find-forgotten k m = ground (arith, find-clean k k (erase k m), find-erase k k m)

sent_in_order {ℓ κ} :
    {A : Type ℓ} {B : Type κ} (f : A → B) (qs : List A) (q : A) (sent : List B) (b : B)
    → ((sent ++ b ∷ []) ++ map f qs) ++ f q ∷ [] ≡ sent ++ b ∷ map f (qs ++ q ∷ [])
sent_in_order f qs q sent b =
    append_assoc (sent ++ b ∷ []) (map f qs) (f q ∷ [])
    ∙ append_assoc sent (b ∷ []) (map f qs ++ f q ∷ [])
    ∙ ap (λ t. sent ++ b ∷ t) (sym (map-append f qs (q ∷ [])))

module _ (fl : Floats) (no_image : RawSonarImage fl) (h a : Bytes) where
  abbrev pub raw_start : Node fl → ℕ → ℕ → Bytes → RawPacket
  raw_start node size stream rest = raw_of fl node size stream (first_body h a rest)

  -- The last part of a ping, after all the others.
  module _ (nb nw : ℕ) (qs : List LaterPacket) (q : LaterPacket) (node between : Node fl)
      (p : Progress fl no_image
        (of_h0 H0.ping_number h)
        nb
        nw
        qs
        (begun fl no_image h a)
        node
        between)
      (later : IsLater (of_h0 H0.ping_number h) nb nw q) where
    abbrev full_image : Assembler fl
    full_image =
        extended fl q.part (collect (of_h0 H0.ping_number h) nb nw fl qs (begun fl no_image h a))

    abbrev finished : Node fl
    finished =
        completed fl (seen fl between (raw_of fl between q.size q.stream (body_of q)))
          (of_h0 H0.ping_number h) full_image

    sent-finished :
        (sent : List (Message fl)) (m : Message fl)
        → node.sent ≡ sent ++ m ∷ []
        → finished.sent
          ≡ (sent ++ m ∷ map (raw_message fl no_image node) (qs ++ q ∷ []))
            ++ image_sent (image_of fl between full_image) ∷ []
    sent-finished sent m e =
        ap (λ s. s ++ image_sent (image_of fl between full_image) ∷ [])
          (ap₂ (λ s n. s ++ raw_message fl no_image (record node { tx_frame_id = n }) q ∷ []) p.sent
              p.frame
            ∙ ap
                (λ s.
                  (s ++ map (raw_message fl no_image node) qs)
                  ++ raw_message fl no_image node q ∷ [])
                e
            ∙ sent_in_order (raw_message fl no_image node) qs q sent m)

    publish_all-finished :
        IsStarted fl no_image (of_h0 H0.ping_number h) nb nw (begun fl no_image h a)
        → reaches_end q ≡ true
        → publish_all fl no_image (map packet qs) node ≡ ok between
        → publish_all fl no_image (map packet (qs ++ q ∷ [])) node ≡ ok finished
    publish_all-finished start last run =
        ap (λ l. publish_all fl no_image l node) (map-append packet qs (q ∷ []))
        ∙ publish_all-append fl no_image (map packet qs) (packet q ∷ []) node between run
        ∙ ap (λ m. m >>= λ n. ok n)
            (publish-last fl no_image (of_h0 H0.ping_number h) nb nw q
              (collect (of_h0 H0.ping_number h) nb nw fl qs (begun fl no_image h a)) between p.ready
              later (collect-IsStarted fl no_image h a nb nw qs start) p.assembler last)

  -- The packets of a ping whose image is not begun: the first one has H0 and A1, the others parts
  -- of the image, of which only the last one reaches the last bin. From a node with both publishers
  -- and free mutexes `publish` sends every raw packet, in order, and then the image of the ping,
  -- with all that H0 and A1 say and in every cell the byte of the last part that covers it, or zero
  -- if none does. The mutexes are free again, and the ping has no assembler any more. The sections
  -- hold what the beam count asks for, the parts lie within the image, with bins that end at 65536
  -- at most and an image of at most 2 ^ 31 cells, belong to the ping and state the same numbers of
  -- bins and beams, sizes fit 16 bits, what follows the sections does not begin like one of them,
  -- the sizes in the headers have 32 bits and, modulo 65536, are not above the buffers' lengths,
  -- and a new message has an empty image.
  pub publish_ping :
      (size stream : ℕ) (rest : Bytes) (nb nw : ℕ) (qs : List LaterPacket) (q : LaterPacket)
      (node : Node fl)
      → HasBytes 112 h
      → HasBytes (24 + 4 * of_h0 H0.beams h) a
      → IsSmall (image_contents (some h) (some a) none)
      → IsTail image_kinds rest
      → StatesSize size stream (first_body h a rest)
      → All (IsLater (of_h0 H0.ping_number h) nb nw) qs
      → All (λ q. reaches_end q ≡ false) qs
      → IsLater (of_h0 H0.ping_number h) nb nw q
      → reaches_end q ≡ true
      → find (of_h0 H0.ping_number h) node.assemblers ≡ none
      → no_image.image ≡ []
      → IsReady fl node
      → (after : Node fl) × (img : RawSonarImage fl) × (publish_all fl no_image
            (first_packet h (some a) none size stream rest ∷ map packet (qs ++ q ∷ []))
            node
          ≡ ok after)
        × (after.sent
            ≡ (node.sent
                ++ raw_aid0_sent (raw_start node size stream rest)
                  ∷ map (raw_message fl no_image node) (qs ++ q ∷ []))
              ++ image_sent img ∷ [])
        × ShowsPing fl no_image h a nb nw node.tx_frame_id (qs ++ q ∷ []) img
        × (after.locks ≡ all_free)
        × (find (of_h0 H0.ping_number h) after.assemblers ≡ none)
  publish_ping size stream rest nb nw qs q node full angles small tail stated laters more later last
        unknown empty ready =
      let ping_no = of_h0 H0.ping_number h in
      let asm : Assembler fl = begun fl no_image h a in
      let node' = stored fl (seen fl node (raw_start node size stream rest)) ping_no asm in
      let start = begun-IsStarted fl no_image h a nb nw full in
      let first : publish_aid0 fl no_image (first_packet h (some a) none size stream rest) node
          ≡ ok node' =
        publish_aid0-begun fl no_image h a size stream rest node full angles small tail stated
          unknown ready in
      let (between, run, p) =
        publish_all-parts fl no_image ping_no nb nw qs asm node' laters more
          (record { free = refl; raws = ready.raws; images = ready.images }) start
          (find-put_same ping_no asm node.assemblers) in
      (
        finished nb nw qs q node' between p later,
        image_of fl between (full_image nb nw qs q node' between p later),
        ap (λ m. m >>= publish_all fl no_image (map packet (qs ++ q ∷ []))) first
            ∙ publish_all-finished nb nw qs q node' between p later start last run,
        sent-finished nb nw qs q node' between p later node.sent _ refl,
        subst
            (λ x.
              ShowsPing fl no_image h a nb nw node.tx_frame_id (qs ++ q ∷ [])
                (image_of fl between x))
            (collect-append ping_no nb nw fl qs q asm)
            (shows fl no_image h a nb nw qs q node.tx_frame_id laters later empty between p.frame),
        refl,
        find-forgotten ping_no _,
      )
