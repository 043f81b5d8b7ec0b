-- ===== src/Node/Publish/Stream/Among.antt =====
-- The packets of one ping among those of others.
use mathlib.Core.Path.{subst}
use ros2sonic.Prelude.{
  ℕ, ◌+◌, ◌*◌, ◌≤◌, ◌≡◌, ◌≢◌, refl, ap, ◌∙◌, Bool, true, false, Bool-cases, inl, inr, ◌==◌, none,
  some, List, [], ◌∷◌, ◌++◌, map, map-append, All,
}
use ros2sonic.Outcome.{ok, ◌>>=◌}
use ros2sonic.Memory.{Bytes}
use ros2sonic.Floats.{Floats}
use ros2sonic.Section.H0
use ros2sonic.Packet.{Packet}
use ros2sonic.Packet.Sequence.{IsSmall, IsTail}
use ros2sonic.Packet.Sequence.Image.{image_kinds}
use ros2sonic.Conversions.Assembler.{Assembler, RawSonarImage}
use ros2sonic.Conversions.Assembler.Parts.{of_h0, extended}
use ros2sonic.Conversions.Assembler.Packets.{image_contents, first_packet}
use ros2sonic.Conversions.Assembler.Collect.{
  LaterPacket, IsLater, StatesSize, packet, body_of, reaches_end, collect, collect-append,
}
use ros2sonic.Conversions.Detections.Spec.{HasBytes}
use ros2sonic.Node.MsgMap.{find, put}
use ros2sonic.Node.MsgMap.Every.{is_there}
use ros2sonic.Node.MsgMap.Clean.{find-put, find-put_same}
use ros2sonic.Node.Worker.{in_turn}
use ros2sonic.Node.Publish.{Node, Message, image_sent, publish_aid0}
use ros2sonic.Node.Publish.Calls.{raw_of, seen, image_of, completed, stored}
use ros2sonic.Node.Publish.Parts.{
  IsStarted, advanced, publish_all-append, publish-part, publish-last,
}
use ros2sonic.Node.Publish.Begun.{
  ShowsPing, first_body, begun, begun-IsStarted, collect-IsStarted, publish_aid0-begun, shows,
}
use ros2sonic.Node.Publish.Ping.{find-forgotten}
use ros2sonic.Node.Publish.Stream.{
  ImagePacket, first, later, image_packet, IsWhole, number_of, remembers, InOrder, begun_in, Knows,
  IsSound, Passed-stored,
}
use ros2sonic.Node.Publish.Stream.Passes.{publish_aid0-whole}

-- A packet that comes between the first and the last one of a ping: one of its parts, or a packet
-- of another ping.
pub data Between : Type 0 where
  own : LaterPacket → Between
  other : ImagePacket → Between

abbrev pub packet_between : Between → Packet
packet_between (own q) = packet q
packet_between (other p) = image_packet p

abbrev pub own_parts : List Between → List LaterPacket
own_parts [] = []
own_parts (own q ∷ bs) = q ∷ own_parts bs
own_parts (other p ∷ bs) = own_parts bs

abbrev pub others : List Between → List ImagePacket
others [] = []
others (own q ∷ bs) = others bs
others (other p ∷ bs) = p ∷ others bs

-- The ping's own parts do not reach the last bin; the other pings are from ten on, and not more
-- than ten behind this one.
abbrev pub ComesBetween : ℕ → ℕ → ℕ → Between → Type 0
ComesBetween ping_no nb nw (own q) = IsLater ping_no nb nw q × (reaches_end q ≡ false)
ComesBetween ping_no nb nw (other p) =
    IsWhole p × (ping_no ≢ number_of p) × (10 ≤ number_of p) × (number_of p ≤ ping_no + 10)

put-Knows :
    {fl : Floats} (known : ℕ → Bool) (ping_no : ℕ) (v : Assembler fl) (node : Node fl)
    → Knows known node
    → (k : ℕ) → known k ≡ true
    → is_there (find k (put ping_no v node.assemblers)) ≡ true
put-Knows known ping_no v node knows k e =
    ap is_there (find-put ping_no k v node.assemblers)
    ∙ elim (Bool-cases (ping_no == k)) [ inl same ↦ rw same | inr differs ↦ rw differs (knows k e) ]

module _ (fl : Floats) (no_image : RawSonarImage fl) (ping_no nb nw : ℕ) where
  ComesBetween-parts :
      (bs : List Between)
      → All (ComesBetween ping_no nb nw) bs
      → All (IsLater ping_no nb nw) (own_parts bs)
  ComesBetween-parts [] h = tt
  ComesBetween-parts (own q ∷ bs) h = (h.0.0, ComesBetween-parts bs h.1)
  ComesBetween-parts (other p ∷ bs) h = ComesBetween-parts bs h.1

  record Gathered (bs : List Between) (asm : Assembler fl) (node after : Node fl) : Type 0 where
    sound : IsSound after
    frame : after.tx_frame_id ≡ node.tx_frame_id
    assembler : find ping_no after.assemblers ≡ some (collect ping_no nb nw fl (own_parts bs) asm)

  in_turn-Between :
      (known : ℕ → Bool) (bs : List Between) (asm : Assembler fl) (node : Node fl)
      → All (ComesBetween ping_no nb nw) bs
      → InOrder known (others bs)
      → Knows known node
      → IsSound node
      → IsStarted fl no_image ping_no nb nw asm
      → find ping_no node.assemblers ≡ some asm
      → (after : Node fl) × (in_turn (publish_aid0 fl no_image) (map packet_between bs) node
          ≡ ok after)
        × Gathered bs asm node after
  in_turn-Between known [] asm node h order knows sound start kept =
      (node, refl, record { sound = sound; frame = refl; assembler = kept })
  in_turn-Between known (own q ∷ bs) asm node h order knows sound start kept =
      let next = advanced fl no_image ping_no nb nw q asm node in
      let (after, run, g) =
        in_turn-Between known bs (extended fl q.part asm) next h.1 order
          (put-Knows known ping_no (extended fl q.part asm) node knows)
          (Passed-stored (later q) ping_no (extended fl q.part asm) node sound
            (start.body, start.held, start.whole)).sound
          (record { body = start.body; held = start.held; whole = start.whole; ping = start.ping })
          (find-put_same ping_no (extended fl q.part asm) node.assemblers) in
      (
        after,
        rw (publish-part fl no_image ping_no nb nw q asm node sound.ready h.0.0 start kept h.0.1)
            run,
        record { sound = g.sound; frame = g.frame; assembler = g.assembler },
      )
  in_turn-Between known (other p ∷ bs) asm node h order knows sound start kept =
      let (n, call, passed, keeps, knows') =
        publish_aid0-whole no_image known p node order.0 knows h.0.0 sound in
      let (after, run, g) =
        in_turn-Between (remembers p known) bs asm n h.1 order.1 knows' passed.sound start
          (keeps ping_no h.0.1 h.0.2 h.0.3 ∙ kept) in
      (
        after,
        rw call run,
        record { sound = g.sound; frame = g.frame ∙ passed.frame; assembler = g.assembler },
      )

module _ (fl : Floats) (no_image : RawSonarImage fl) (h a : Bytes) where
  -- The packets of a ping whose image is not begun come with packets of other pings between them:
  -- the first one has H0 and A1, and of the parts only the last one reaches the last bin. Every
  -- call of `publish` returns, and the last message that goes out is the image of the ping, with
  -- all that H0 and A1 say and in every cell the byte of the last of the ping's own parts that
  -- covers it, or zero if none does: no byte of another ping. The ping then has no assembler any
  -- more. The other packets are whole and their parts come while their pings have an assembler;
  -- their pings have numbers from ten on and are not more than ten behind this one; the ping's own
  -- sections hold what the beam count asks for, its parts state the same numbers of bins and beams,
  -- the parts of all packets lie within their images, with bins that end at 65536 at most and
  -- images of at most 2 ^ 31 cells, sizes fit 16 bits, what follows the sections does not begin
  -- like one of them, and the sizes in the headers have 32 bits and, modulo 65536, are not above
  -- the buffers' lengths. Both publishers exist and the mutexes are free, every assembler of its
  -- map has got an H0 body of 112 bytes, and a new message has an empty image.
  pub publish_ping_among :
      (size stream : ℕ) (rest : Bytes) (nb nw : ℕ) (bs : List Between) (q : LaterPacket)
      (node : Node fl)
      → HasBytes 112 h
      → HasBytes (24 + 4 * of_h0 H0.beams h) a
      → IsSmall (image_contents (some h) (some a) none)
      → IsTail image_kinds rest
      → StatesSize size stream (first_body h a rest)
      → All (ComesBetween (of_h0 H0.ping_number h) nb nw) bs
      → IsLater (of_h0 H0.ping_number h) nb nw q
      → reaches_end q ≡ true
      → find (of_h0 H0.ping_number h) node.assemblers ≡ none
      → no_image.image ≡ []
      → InOrder (begun_in node) (others bs)
      → IsSound node
      → (after : Node fl) × (before : List (Message fl)) × (img : RawSonarImage fl) × (in_turn
            (publish_aid0 fl no_image)
            (first_packet h (some a) none size stream rest ∷ map packet_between (bs ++ own q ∷ []))
            node
          ≡ ok after)
        × (after.sent ≡ before ++ image_sent img ∷ [])
        × ShowsPing fl no_image h a nb nw node.tx_frame_id (own_parts bs ++ q ∷ []) img
        × (find (of_h0 H0.ping_number h) after.assemblers ≡ none)
  publish_ping_among size stream rest nb nw bs q node full angles small tail stated between later_q
        last unknown empty order sound =
      let ping_no = of_h0 H0.ping_number h in
      let asm = begun fl no_image h a in
      let raw = raw_of fl node size stream (first_body h a rest) in
      let start = begun-IsStarted fl no_image h a nb nw full in
      let begin =
        publish_aid0-begun fl no_image h a size stream rest node full angles small tail stated
          unknown sound.ready in
      let (mid, run, g) =
        in_turn-Between fl no_image ping_no nb nw (begun_in node) bs asm
          (stored fl (seen fl node raw) ping_no asm) between order
          (put-Knows (begun_in node) ping_no asm node (λ k e. e))
          (Passed-stored (first h a none size stream rest) ping_no asm node sound
            (start.body, start.held, start.whole)).sound
          start (find-put_same ping_no asm node.assemblers) in
      let whole = collect ping_no nb nw fl (own_parts bs) asm in
      let send =
        publish-last fl no_image ping_no nb nw q whole mid g.sound.ready later_q
          (collect-IsStarted fl no_image h a nb nw (own_parts bs) start) g.assembler last in
      (
        completed fl (seen fl mid (raw_of fl mid q.size q.stream (body_of q))) ping_no
            (extended fl q.part whole),
        _,
        image_of fl mid (extended fl q.part whole),
        ap (λ m. m >>= in_turn (publish_aid0 fl no_image) (map packet_between (bs ++ own q ∷ [])))
              begin
            ∙ ap
                (λ l.
                  in_turn (publish_aid0 fl no_image) l (stored fl (seen fl node raw) ping_no asm))
                (map-append packet_between bs (own q ∷ []))
            ∙ publish_all-append fl no_image (map packet_between bs) (packet q ∷ []) _ mid run
            ∙ ap (λ m. m >>= λ n. ok n) send,
        refl,
        subst
            (λ x.
              ShowsPing fl no_image h a nb nw node.tx_frame_id (own_parts bs ++ q ∷ [])
                (image_of fl mid x))
            (collect-append ping_no nb nw fl (own_parts bs) q asm)
            (shows fl no_image h a nb nw (own_parts bs) q node.tx_frame_id
              (ComesBetween-parts fl no_image ping_no nb nw bs between) later_q empty mid g.frame),
        find-forgotten ping_no _,
      )
