-- ===== src/Node/Publish/Stream/Passes.antt =====
-- Every call of `publish` returns on whole packets.
use ros2sonic.Prelude.{
  Option, ltb, if◌then◌else◌, ◌≤◌, ◌+◌, ℕ, ◌≡◌, ◌≢◌, refl, sym, ap, ap₂, ◌∙◌, Bool, Bool-cases, inl,
  inr, none, List, [], ◌∷◌, ◌++◌, map, append-nil, append_assoc, select, All, ◌==◌, arith,
}
use ros2sonic.Outcome.{ok}
use ros2sonic.Floats.{Floats}
use ros2sonic.Conversions.Assembler.{RawSonarImage}
use ros2sonic.Node.MsgMap.{find}
use ros2sonic.Node.MsgMap.Clean.{find-put}
use ros2sonic.Node.Publish.Image.{find-completed}
use ros2sonic.Node.Worker.{in_turn}
use ros2sonic.Node.Publish.{Node, assembler_for, publish_aid0}
use ros2sonic.Node.Publish.Calls.{framed, publish_aid0-stored, publish_aid0-completed}
use ros2sonic.Node.Publish.Stream.{
  ImagePacket, image_packet, size_of, stream_of, body_in, IsWhole, IsSound, number_of, may_complete,
  remembers, ComesInOrder, InOrder, begun_in, Knows, Passed, raw_message, is_raw_aid0,
  Passed-stored, Passed-completed,
}
use ros2sonic.Node.Publish.Stream.Whole.{
  get_ping_no-number_of, StatesSize-IsWhole, number_of-lt, add_packet-whole, Meets-ComesInOrder,
}
use ros2sonic.Node.Publish.Stream.Known.{stored-Knows, completed-Knows}

passed_by {ℓ} :
    {A : Type ℓ} (u v : Option A) (k ping_no : ℕ)
    → k ≢ ping_no
    → (if ping_no == k then u else v) ≡ v
passed_by u v k ping_no other = ground arith

untouched {ℓ} :
    {A : Type ℓ} {v : Option A} (k ping_no : ℕ)
    → k ≢ ping_no
    → ping_no ≤ k + 10
    → (if ltb (k + 10) ping_no then none else if ping_no == k then none else v) ≡ v
untouched k ping_no other near = ground arith

module _ {fl : Floats} where
  -- The assemblers of other pings, but for those that are more than ten before this one.
  abbrev pub KeepsOthers : ℕ → Node fl → Node fl → Type 0
  KeepsOthers ping_no node after =
      (k : ℕ)
      → k ≢ ping_no
      → 10 ≤ ping_no
      → ping_no ≤ k + 10
      → find k after.assemblers ≡ find k node.assemblers

  pub publish_aid0-whole :
      (no_image : RawSonarImage fl) (known : ℕ → Bool) (p : ImagePacket) (node : Node fl)
      → ComesInOrder known p
      → Knows known node
      → IsWhole p
      → IsSound node
      → (after : Node fl) × (publish_aid0 fl no_image (image_packet p) node ≡ ok after)
        × Passed (p ∷ []) node after
        × KeepsOthers (number_of p) node after
        × Knows (remembers p known) after
  publish_aid0-whole no_image known p node order knows whole sound =
      let ping_no = number_of p in
      let stated = StatesSize-IsWhole p whole in
      let asm = assembler_for fl no_image ping_no node.assemblers in
      let (complete, added, step, kept, ends) =
        add_packet-whole p asm whole (Meets-ComesInOrder no_image known p node order knows sound) in
      elim (Bool-cases complete) [
        | inl done ↦ (
          _,
          publish_aid0-completed fl (size_of p) (stream_of p) (body_in p) ping_no no_image added
              node sound.ready stated.narrow stated.fits (get_ping_no-number_of p whole)
              (step ∙ ap (λ t. ok (t, added)) done),
          Passed-completed p ping_no added node sound kept,
          λ k other low near.
              find-completed ping_no k (framed fl node added) node.assemblers low
                (number_of-lt p whole)
              ∙ untouched k ping_no other near,
          λ k.
              completed-Knows known (may_complete p) ping_no k (framed fl node added)
                node.assemblers (knows k) (ends done),
        )
        | inr more ↦ (
          _,
          publish_aid0-stored fl (size_of p) (stream_of p) (body_in p) ping_no no_image added node
              sound.ready stated.narrow stated.fits (get_ping_no-number_of p whole)
              (step ∙ ap (λ t. ok (t, added)) more),
          Passed-stored p ping_no added node sound kept,
          λ k other low near.
              find-put ping_no k added node.assemblers ∙ passed_by _ _ k ping_no other,
          λ k. stored-Knows known (may_complete p) ping_no k added node.assemblers (knows k),
        )
      ]

  -- Every call of `publish` returns, with neither an exception nor undefined behaviour, on whole
  -- packets whose parts come while their ping has an assembler; packets of a ping may be missing,
  -- come twice or out of order otherwise, and pings may be mixed. The mutexes are free and the node
  -- is ready for the next packet, and every raw packet is sent, in the order of the packets. A ping
  -- has an assembler if it has one at the beginning or since its first packet, until a part of it
  -- reaches the last bin, or a part of another ping does for which it is too old. Whole means that
  -- the sections of a packet hold what their numbers ask for, a part lies within its image, with
  -- bins that end at 65536 at most and an image of at most 2 ^ 31 cells, sizes fit 16 bits, what
  -- follows the sections does not begin like one of them, and the size in the header has 32 bits
  -- and, modulo 65536, is not above the buffer's length. At the beginning both publishers exist,
  -- the mutexes are free and every assembler has got an H0 body of 112 bytes.
  pub in_turn-whole :
      (no_image : RawSonarImage fl) (ps : List ImagePacket) (node : Node fl)
      → All IsWhole ps
      → InOrder (begun_in node) ps
      → IsSound node
      → (after : Node fl) × (in_turn (publish_aid0 fl no_image) (map image_packet ps) node
          ≡ ok after)
        × Passed ps node after
  in_turn-whole no_image ps node whole order sound =
      from (begun_in node) ps node whole order (λ k e. e) sound
    where
      from :
          (known : ℕ → Bool) (ps : List ImagePacket) (node : Node fl)
          → All IsWhole ps
          → InOrder known ps
          → Knows known node
          → IsSound node
          → (after : Node fl) × (in_turn (publish_aid0 fl no_image) (map image_packet ps) node
              ≡ ok after)
            × Passed ps node after
      from known [] node whole order knows sound =
          (node, refl, record { sound = sound; frame = refl; raws = sym (append-nil _) })
      from known (p ∷ ps) node whole order knows sound =
          let (n, call, passed, others, knows') =
            publish_aid0-whole no_image known p node order.0 knows whole.0 sound in
          let (after, run, rest) =
            from (remembers p known) ps n whole.1 order.1 knows' passed.sound in
          (
            after,
            rw call run,
            record {
              sound = rest.sound;
              frame = rest.frame ∙ passed.frame;
              raws =
                  rest.raws
                  ∙ ap₂ (λ s f. s ++ map (raw_message (record node { tx_frame_id = f })) ps)
                      passed.raws passed.frame
                  ∙ append_assoc (select is_raw_aid0 node.sent) (raw_message node p ∷ [])
                      (map (raw_message node) ps);
            },
          )
