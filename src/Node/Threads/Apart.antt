-- ===== src/Node/Threads/Apart.antt =====
-- However the two threads' actions are interleaved, neither keeps the other waiting, and each does
-- what it does alone.
use ros2sonic.Prelude.{List, [], ◌≡◌, refl, sym, ap, ◌∙◌}
use ros2sonic.Outcome.{ok}
use ros2sonic.Floats.{Floats}
use ros2sonic.Packet.{Packet}
use ros2sonic.Conversions.Assembler.{RawSonarImage}
use ros2sonic.Node.Publish.{Node, publish_bth0, publish_aid0}
use ros2sonic.Node.Worker.{
  Thread, alone, done, IsFree, mapped, in_turn, each-in_turn, alone-part, part-Move, part-IsFree,
  part-done, keeps-Move, Moves, no_move, first_move, part-Moves,
}
use ros2sonic.Node.Threads.{
  BathymetryAction, ImageAction, System, Step, bathymetry_moves, image_moves, Reach, here, next,
  bathymetry_code, image_code, do_bathymetry, do_image,
}
use ros2sonic.Node.Threads.Parts.{bathymetry_part, image_part}
use ros2sonic.Node.Threads.Bathymetry.{bathymetry_alone, bathymetry-law, do_bathymetry-keeps}
use ros2sonic.Node.Threads.Images.{image_alone, image-law, do_image-keeps}
use ros2sonic.Node.Threads.Sequential.{run-publish_bth0, run-publish_aid0}

module _ (fl : Floats) where
  -- The threads with these packets before them.
  abbrev pub start : List Packet → List Packet → Node fl → System fl
  start soundings images node = record {
    node = node;
    bathymetry = record { todo = []; packets = soundings };
    image = record { todo = []; packets = images };
  }

module _ {fl : Floats} {no_image : RawSonarImage fl} {s : System fl} where
  Reach-bathymetry :
      {t : System fl} {thread' : Thread BathymetryAction Packet} {node' : Node fl}
      → Reach fl no_image s t
      → Moves (do_bathymetry fl) bathymetry_code t.bathymetry t.node thread' node'
      → Reach fl no_image s (record t { node = node'; bathymetry = thread' })
  Reach-bathymetry r no_move = r
  Reach-bathymetry r (first_move m ms) = Reach-bathymetry (next r (bathymetry_moves m)) ms

  Reach-image :
      {t : System fl} {thread' : Thread ImageAction Packet} {node' : Node fl}
      → Reach fl no_image s t
      → Moves (do_image fl no_image) image_code t.image t.node thread' node'
      → Reach fl no_image s (record t { node = node'; image = thread' })
  Reach-image r no_move = r
  Reach-image r (first_move m ms) = Reach-image (next r (image_moves m)) ms

module _ (fl : Floats) (no_image : RawSonarImage fl) (soundings images : List Packet)
    (node after_soundings after_images : Node fl)
    (sounded : in_turn (publish_bth0 fl) soundings node ≡ ok after_soundings)
    (imaged : in_turn (publish_aid0 fl no_image) images node ≡ ok after_images) where
  -- What each thread makes of its own part from here on.
  record IsOnCourse (s : System fl) : Type 0 where
    bathymetry :
        alone (bathymetry_alone fl) bathymetry_code s.bathymetry (bathymetry_part fl s.node)
        ≡ ok (bathymetry_part fl after_soundings)
    image :
        alone (image_alone fl no_image) image_code s.image (image_part fl s.node)
        ≡ ok (image_part fl after_images)

  start-IsOnCourse : IsOnCourse (start fl soundings images node)
  start-IsOnCourse = record {
    bathymetry =
        sym (
          alone-part (do_bathymetry fl) bathymetry_code (bathymetry_part fl) (bathymetry_alone fl)
            (bathymetry-law fl) (start fl soundings images node).bathymetry node)
        ∙ ap (mapped (bathymetry_part fl)) (
            each-in_turn (do_bathymetry fl) bathymetry_code (publish_bth0 fl) (run-publish_bth0 fl)
              soundings node
            ∙ sounded);
    image =
        sym (
          alone-part (do_image fl no_image) image_code (image_part fl) (image_alone fl no_image)
            (image-law fl no_image) (start fl soundings images node).image node)
        ∙ ap (mapped (image_part fl)) (
            each-in_turn (do_image fl no_image) image_code (publish_aid0 fl no_image)
              (run-publish_aid0 fl no_image) images node
            ∙ imaged);
  }

  Step-IsOnCourse : {s t : System fl} → Step fl no_image s t → IsOnCourse s → IsOnCourse t
  Step-IsOnCourse {s = s} (bathymetry_moves m) course = record {
    bathymetry =
        sym (
          part-Move (do_bathymetry fl) bathymetry_code (bathymetry_part fl) (bathymetry_alone fl)
            (bathymetry-law fl) m)
        ∙ course.bathymetry;
    image =
        ap (alone (image_alone fl no_image) image_code s.image)
          (keeps-Move (image_part fl) (do_bathymetry-keeps fl) m)
        ∙ course.image;
  }
  Step-IsOnCourse {s = s} (image_moves m) course = record {
    bathymetry =
        ap (alone (bathymetry_alone fl) bathymetry_code s.bathymetry)
          (keeps-Move (bathymetry_part fl) (do_image-keeps fl no_image) m)
        ∙ course.bathymetry;
    image =
        sym (
          part-Move (do_image fl no_image) image_code (image_part fl) (image_alone fl no_image)
            (image-law fl no_image) m)
        ∙ course.image;
  }

  Reach-IsOnCourse :
      {s : System fl} → Reach fl no_image (start fl soundings images node) s → IsOnCourse s
  Reach-IsOnCourse here = start-IsOnCourse
  Reach-IsOnCourse (next r step) = Step-IsOnCourse step (Reach-IsOnCourse r)

  -- When each thread's calls of `publish` return if they are made alone, then in every state that
  -- an interleaving of their actions reaches, each thread has ended or can do its next action at
  -- once: neither waits for a mutex, and neither runs into an exception or undefined behaviour.
  pub Reach-IsFree :
      {s : System fl}
      → Reach fl no_image (start fl soundings images node) s
      → IsFree (do_bathymetry fl) bathymetry_code s.bathymetry s.node
        × IsFree (do_image fl no_image) image_code s.image s.node
  Reach-IsFree {s = s} r =
      let course = Reach-IsOnCourse r in
      (
        part-IsFree (do_bathymetry fl) bathymetry_code (bathymetry_part fl) (bathymetry_alone fl)
            (bathymetry-law fl) s.bathymetry s.node (bathymetry_part fl after_soundings)
            course.bathymetry,
        part-IsFree (do_image fl no_image) image_code (image_part fl) (image_alone fl no_image)
            (image-law fl no_image) s.image s.node (image_part fl after_images) course.image,
      )

  -- From every state that an interleaving reaches, both threads can still come to their ends.
  pub Reach-ends :
      {s : System fl}
      → Reach fl no_image (start fl soundings images node) s
      → (t : System fl) × Reach fl no_image (start fl soundings images node) t
        × (t.bathymetry ≡ done)
        × (t.image ≡ done)
  Reach-ends {s = s} r =
      let (n, ms) =
        part-Moves (do_bathymetry fl) bathymetry_code (bathymetry_part fl) (bathymetry_alone fl)
          (bathymetry-law fl) s.bathymetry s.node (bathymetry_part fl after_soundings)
          (Reach-IsOnCourse r).bathymetry in
      let r' = Reach-bathymetry r ms in
      let (n', ms') =
        part-Moves (do_image fl no_image) image_code (image_part fl) (image_alone fl no_image)
          (image-law fl no_image) s.image n (image_part fl after_images)
          (Reach-IsOnCourse r').image in
      (record { node = n'; bathymetry = done; image = done }, Reach-image r' ms', refl, refl)

  -- When each thread's calls of `publish` return if they are made alone, and an interleaving of
  -- their actions has brought both to their ends, then each thread's messages, mutexes and
  -- assemblers are what its calls alone make of them, and on its topics it has sent the same
  -- messages in the same order.
  pub Reach-done :
      {s : System fl}
      → Reach fl no_image (start fl soundings images node) s
      → s.bathymetry ≡ done
      → s.image ≡ done
      → (bathymetry_part fl s.node ≡ bathymetry_part fl after_soundings)
        × (image_part fl s.node ≡ image_part fl after_images)
  Reach-done {s = s} r ended ended' =
      let course = Reach-IsOnCourse r in
      (
        part-done (do_bathymetry fl) bathymetry_code (bathymetry_part fl) (bathymetry_alone fl)
            (bathymetry-law fl) s.bathymetry s.node (bathymetry_part fl after_soundings) ended
            course.bathymetry,
        part-done (do_image fl no_image) image_code (image_part fl) (image_alone fl no_image)
            (image-law fl no_image) s.image s.node (image_part fl after_images) ended' course.image,
      )
