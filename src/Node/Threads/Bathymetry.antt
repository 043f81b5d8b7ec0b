-- ===== src/Node/Threads/Bathymetry.antt =====
-- The thread of the bathymetry on its own part of the node.
use ros2sonic.Prelude.{
  select, select-append, false, [], ◌∷◌, ◌++◌, append-nil, ◌≡◌, refl, Bool-cases, inl, inr,
  if◌then◌else◌,
}
use ros2sonic.Outcome.{Outcome, ok, ◌>>=◌}
use ros2sonic.Floats.{Floats}
use ros2sonic.Conversions.{packet2_raw_packet}
use ros2sonic.Conversions.Detections.{bth02_sonar_detections}
use ros2sonic.Node.Publish.{
  Node, lock, detections_sent, raw_bth0_sent, should_publish, publish_detections, publish_raw_bth0,
}
use ros2sonic.Node.Worker.{mapped, mapped-same, IfOk, IfOk-bind}
use ros2sonic.Node.Threads.{
  BathymetryAction, lock_dectections, lock_bth0, send_detections, send_bth0, unlock_dectections,
  unlock_bth0, do_bathymetry,
}
use ros2sonic.Node.Threads.Parts.{
  of_bathymetry, of_images, BathymetryPart, bathymetry_part, image_part,
}

module _ (fl : Floats) where
  -- The actions on the thread's own part.
  abbrev pub bathymetry_alone : BathymetryAction → BathymetryPart fl → Outcome (BathymetryPart fl)
  bathymetry_alone lock_dectections v = do
    d ← lock v.dectections_held
    ok (record v { dectections_held = d })
  bathymetry_alone lock_bth0 v = do b ← lock v.bth0_held; ok (record v { bth0_held = b })
  bathymetry_alone (send_detections pkt) v =
      if should_publish fl v.has_dectections
      then (do
        msg ← bth02_sonar_detections fl pkt v.detections
        let msg' = record msg { header = record (msg.header) { frame_id = v.frame_id } }
        ok (record v { detections = msg'; messages = v.messages ++ detections_sent msg' ∷ [] }))
      else ok v
  bathymetry_alone (send_bth0 pkt) v =
      if should_publish fl v.has_bth0
      then (do
        msg ← packet2_raw_packet pkt v.raw
        let msg' = record msg { frame_id = v.frame_id }
        ok (record v { raw = msg'; messages = v.messages ++ raw_bth0_sent msg' ∷ [] }))
      else ok v
  bathymetry_alone unlock_dectections v = ok (record v { dectections_held = false })
  bathymetry_alone unlock_bth0 v = ok (record v { bth0_held = false })

  pub bathymetry-law :
      (a : BathymetryAction) (node : Node fl)
      → mapped (bathymetry_part fl) (do_bathymetry fl a node)
        ≡ bathymetry_alone a (bathymetry_part fl node)
  unfolding do_bathymetry publish_detections publish_raw_bth0
  bathymetry-law lock_dectections node = elim (Bool-cases node.locks.dectections) [
    | inl held ↦ rw held
    | inr free ↦ rw free
  ]
  bathymetry-law lock_bth0 node = elim (Bool-cases node.locks.bth0) [
    | inl held ↦ rw held
    | inr free ↦ rw free
  ]
  bathymetry-law (send_detections pkt) node = elim (Bool-cases node.dectections_pub) [
    | inl there ↦ rw there (
        mapped-same (bathymetry_part fl) (bth02_sonar_detections fl pkt node.dectections_msg) _ _
          (λ msg. rw (select-append (of_bathymetry fl) node.sent)))
    | inr missing ↦ rw missing
  ]
  bathymetry-law (send_bth0 pkt) node = elim (Bool-cases node.bth0_pub) [
    | inl there ↦ rw there (
        mapped-same (bathymetry_part fl) (packet2_raw_packet pkt node.bth0_msg) _ _
          (λ msg. rw (select-append (of_bathymetry fl) node.sent)))
    | inr missing ↦ rw missing
  ]
  bathymetry-law unlock_dectections node = refl
  bathymetry-law unlock_bth0 node = refl

  -- The images' part of the node stays as it is.
  pub do_bathymetry-keeps :
      (a : BathymetryAction) (node : Node fl)
      → IfOk (λ n. (image_part fl) n ≡ (image_part fl) node) (do_bathymetry fl a node)
  unfolding do_bathymetry publish_detections publish_raw_bth0
  do_bathymetry-keeps lock_dectections node =
      IfOk-bind _ (lock node.locks.dectections) _ (λ d. refl)
  do_bathymetry-keeps lock_bth0 node = IfOk-bind _ (lock node.locks.bth0) _ (λ b. refl)
  do_bathymetry-keeps (send_detections pkt) node = elim (Bool-cases node.dectections_pub) [
    | inl there ↦ rw there (
        IfOk-bind _ (bth02_sonar_detections fl pkt node.dectections_msg) _ (λ msg.
          rw
            (select-append (of_images fl) node.sent, append-nil (select (of_images fl) node.sent))))
    | inr missing ↦ rw missing refl
  ]
  do_bathymetry-keeps (send_bth0 pkt) node = elim (Bool-cases node.bth0_pub) [
    | inl there ↦ rw there (
        IfOk-bind _ (packet2_raw_packet pkt node.bth0_msg) _ (λ msg.
          rw
            (select-append (of_images fl) node.sent, append-nil (select (of_images fl) node.sent))))
    | inr missing ↦ rw missing refl
  ]
  do_bathymetry-keeps unlock_dectections node = refl
  do_bathymetry-keeps unlock_bth0 node = refl
