-- ===== src/Node/Threads/Images.antt =====
-- The thread of the images on its own part of the node.
use ros2sonic.Prelude.{
  select, select-append, false, [], ◌∷◌, ◌++◌, append-nil, ◌≡◌, refl, Bool-cases, inl, inr,
  if◌then◌else◌,
}
use ros2sonic.Outcome.{Outcome, ok, ◌>>=◌}
use ros2sonic.Floats.{Floats}
use ros2sonic.Packet.Aid0
use ros2sonic.Conversions.{packet2_raw_packet}
use ros2sonic.Conversions.Assembler.{add_packet, RawSonarImage}
use ros2sonic.Node.MsgMap.{put, erase, clean_msg_map}
use ros2sonic.Node.Publish.{
  Node, lock, raw_aid0_sent, image_sent, should_publish, assembler_for, publish_raw_aid0,
  publish_image,
}
use ros2sonic.Node.Worker.{mapped, mapped-same, IfOk, IfOk-bind}
use ros2sonic.Node.Threads.{
  ImageAction, lock_aid0, lock_acoustic_image, number, send_aid0, send_image, unlock_aid0,
  unlock_acoustic_image, do_image,
}
use ros2sonic.Node.Threads.Parts.{of_bathymetry, of_images, ImagePart, bathymetry_part, image_part}

module _ (fl : Floats) where
  -- The actions on the thread's own part.
  abbrev pub image_alone : RawSonarImage fl → ImageAction → ImagePart fl → Outcome (ImagePart fl)
  image_alone no_image lock_aid0 v = do a ← lock v.aid0_held; ok (record v { aid0_held = a })
  image_alone no_image lock_acoustic_image v = do
    i ← lock v.acoustic_image_held
    ok (record v { acoustic_image_held = i })
  image_alone no_image (number pkt) v = do ping_no ← Aid0.get_ping_no pkt; ok v
  image_alone no_image (send_aid0 pkt) v =
      if should_publish fl v.has_aid0
      then (do
        msg ← packet2_raw_packet pkt v.raw
        let msg' = record msg { frame_id = v.frame_id }
        ok (record v { raw = msg'; messages = v.messages ++ raw_aid0_sent msg' ∷ [] }))
      else ok v
  image_alone no_image (send_image pkt) v = do
    ping_no ← Aid0.get_ping_no pkt
    if should_publish fl v.has_images
        then (do
          (complete, asm) ← add_packet fl pkt (assembler_for fl no_image ping_no v.assemblers)
          let img = asm.sonar_image
          let img' = record img { header = record (img.header) { frame_id = v.frame_id } }
          ok (
              if complete
              then record v {
                assemblers =
                    clean_msg_map ping_no (
                      erase ping_no (put ping_no (record asm { sonar_image = img' }) v.assemblers));
                messages = v.messages ++ image_sent img' ∷ [];
              }
              else record v { assemblers = put ping_no asm v.assemblers }))
        else ok v
  image_alone no_image unlock_aid0 v = ok (record v { aid0_held = false })
  image_alone no_image unlock_acoustic_image v = ok (record v { acoustic_image_held = false })

  pub image-law :
      (no_image : RawSonarImage fl) (a : ImageAction) (node : Node fl)
      → mapped (image_part fl) (do_image fl no_image a node)
        ≡ image_alone no_image a (image_part fl node)
  unfolding do_image publish_raw_aid0 publish_image
  image-law no_image lock_aid0 node =
      mapped-same (image_part fl) (lock node.locks.aid0) _ _ (λ a. refl)
  image-law no_image lock_acoustic_image node =
      mapped-same (image_part fl) (lock node.locks.acoustic_image) _ _ (λ i. refl)
  image-law no_image (number pkt) node =
      mapped-same (image_part fl) (Aid0.get_ping_no pkt) _ _ (λ n. refl)
  image-law no_image (send_aid0 pkt) node = elim (Bool-cases node.aid0_pub) [
    | inl there ↦ rw there (
        mapped-same (image_part fl) (packet2_raw_packet pkt node.aid0_msg) _ _
          (λ msg. rw (select-append (of_images fl) node.sent)))
    | inr missing ↦ rw missing
  ]
  image-law no_image (send_image pkt) node =
      mapped-same (image_part fl) (Aid0.get_ping_no pkt) _ _ (λ ping_no.
        elim (Bool-cases node.acoustic_image_pub) [
          | inl there ↦ rw there (
              mapped-same (image_part fl)
                (add_packet fl pkt (assembler_for fl no_image ping_no node.assemblers)) _ _
                (λ r. elim (Bool-cases r.0) [
                  | inl done ↦ rw (done, select-append (of_images fl) node.sent)
                  | inr more ↦ rw more
                ]))
          | inr missing ↦ rw missing
        ])
  image-law no_image unlock_aid0 node = refl
  image-law no_image unlock_acoustic_image node = refl

  -- The bathymetry's part of the node stays as it is.
  pub do_image-keeps :
      (no_image : RawSonarImage fl) (a : ImageAction) (node : Node fl)
      → IfOk (λ n. (bathymetry_part fl) n ≡ (bathymetry_part fl) node) (do_image fl no_image a node)
  unfolding do_image publish_raw_aid0 publish_image
  do_image-keeps no_image lock_aid0 node = IfOk-bind _ (lock node.locks.aid0) _ (λ a. refl)
  do_image-keeps no_image lock_acoustic_image node =
      IfOk-bind _ (lock node.locks.acoustic_image) _ (λ i. refl)
  do_image-keeps no_image (number pkt) node = IfOk-bind _ (Aid0.get_ping_no pkt) _ (λ n. refl)
  do_image-keeps no_image (send_aid0 pkt) node = elim (Bool-cases node.aid0_pub) [
    | inl there ↦ rw there (
        IfOk-bind _ (packet2_raw_packet pkt node.aid0_msg) _ (λ msg. rw (
          select-append (of_bathymetry fl) node.sent,
          append-nil (select (of_bathymetry fl) node.sent),
        )))
    | inr missing ↦ rw missing refl
  ]
  do_image-keeps no_image (send_image pkt) node = IfOk-bind _ (Aid0.get_ping_no pkt) _ (λ ping_no.
      elim (Bool-cases node.acoustic_image_pub) [
        | inl there ↦ rw there (
            IfOk-bind _ (add_packet fl pkt (assembler_for fl no_image ping_no node.assemblers)) _
              (λ r. elim (Bool-cases r.0) [
                | inl done ↦ rw (
                  done,
                  select-append (of_bathymetry fl) node.sent,
                  append-nil (select (of_bathymetry fl) node.sent),
                )
                | inr more ↦ rw more refl
              ]))
        | inr missing ↦ rw missing refl
      ])
  do_image-keeps no_image unlock_aid0 node = refl
  do_image-keeps no_image unlock_acoustic_image node = refl
