-- ===== src/Node/Threads/Sequential.antt =====
-- The actions of a thread for a packet are those of `publish`, in its order.
use ros2sonic.Prelude.{◌≡◌, Bool-cases, inl, inr}
use ros2sonic.Outcome.{◌>>=◌}
use ros2sonic.Floats.{Floats}
use ros2sonic.Packet.{Packet, is_type}
use ros2sonic.Packet.Aid0
use ros2sonic.Conversions.Assembler.{RawSonarImage}
use ros2sonic.Node.Publish.{Node, publish_bth0, publish_aid0}
use ros2sonic.Node.Worker.{run, through}
use ros2sonic.Node.Threads.{bathymetry_code, image_code, do_bathymetry, do_image}

module _ (fl : Floats) where
  pub run-publish_bth0 :
      (pkt : Packet) (node : Node fl)
      → (bathymetry_code pkt >>= λ rest. run (do_bathymetry fl) bathymetry_code rest node)
        ≡ publish_bth0 fl pkt node
  unfolding bathymetry_code do_bathymetry publish_bth0
  run-publish_bth0 pkt node = through (is_type pkt) _ _ _ (λ matches e. elim (Bool-cases matches) [
    | inr other ↦ rw other
    | inl own ↦ rw own (elim (Bool-cases node.locks.dectections) [
      | inl held ↦ rw held
      | inr free ↦
          rw free (elim (Bool-cases node.locks.bth0) [ inl held ↦ rw held | inr free ↦ rw free ])
    ])
  ])

  pub run-publish_aid0 :
      (no_image : RawSonarImage fl) (pkt : Packet) (node : Node fl)
      → (image_code pkt >>= λ rest. run (do_image fl no_image) image_code rest node)
        ≡ publish_aid0 fl no_image pkt node
  unfolding image_code do_image publish_aid0
  run-publish_aid0 no_image pkt node = through (is_type pkt) _ _ _ (λ matches e.
      elim (Bool-cases matches) [
        | inr other ↦ rw other
        | inl own ↦ rw own (elim (Bool-cases node.locks.aid0) [
          | inl held ↦ rw held
          | inr free ↦ rw free (elim (Bool-cases node.locks.acoustic_image) [
            | inl held ↦ rw held
            | inr free ↦ rw free (through (Aid0.get_ping_no pkt) _ _ _ (λ ping_no found. rw found))
          ])
        ])
      ])
