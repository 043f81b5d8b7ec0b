-- ===== src/Node/Threads.antt =====
-- The threads of the two receivers that publish, as r2sonic/nodes/r2sonic_node.cpp starts them:
-- each gives its packets to `publish` of r2sonic/src/r2sonic_node.cpp, one after the other, and the
-- actions of the two calls that run at a time come in any order. An action is a locking or
-- unlocking of one mutex, or the part of the function between two of them that sends one message.
pub mod Parts
pub mod Bathymetry
pub mod Images
pub mod Sequential
pub mod Apart
use ros2sonic.Prelude.{true, false, Bool, List, [], ◌∷◌, ◌≡◌, not, if◌then◌else◌}
use ros2sonic.Outcome.{Outcome, ok, ◌>>=◌}
use ros2sonic.Floats.{Floats}
use ros2sonic.Packet.{Packet, is_type}
use ros2sonic.Packet.Aid0
use ros2sonic.Conversions.Assembler.{Assembler, RawSonarImage}
use ros2sonic.Node.Publish.{
  Node, Locks, lock, publish_detections, publish_raw_bth0, publish_raw_aid0, publish_image,
}
use ros2sonic.Node.Worker.{Thread, Move}

pub data BathymetryAction : Type 0 where
  lock_dectections lock_bth0 unlock_dectections unlock_bth0 : BathymetryAction
  send_detections send_bth0 : Packet → BathymetryAction

pub data ImageAction : Type 0 where
  lock_aid0 lock_acoustic_image unlock_aid0 unlock_acoustic_image : ImageAction
  number send_aid0 send_image : Packet → ImageAction

-- What `publish` does with a packet, in order.
unfoldable pub bathymetry_code : Packet → Outcome (List BathymetryAction)
bathymetry_code pkt = do
  matches ← is_type pkt
  ok (
      if not matches
      then []
      else lock_dectections
        ∷ lock_bth0
        ∷ send_detections pkt
        ∷ send_bth0 pkt
        ∷ unlock_dectections
        ∷ unlock_bth0
        ∷ [])

unfoldable pub image_code : Packet → Outcome (List ImageAction)
image_code pkt = do
  matches ← is_type pkt
  ok (
      if not matches
      then []
      else lock_aid0
        ∷ lock_acoustic_image
        ∷ number pkt
        ∷ send_aid0 pkt
        ∷ send_image pkt
        ∷ unlock_aid0
        ∷ unlock_acoustic_image
        ∷ [])

module _ (fl : Floats) where
  abbrev pub with_locks : Node fl → Locks → Node fl
  with_locks node l = record node { locks = l }

  -- A thread that waits for a mutex that is never given back hangs.
  unfoldable pub do_bathymetry : BathymetryAction → Node fl → Outcome (Node fl)
  do_bathymetry lock_dectections node = do
    d ← lock node.locks.dectections
    ok (with_locks node (record (node.locks) { dectections = d }))
  do_bathymetry lock_bth0 node = do
    b ← lock node.locks.bth0
    ok (with_locks node (record (node.locks) { bth0 = b }))
  do_bathymetry (send_detections pkt) node = publish_detections fl pkt node
  do_bathymetry (send_bth0 pkt) node = publish_raw_bth0 fl pkt node
  do_bathymetry unlock_dectections node =
      ok (with_locks node (record (node.locks) { dectections = false }))
  do_bathymetry unlock_bth0 node = ok (with_locks node (record (node.locks) { bth0 = false }))

  -- The ping's number is a value of the thread's own, found in the packet; it is found once more
  -- where it is used.
  unfoldable pub do_image : RawSonarImage fl → ImageAction → Node fl → Outcome (Node fl)
  do_image no_image lock_aid0 node = do
    a ← lock node.locks.aid0
    ok (with_locks node (record (node.locks) { aid0 = a }))
  do_image no_image lock_acoustic_image node = do
    i ← lock node.locks.acoustic_image
    ok (with_locks node (record (node.locks) { acoustic_image = i }))
  do_image no_image (number pkt) node = do ping_no ← Aid0.get_ping_no pkt; ok node
  do_image no_image (send_aid0 pkt) node = publish_raw_aid0 fl pkt node
  do_image no_image (send_image pkt) node = do
    ping_no ← Aid0.get_ping_no pkt
    publish_image fl no_image ping_no pkt node
  do_image no_image unlock_aid0 node = ok (with_locks node (record (node.locks) { aid0 = false }))
  do_image no_image unlock_acoustic_image node =
      ok (with_locks node (record (node.locks) { acoustic_image = false }))

  -- The node that both threads work on, and what each has still to do.
  pub record System : Type 0 where
    pub node : Node fl
    pub bathymetry : Thread BathymetryAction Packet
    pub image : Thread ImageAction Packet

  module _ (no_image : RawSonarImage fl) where
    pub data Step (s : System) : System → Type 0 where
      bathymetry_moves :
          {node' : Node fl} {thread' : Thread BathymetryAction Packet}
          → Move do_bathymetry bathymetry_code s.bathymetry s.node thread' node'
          → Step s (record s { node = node'; bathymetry = thread' })
      image_moves :
          {node' : Node fl} {thread' : Thread ImageAction Packet}
          → Move (do_image no_image) image_code s.image s.node thread' node'
          → Step s (record s { node = node'; image = thread' })

    pub data Reach (s : System) : System → Type 0 where
      here : Reach s s
      next : {t u : System} → Reach s t → Step t u → Reach s u
