-- ===== src/Node/Publish.antt =====
-- The two `publish` functions of r2sonic/src/r2sonic_node.cpp, and the receiver that calls them
-- (r2sonic/src/datatype_receiver.cpp).
-- An exception that leaves `publish` is caught by nobody on the receiver's thread and ends the
-- program, so a call that raises has no state after it. A mutex that is locked again by its own
-- thread never comes free: `hang`.
pub mod Bathymetry
pub mod Calls
pub mod Image
pub mod Parts
pub mod Begun
pub mod Ping
pub mod Outside
pub mod Stream
use ros2sonic.Prelude.{
  ℕ, Bool, true, false, Option, none, some, List, [], ◌∷◌, ◌++◌, not, if◌then◌else◌,
}
use mathlib.Core.Option
use ros2sonic.Outcome.{Outcome, ok, hang, ◌>>=◌}
use ros2sonic.Memory.{Bytes}
use ros2sonic.Floats.{Floats}
use ros2sonic.Packet.{PacketKind, Packet, is_type}
use ros2sonic.Packet.Aid0
use ros2sonic.Conversions.{Header, RawPacket, packet2_raw_packet}
use ros2sonic.Conversions.Detections.{SonarDetections, bth02_sonar_detections}
use ros2sonic.Conversions.Assembler.{Assembler, RawSonarImage, new_assembler, add_packet}
use ros2sonic.Node.MsgMap.{MsgMap, find, put, erase, clean_msg_map}

-- The mutexes of MsgBuffer that are taken; true is locked.
pub record Locks : Type 0 where
  pub dectections : Bool
  pub bth0 : Bool
  pub aid0 : Bool
  pub acoustic_image : Bool

abbrev pub all_free : Locks
all_free = record { dectections = false; bth0 = false; aid0 = false; acoustic_image = false }

abbrev pub lock : Bool → Outcome Bool
lock held = if held then hang else ok true

module _ (fl : Floats) where
  -- What goes out on the four topics, in the order of the calls of `publish` on the publishers.
  pub data Message : Type 0 where
    detections_sent : SonarDetections fl → Message
    raw_bth0_sent raw_aid0_sent : RawPacket → Message
    image_sent : RawSonarImage fl → Message

  -- The parts of R2SonicNode that `publish` uses. A publisher that was not created is false.
  pub record Node : Type 0 where
    pub tx_frame_id : Bytes
    pub dectections_pub : Bool
    pub bth0_pub : Bool
    pub aid0_pub : Bool
    pub acoustic_image_pub : Bool
    pub dectections_msg : SonarDetections fl
    pub bth0_msg : RawPacket
    pub aid0_msg : RawPacket
    pub assemblers : MsgMap (Assembler fl)
    pub locks : Locks
    pub sent : List Message

  abbrev pub send : Message → Node → Node
  send m node = record node { sent = node.sent ++ m ∷ [] }

  -- A null publisher does not publish; the test of the subscriptions is never reached.
  abbrev pub should_publish : Bool → Bool
  should_publish pub_exists = if not pub_exists then false else true

  unfoldable pub publish_detections : Packet → Node → Outcome Node
  publish_detections pkt node =
      if should_publish node.dectections_pub
      then (do
        msg ← bth02_sonar_detections fl pkt node.dectections_msg
        let msg' = record msg { header = record (msg.header) { frame_id = node.tx_frame_id } }
        ok (send (detections_sent msg') (record node { dectections_msg = msg' })))
      else ok node

  unfoldable pub publish_raw_bth0 : Packet → Node → Outcome Node
  publish_raw_bth0 pkt node =
      if should_publish node.bth0_pub
      then (do
        msg ← packet2_raw_packet pkt node.bth0_msg
        let msg' = record msg { frame_id = node.tx_frame_id }
        ok (send (raw_bth0_sent msg') (record node { bth0_msg = msg' })))
      else ok node

  unfoldable pub publish_bth0 : Packet → Node → Outcome Node
  publish_bth0 pkt node = do
    matches ← is_type pkt
    if not matches then ok node else (do
      d ← lock node.locks.dectections
      b ← lock node.locks.bth0
      first ←
          publish_detections pkt
            (record node { locks = record (node.locks) { dectections = d; bth0 = b } })
      second ← publish_raw_bth0 pkt first
      ok (record second { locks = record (second.locks) { dectections = false; bth0 = false } }))

  unfoldable pub publish_raw_aid0 : Packet → Node → Outcome Node
  publish_raw_aid0 pkt node =
      if should_publish node.aid0_pub
      then (do
        msg ← packet2_raw_packet pkt node.aid0_msg
        let msg' = record msg { frame_id = node.tx_frame_id }
        ok (send (raw_aid0_sent msg') (record node { aid0_msg = msg' })))
      else ok node

  -- `map[ping_no]` makes an assembler where there is none. `no_image` is what the constructor of
  -- the generated message leaves.
  abbrev pub assembler_for : RawSonarImage fl → ℕ → MsgMap (Assembler fl) → Assembler fl
  assembler_for no_image ping_no m = Option.get_or (find ping_no m) (new_assembler fl no_image)

  unfoldable pub publish_image : RawSonarImage fl → ℕ → Packet → Node → Outcome Node
  publish_image no_image ping_no pkt node =
      if should_publish node.acoustic_image_pub
      then (do
        (complete, asm) ← add_packet fl pkt (assembler_for no_image ping_no node.assemblers)
        let img = asm.sonar_image
        let img' = record img { header = record (img.header) { frame_id = node.tx_frame_id } }
        ok (
            if complete
            then send (image_sent img') (record node {
              assemblers =
                  clean_msg_map ping_no (
                    erase ping_no
                      (put ping_no (record asm { sonar_image = img' }) node.assemblers));
            })
            else record node { assemblers = put ping_no asm node.assemblers }))
      else ok node

  unfoldable pub publish_aid0 : RawSonarImage fl → Packet → Node → Outcome Node
  publish_aid0 no_image pkt node = do
    matches ← is_type pkt
    if not matches then ok node else (do
      a ← lock node.locks.aid0
      i ← lock node.locks.acoustic_image
      ping_no ← Aid0.get_ping_no pkt
      first ←
          publish_raw_aid0 pkt
            (record node { locks = record (node.locks) { aid0 = a; acoustic_image = i } })
      second ← publish_image no_image ping_no pkt first
      ok (record second { locks = record (second.locks) { aid0 = false; acoustic_image = false } }))

  -- DatatypeReceiver::receiveImpl: the buffer is read as a packet, and published if it is one. The
  -- number of bytes that arrived is not used.
  unfoldable pub receive_bth0 : Bytes → ℕ → Node → Outcome Node
  receive_bth0 buffer bytes_transferred node = do
    let pkt : Packet = record { kind = PacketKind.bth0; start_bit = buffer }
    matches ← is_type pkt
    if matches then publish_bth0 pkt node else ok node

  unfoldable pub receive_aid0 : RawSonarImage fl → Bytes → ℕ → Node → Outcome Node
  receive_aid0 no_image buffer bytes_transferred node = do
    let pkt : Packet = record { kind = PacketKind.aid0; start_bit = buffer }
    matches ← is_type pkt
    if matches then publish_aid0 no_image pkt node else ok node
