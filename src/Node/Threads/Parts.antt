-- ===== src/Node/Threads/Parts.antt =====
-- What of the node belongs to the thread of the bathymetry and what to that of the images:
-- messages, mutexes, publishers and topics of their own.
use ros2sonic.Prelude.{select, Bool, true, false, List}
use ros2sonic.Memory.{Bytes}
use ros2sonic.Floats.{Floats}
use ros2sonic.Conversions.{RawPacket}
use ros2sonic.Conversions.Detections.{SonarDetections}
use ros2sonic.Conversions.Assembler.{Assembler}
use ros2sonic.Node.MsgMap.{MsgMap}
use ros2sonic.Node.Publish.{
  Message, Node, detections_sent, raw_bth0_sent, raw_aid0_sent, image_sent,
}

module _ (fl : Floats) where
  abbrev pub of_bathymetry : Message fl → Bool
  of_bathymetry (detections_sent m) = true
  of_bathymetry (raw_bth0_sent m) = true
  of_bathymetry (raw_aid0_sent m) = false
  of_bathymetry (image_sent m) = false

  abbrev pub of_images : Message fl → Bool
  of_images (detections_sent m) = false
  of_images (raw_bth0_sent m) = false
  of_images (raw_aid0_sent m) = true
  of_images (image_sent m) = true

  pub record BathymetryPart : Type 0 where
    pub frame_id : Bytes
    pub has_dectections : Bool
    pub has_bth0 : Bool
    pub detections : SonarDetections fl
    pub raw : RawPacket
    pub dectections_held : Bool
    pub bth0_held : Bool
    pub messages : List (Message fl)

  pub record ImagePart : Type 0 where
    pub frame_id : Bytes
    pub has_aid0 : Bool
    pub has_images : Bool
    pub raw : RawPacket
    pub assemblers : MsgMap (Assembler fl)
    pub aid0_held : Bool
    pub acoustic_image_held : Bool
    pub messages : List (Message fl)

  abbrev pub bathymetry_part : Node fl → BathymetryPart
  bathymetry_part node = record {
    frame_id = node.tx_frame_id;
    has_dectections = node.dectections_pub;
    has_bth0 = node.bth0_pub;
    detections = node.dectections_msg;
    raw = node.bth0_msg;
    dectections_held = node.locks.dectections;
    bth0_held = node.locks.bth0;
    messages = select of_bathymetry node.sent;
  }

  abbrev pub image_part : Node fl → ImagePart
  image_part node = record {
    frame_id = node.tx_frame_id;
    has_aid0 = node.aid0_pub;
    has_images = node.acoustic_image_pub;
    raw = node.aid0_msg;
    assemblers = node.assemblers;
    aid0_held = node.locks.aid0;
    acoustic_image_held = node.locks.acoustic_image;
    messages = select of_images node.sent;
  }
