-- ===== src/Rtcm.antt =====
-- RTCMToRawPacket of r2sonic/nodes/rtcm_converter.cpp: corrections of the position go to the device
-- as raw packets.
use ros2sonic.Prelude.{List, [], ◌∷◌, ◌++◌}
use ros2sonic.Memory.{Bytes}
use ros2sonic.Conversions.{Header}

-- rtcm_msgs::msg::Message
pub record Message : Type 0 where
  pub header : Header
  pub message : Bytes

-- io_interfaces::msg::RawPacket; `payload` is its field `data`.
pub record DevicePacket : Type 0 where
  pub header : Header
  pub payload : Bytes

-- What goes out on rtcm/to_device grows by one packet for each message.
unfoldable pub callback : Message → List DevicePacket → List DevicePacket
callback msg sent = sent ++ record { header = msg.header; payload = msg.message } ∷ []
