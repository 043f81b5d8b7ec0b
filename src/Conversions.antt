-- ===== src/Conversions.antt =====
-- r2sonic/src/conversions.cpp: from packets to ROS messages.
-- The messages' types are generated from packages that the driver depends on; the records here have
-- the fields that the driver writes. A `stamp.sec` is an int32_t, given by its bit pattern.
pub mod Detections
pub mod Assembler
pub mod Raw
use ros2sonic.Prelude.{ℕ, zero, suc, ◌+◌, ◌-◌, List, ◌++◌, length, set, take, replicate}
use ros2sonic.Outcome.{Outcome, ok, ◌>>=◌}
use ros2sonic.Memory.{Bytes, read_bytes}
use ros2sonic.Floats.{Floats}
use ros2sonic.Struct.{field}
use ros2sonic.Section.{Section}
use ros2sonic.Section.H0
use ros2sonic.Packet.{Packet, get_size}

-- std_msgs::msg::Header
pub record Header : Type 0 where
  pub sec : ℕ
  pub nanosec : ℕ
  pub frame_id : Bytes

-- std::vector::resize
abbrev pub resize {ℓ} : {A : Type ℓ} → ℕ → A → List A → List A
resize n fill xs = take n xs ++ replicate (n - length xs) fill

unfoldable pub h02_header : Section → Header → Outcome Header
h02_header h0 header = do
  sec ← field H0.body_layout H0.time_seconds (H0.body h0)
  nanosec ← field H0.body_layout H0.time_nanoseconds (H0.body h0)
  ok (record header { sec = sec; nanosec = nanosec })

-- r2sonic_interfaces::msg::RawPacket; `payload` is its field `data`.
pub record RawPacket : Type 0 where
  pub frame_id : Bytes
  pub payload : Bytes

-- assign(startBit(), end()): the bytes from the start up to the size that the header states.
unfoldable pub packet2_raw_packet : Packet → RawPacket → Outcome RawPacket
packet2_raw_packet pkt msg = do
  size ← get_size pkt
  bytes ← read_bytes size pkt.start_bit
  ok (record msg { payload = bytes })

module _ (fl : Floats) where
  open fl use {F32, of_bits, of_ℕ}

  -- marine_acoustic_msgs::msg::PingInfo
  pub record PingInfo : Type 0 where
    pub frequency : F32
    pub sound_speed : F32
    pub tx_beamwidths : List F32
    pub rx_beamwidths : List F32

  -- The loop over the beams from `i` on, with `left` rounds to go.
  unfoldable pub fill_beamwidths : ℕ → ℕ → Section → PingInfo → Outcome PingInfo
  fill_beamwidths zero i h0 info = ok info
  fill_beamwidths (suc left) i h0 info = do
    vert ← field H0.body_layout H0.tx_beamwidth_vert (H0.body h0)
    horiz ← field H0.body_layout H0.tx_beamwidth_horiz (H0.body h0)
    fill_beamwidths left (i + 1) h0 (record info {
      tx_beamwidths = set info.tx_beamwidths i (of_bits vert);
      rx_beamwidths = set info.rx_beamwidths i (of_bits horiz);
    })

  unfoldable pub h02_ping_info : Section → PingInfo → Outcome PingInfo
  h02_ping_info h0 info = do
    frequency ← field H0.body_layout H0.frequency (H0.body h0)
    sound_speed ← field H0.body_layout H0.sound_speed (H0.body h0)
    num_beams ← field H0.body_layout H0.beams (H0.body h0)
    fill_beamwidths num_beams 0 h0 (record info {
      frequency = of_bits frequency;
      sound_speed = of_bits sound_speed;
      tx_beamwidths = resize num_beams (of_ℕ 0) info.tx_beamwidths;
      rx_beamwidths = resize num_beams (of_ℕ 0) info.rx_beamwidths;
    })
