-- ===== src/Conversions/Detections/Spec.antt =====
-- What a bathymetry packet says, read straight from the contents of its sections.
use ros2sonic.Prelude.{
  ℕ, zero, suc, ◌+◌, ◌-◌, ◌*◌, ◌/◌, ◌≤◌, Option, none, some, length, take, drop, get_or, tabulate,
  ltb, leb, if◌then◌else◌,
}
use ros2sonic.Memory.{Bytes, IsBytes}
use ros2sonic.Memory.Endian.{be_value}
use ros2sonic.Floats.{Floats}
use ros2sonic.Struct.Fields.{value_in}
use ros2sonic.Section.{h0, r0, a0, a1, a2, i1, g0, g1, m0, q0}
use ros2sonic.Section.H0
use ros2sonic.Section.Q0.Nibbles.{half_of}
use ros2sonic.Packet.Sequence.{Contents}
use ros2sonic.Conversions.{Header, PingInfo}
use ros2sonic.Conversions.Detections.{Flag, detect_ok, detect_bad_sonar, SonarDetections, Beam}

-- The contents of the sections of one packet; the angles, intensities, gates and flags are
-- optional.
pub record Ping : Type 0 where
  pub h0_contents : Bytes
  pub r0_contents : Bytes
  pub a0_contents : Option Bytes
  pub a2_contents : Option Bytes
  pub i1_contents : Option Bytes
  pub g0_contents : Option Bytes
  pub g1_contents : Option Bytes
  pub q0_contents : Option Bytes

abbrev pub contents_of : Ping → Contents
contents_of p h0 = some p.h0_contents
contents_of p r0 = some p.r0_contents
contents_of p a0 = p.a0_contents
contents_of p a1 = none
contents_of p a2 = p.a2_contents
contents_of p i1 = p.i1_contents
contents_of p g0 = p.g0_contents
contents_of p g1 = p.g1_contents
contents_of p m0 = none
contents_of p q0 = p.q0_contents

abbrev pub beams_of : Ping → ℕ
beams_of p = value_in H0.body_layout H0.beams p.h0_contents

abbrev pub HasBytes : ℕ → Bytes → Type 0
HasBytes n b = IsBytes b × (n ≤ length b)

abbrev pub HasBytesIf : ℕ → Option Bytes → Type 0
HasBytesIf n none = Unit
HasBytesIf n (some b) = HasBytes n b

-- Each section that is there holds as much as the number of beams asks for.
pub record IsComplete (p : Ping) : Type 0 where
  pub h0_full : HasBytes 112 p.h0_contents
  pub r0_full : HasBytes (4 + 2 * beams_of p) p.r0_contents
  pub a0_full : HasBytesIf 32 p.a0_contents
  pub a2_full : HasBytesIf (32 + 2 * beams_of p) p.a2_contents
  pub i1_full : HasBytesIf (4 + 2 * beams_of p) p.i1_contents
  pub q0_full : HasBytesIf ((beams_of p + 7) / 8 * 4) p.q0_contents

abbrev pub u16_at : Bytes → ℕ → ℕ
u16_at b n = be_value (take 2 (drop n b))

abbrev pub u32_at : Bytes → ℕ → ℕ
u32_at b n = be_value (take 4 (drop n b))

-- The first `j` angle steps together, without wrapping.
abbrev pub step_sum : Bytes → ℕ → ℕ
step_sum b zero = 0
step_sum b (suc j) = step_sum b j + u16_at b (32 + 2 * j)

abbrev pub step_sum_of : Option Bytes → ℕ → ℕ
step_sum_of none j = 0
step_sum_of (some b) j = step_sum b j

abbrev pub flag_of : Option Bytes → ℕ → Flag
flag_of none j = detect_ok
flag_of (some b) j = if leb 4 (half_of j (get_or b (j / 2) 0)) then detect_ok else detect_bad_sonar

-- The header's time; its frame stays.
abbrev pub header_of : Bytes → Header → Header
header_of b header = record header {
  sec = value_in H0.body_layout H0.time_seconds b;
  nanosec = value_in H0.body_layout H0.time_nanoseconds b;
}

module _ (fl : Floats) where
  open fl use {F32, of_bits, of_ℕ, add, sub, mul, div}

  -- A scale, and behind it 16-bit values.
  abbrev pub scaled_at : Bytes → ℕ → F32
  scaled_at b j = mul (of_ℕ (u16_at b (4 + 2 * j))) (of_bits (u32_at b 0))

  abbrev pub intensity_of : Option Bytes → ℕ → F32
  intensity_of none j = of_ℕ 0
  intensity_of (some b) j = scaled_at b j

  -- With A0, equal steps from the first angle to the last one.
  abbrev pub even_angle : Option Bytes → ℕ → ℕ → F32
  even_angle none n j = of_bits 0
  even_angle (some b) n j =
      if ltb 1 n
      then add (of_bits (u32_at b 0))
          (mul (div (sub (of_bits (u32_at b 4)) (of_bits (u32_at b 0))) (of_ℕ (n - 1))) (of_ℕ j))
      else add (of_bits 0) (mul (of_bits 0) (of_ℕ j))

  -- With A2, the first angle and the scaled sum of all steps up to the beam's own.
  abbrev pub rx_angle_of : Option Bytes → Option Bytes → ℕ → ℕ → F32
  rx_angle_of (some b) o n j =
      add (of_bits (u32_at b 0)) (mul (of_ℕ (step_sum b (suc j))) (of_bits (u32_at b 4)))
  rx_angle_of none o n j = even_angle o n j

  abbrev pub beam_of : Ping → ℕ → Beam fl
  beam_of p j = record {
    two_way_travel_time = scaled_at p.r0_contents j;
    tx_delay = of_ℕ 0;
    intensity = intensity_of p.i1_contents j;
    tx_angle = of_bits (value_in H0.body_layout H0.tx_steering_vert p.h0_contents);
    rx_angle = rx_angle_of p.a2_contents p.a0_contents (beams_of p) j;
    flag = flag_of p.q0_contents j;
    a2_step_sum = step_sum_of p.a2_contents (suc j);
  }

  abbrev pub ping_info_of : Bytes → PingInfo fl
  ping_info_of b = record {
    frequency = of_bits (value_in H0.body_layout H0.frequency b);
    sound_speed = of_bits (value_in H0.body_layout H0.sound_speed b);
    tx_beamwidths =
        tabulate (value_in H0.body_layout H0.beams b) 0
          (λ j. of_bits (value_in H0.body_layout H0.tx_beamwidth_vert b));
    rx_beamwidths =
        tabulate (value_in H0.body_layout H0.beams b) 0
          (λ j. of_bits (value_in H0.body_layout H0.tx_beamwidth_horiz b));
  }

  -- The whole message; of the old one only the frame remains.
  abbrev pub detections_of : Ping → SonarDetections fl → SonarDetections fl
  detections_of p msg =
      let n = beams_of p in
      record {
        header = header_of p.h0_contents msg.header;
        ping_info = ping_info_of p.h0_contents;
        two_way_travel_times = tabulate n 0 (λ j. (beam_of p j).two_way_travel_time);
        tx_delays = tabulate n 0 (λ j. (beam_of p j).tx_delay);
        intensities = tabulate n 0 (λ j. (beam_of p j).intensity);
        tx_angles = tabulate n 0 (λ j. (beam_of p j).tx_angle);
        rx_angles = tabulate n 0 (λ j. (beam_of p j).rx_angle);
        flags = tabulate n 0 (λ j. (beam_of p j).flag);
      }
