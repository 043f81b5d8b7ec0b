-- ===== src/Conversions/Detections.antt =====
-- bth02SonarDetections of r2sonic/src/conversions.cpp.
pub mod Spec
pub mod Reads
pub mod Correct
use ros2sonic.Prelude.{
  ℕ, zero, suc, ◌+◌, ◌-◌, ◌%◌, ◌^◌, Bool, true, false, ◌&&◌, ◌||◌, List, set, ltb, if◌then◌else◌,
}
use ros2sonic.Outcome.{Outcome, ok, ◌>>=◌}
use ros2sonic.Memory.{get_at}
use ros2sonic.Floats.{Floats}
use ros2sonic.Struct.{field}
use ros2sonic.Section.{exists}
use ros2sonic.Section.H0
use ros2sonic.Section.R0
use ros2sonic.Section.A0
use ros2sonic.Section.A2
use ros2sonic.Section.I1
use ros2sonic.Section.Q0
use ros2sonic.Packet.{Packet}
use ros2sonic.Packet.Bth0
use ros2sonic.Conversions.{Header, PingInfo, resize, h02_header, h02_ping_info}

-- marine_acoustic_msgs::msg::DetectionFlag
pub data Flag : Type 0 where
  detect_ok detect_bad_sonar : Flag

-- `||` reads the second test only if the first fails; both read the same bytes.
unfoldable pub read_flag : Packet → Bool → ℕ → Outcome Flag
read_flag pkt has_q0 i =
    if has_q0
    then (do
      s ← Bth0.q0 pkt
      phase ← Q0.phase_detect s i
      detected ← if phase then ok true else (do t ← Bth0.q0 pkt; Q0.magnitude_detect t i)
      ok (if detected then detect_ok else detect_bad_sonar))
    else ok detect_ok

module _ (fl : Floats) where
  open fl use {F32, of_bits, of_ℕ, add, sub, mul, div}

  -- marine_acoustic_msgs::msg::SonarDetections
  pub record SonarDetections : Type 0 where
    pub header : Header
    pub ping_info : PingInfo fl
    pub two_way_travel_times : List F32
    pub tx_delays : List F32
    pub intensities : List F32
    pub tx_angles : List F32
    pub rx_angles : List F32
    pub flags : List Flag

  -- What the loop needs of the angle sections: A2 if it is there, else A0.
  pub record Angles : Type 0 where
    pub has_a2 : Bool
    pub a2_angle_first : F32
    pub a2_scale_factor : F32
    pub has_a0 : Bool
    pub a0_angle_first : F32
    pub a0_delta : F32

  unfoldable pub read_a2 : Packet → Angles → Outcome Angles
  read_a2 pkt angles = do
    probe ← Bth0.a2 pkt
    has_a2 ← exists probe
    if has_a2
        then (do
          s ← Bth0.a2 pkt
          p ← A2.body s
          first ← field A2.body_layout A2.angle_first p
          t ← Bth0.a2 pkt
          q ← A2.body t
          scale ← field A2.body_layout A2.scaling_factor q
          ok (record angles {
            has_a2 = true;
            a2_angle_first = of_bits first;
            a2_scale_factor = of_bits scale;
          }))
        else ok (record angles { has_a2 = false })

  -- The angles of A0 are read only if there are two beams at least.
  unfoldable pub read_a0 : Packet → ℕ → Angles → Outcome Angles
  read_a0 pkt num_beams angles = do
    probe ← Bth0.a0 pkt
    has_a0 ← exists probe
    if has_a0 && ltb 1 num_beams
        then (do
          s ← Bth0.a0 pkt
          p ← A0.body s
          last ← field A0.body_layout A0.angle_last p
          t ← Bth0.a0 pkt
          q ← A0.body t
          first ← field A0.body_layout A0.angle_first q
          ok (record angles {
            has_a0 = has_a0;
            a0_angle_first = of_bits first;
            a0_delta = div (sub (of_bits last) (of_bits first)) (of_ℕ (num_beams - 1));
          }))
        else ok (record angles { has_a0 = has_a0 })

  abbrev pub no_angles : Angles
  no_angles = record {
    has_a2 = false;
    a2_angle_first = of_bits 0;
    a2_scale_factor = of_bits 0;
    has_a0 = false;
    a0_angle_first = of_bits 0;
    a0_delta = of_bits 0;
  }

  -- What one round of the loop stores at its beam, and the new sum of the A2 steps.
  pub record Beam : Type 0 where
    pub two_way_travel_time : F32
    pub tx_delay : F32
    pub intensity : F32
    pub tx_angle : F32
    pub rx_angle : F32
    pub flag : Flag
    pub a2_step_sum : ℕ

  unfoldable pub read_intensity : Packet → ℕ → Outcome F32
  read_intensity pkt i = do
    probe ← Bth0.i1 pkt
    found ← exists probe
    if found then (do s ← Bth0.i1 pkt; I1.get_scaled_intensity fl s i) else ok (of_ℕ 0)

  -- The receive angle, and the sum of the steps, a uint32_t.
  unfoldable pub read_rx_angle : Packet → Angles → ℕ → ℕ → Outcome (F32 × ℕ)
  read_rx_angle pkt angles i a2_step_sum =
      if angles.has_a2
      then (do
        s ← Bth0.a2 pkt
        p ← A2.angle_step s i
        step ← get_at 2 p
        let sum' = (a2_step_sum + step) % 2 ^ 32
        ok (add angles.a2_angle_first (mul (of_ℕ sum') angles.a2_scale_factor), sum'))
      else if angles.has_a0
      then ok (add angles.a0_angle_first (mul angles.a0_delta (of_ℕ i)), a2_step_sum)
      else ok (of_bits 0, a2_step_sum)

  unfoldable pub read_beam : Packet → Angles → Bool → ℕ → ℕ → Outcome Beam
  read_beam pkt angles has_q0 i a2_step_sum = do
    r ← Bth0.r0 pkt
    time ← R0.get_scaled_range fl r i
    strength ← read_intensity pkt i
    h ← Bth0.h0 pkt
    steering ← field H0.body_layout H0.tx_steering_vert (H0.body h)
    turned ← read_rx_angle pkt angles i a2_step_sum
    seen ← read_flag pkt has_q0 i
    ok (record {
      two_way_travel_time = time;
      tx_delay = of_ℕ 0;
      intensity = strength;
      tx_angle = of_bits steering;
      rx_angle = turned.0;
      flag = seen;
      a2_step_sum = turned.1;
    })

  abbrev pub store_beam : SonarDetections → ℕ → Beam → SonarDetections
  store_beam msg i beam = record msg {
    two_way_travel_times = set msg.two_way_travel_times i beam.two_way_travel_time;
    tx_delays = set msg.tx_delays i beam.tx_delay;
    intensities = set msg.intensities i beam.intensity;
    tx_angles = set msg.tx_angles i beam.tx_angle;
    rx_angles = set msg.rx_angles i beam.rx_angle;
    flags = set msg.flags i beam.flag;
  }

  -- The loop over the beams from `i` on, with `left` rounds to go.
  unfoldable pub decode_beams :
      ℕ → Packet → Angles → Bool → ℕ → ℕ → SonarDetections → Outcome SonarDetections
  decode_beams zero pkt angles has_q0 i a2_step_sum msg = ok msg
  decode_beams (suc left) pkt angles has_q0 i a2_step_sum msg = do
    beam ← read_beam pkt angles has_q0 i a2_step_sum
    decode_beams left pkt angles has_q0 (i + 1) beam.a2_step_sum (store_beam msg i beam)

  abbrev pub resize_vectors : ℕ → SonarDetections → SonarDetections
  resize_vectors n msg = record msg {
    two_way_travel_times = resize n (of_ℕ 0) msg.two_way_travel_times;
    tx_delays = resize n (of_ℕ 0) msg.tx_delays;
    intensities = resize n (of_ℕ 0) msg.intensities;
    tx_angles = resize n (of_ℕ 0) msg.tx_angles;
    rx_angles = resize n (of_ℕ 0) msg.rx_angles;
    flags = resize n detect_ok msg.flags;
  }

  unfoldable pub bth02_sonar_detections : Packet → SonarDetections → Outcome SonarDetections
  bth02_sonar_detections pkt msg = do
    h ← Bth0.h0 pkt
    num_beams ← field H0.body_layout H0.beams (H0.body h)
    info ← h02_ping_info fl h msg.ping_info
    stamped ← h02_header h msg.header
    q ← Bth0.q0 pkt
    has_q0 ← exists q
    with_a2 ← read_a2 pkt no_angles
    angles ← read_a0 pkt num_beams with_a2
    decode_beams num_beams pkt angles has_q0 0 0
        (resize_vectors num_beams (record msg { ping_info = info; header = stamped }))
