-- ===== src/Conversions/Detections/Correct.antt =====
-- The whole conversion of a bathymetry packet.
use ros2sonic.Prelude.{
  ℕ, zero, suc, ◌+◌, ◌-◌, ◌≤◌, ◌<◌, ◌≡◌, refl, ap, Option, none, some, List, [], ◌∷◌, ◌++◌, length,
  take, replicate, length-append, length-take, length-replicate, tabulate, fill, fill-eq-tabulate,
  arith,
}
use ros2sonic.Outcome.{ok}
use ros2sonic.Memory.{Bytes, IsBytes}
use ros2sonic.Floats.{Floats}
use ros2sonic.Struct.{offset, width, field}
use ros2sonic.Struct.Fields.{value_in, field-within}
use ros2sonic.Section.{h0, r0, a0, a2, i1, g0, g1, q0, Section}
use ros2sonic.Section.Identity.{at, encode}
use ros2sonic.Section.H0
use ros2sonic.Packet.{PacketKind, Packet}
use ros2sonic.Packet.Sequence.{IsSmall, IsTail, is_present, sections, packet_of}
use ros2sonic.Packet.Sequence.Bathymetry.{
  bathymetry_kinds, h0-Finds, r0-Finds, a0-Finds, a2-Finds, i1-Finds, q0-Finds,
}
use ros2sonic.Conversions.{Header, PingInfo, resize, h02_header, fill_beamwidths, h02_ping_info}
use ros2sonic.Conversions.Detections.{
  SonarDetections, Angles, no_angles, read_beam, store_beam, decode_beams, bth02_sonar_detections,
}
use ros2sonic.Conversions.Detections.Spec.{
  Ping, contents_of, beams_of, HasBytes, IsComplete, step_sum_of, beam_of, ping_info_of, header_of,
  detections_of,
}
use ros2sonic.Conversions.Detections.Reads.{
  u16_at-lt, get_scaled_range-eq, read_intensity-eq, with_a2, with_a0, read_a2-eq, read_a0-eq,
  read_rx_angle-eq, read_flag-eq,
}

length-resize {ℓ} : {A : Type ℓ} (n : ℕ) (d : A) (xs : List A) → length (resize n d xs) ≡ n
length-resize n d xs = omega (
  arith,
  length-append (take n xs) (replicate (n - length xs) d),
  length-take n xs,
  length-replicate (n - length xs) d,
)

-- Filling every index of a resized vector.
pub fill-resize {ℓ} :
    {A : Type ℓ} (n : ℕ) (f : ℕ → A) (d : A) (xs : List A)
    → fill n 0 f (resize n d xs) ≡ tabulate n 0 f
fill-resize n f d xs = fill-eq-tabulate n f (resize n d xs) (length-resize n d xs)

pub h0_field :
    (k : ℕ) (b tail : Bytes)
    → HasBytes 112 b
    → offset H0.body_layout k + width H0.body_layout k ≤ 112
    → field H0.body_layout k (b ++ tail) ≡ ok (value_in H0.body_layout k b)
h0_field k b tail (bytes, long) small = field-within H0.body_layout k b tail bytes (omega arith)

-- What the H0 section gives.
module _ (b tail : Bytes) (full : HasBytes 112 b) where
  abbrev h : Section
  h = at h0 (encode h0 b tail)

  pub h02_header-eq : (header : Header) → h02_header h header ≡ ok (header_of b header)
  unfolding h02_header
  h02_header-eq header = rw (
    h0_field H0.time_seconds b tail full (omega arith),
    h0_field H0.time_nanoseconds b tail full (omega arith),
  )

  module _ (fl : Floats) where
    open fl use {of_bits}

    fill_beamwidths-eq :
        (left i : ℕ) (info : PingInfo fl)
        → fill_beamwidths fl left i h info
          ≡ ok (record info {
            tx_beamwidths =
                fill left i
                  (λ j. of_bits (value_in H0.body_layout H0.tx_beamwidth_vert b))
                  info.tx_beamwidths;
            rx_beamwidths =
                fill left i
                  (λ j. of_bits (value_in H0.body_layout H0.tx_beamwidth_horiz b))
                  info.rx_beamwidths;
          })
    unfolding fill_beamwidths
    fill_beamwidths-eq zero i info = refl
    fill_beamwidths-eq (suc left) i info =
        rw
          (
            h0_field H0.tx_beamwidth_vert b tail full (omega arith),
            h0_field H0.tx_beamwidth_horiz b tail full (omega arith),
          )
          (fill_beamwidths-eq left (i + 1) _)

    -- The ping information of an H0 section: one beam width of each kind for every beam.
    pub h02_ping_info-eq : (info : PingInfo fl) → h02_ping_info fl h info ≡ ok (ping_info_of fl b)
    unfolding h02_ping_info
    h02_ping_info-eq info = rw (
      h0_field H0.frequency b tail full (omega arith),
      h0_field H0.sound_speed b tail full (omega arith),
      h0_field H0.beams b tail full (omega arith),
      fill_beamwidths-eq,
      fill-resize,
      fill-resize,
    )

no_steps : (o : Option Bytes) → 0 ≡ step_sum_of o 0
no_steps none = refl
no_steps (some b) = refl

-- One round of the loop, and the loop, on a complete packet.
module _ (fl : Floats) (p : Ping) (size stream : ℕ) (rest : Bytes) (full : IsComplete p)
    (small : IsSmall (contents_of p)) (tail : IsTail bathymetry_kinds rest)
    (bytes : IsBytes rest) where
  abbrev whole : Packet
  whole = packet_of PacketKind.bth0 size stream (sections (contents_of p) bathymetry_kinds rest)

  abbrev angles : Angles fl
  angles = with_a0 fl p.a0_contents (beams_of p) (with_a2 fl p.a2_contents (no_angles fl))

  beams-lt : beams_of p < 65536
  beams-lt = u16_at-lt p.h0_contents 110 full.h0_full.0

  read_beam-eq :
      (j : ℕ)
      → j < beams_of p
      → read_beam fl whole angles (is_present p.q0_contents) j (step_sum_of p.a2_contents j)
        ≡ ok (beam_of fl p j)
  unfolding read_beam
  read_beam-eq j below =
      let c = contents_of p in
      let n = beams_of p in
      rw (
        (r0-Finds c size stream rest small tail).0,
        get_scaled_range-eq fl n j below beams-lt p.r0_contents
            (sections c (a0 ∷ a2 ∷ i1 ∷ g0 ∷ g1 ∷ q0 ∷ []) rest) full.r0_full,
        read_intensity-eq fl n j below beams-lt whole p.i1_contents
            (sections c (g0 ∷ g1 ∷ q0 ∷ []) rest) (i1-Finds c size stream rest small tail).0
            (i1-Finds c size stream rest small tail).1 full.i1_full,
        (h0-Finds c size stream rest small tail).0,
        h0_field H0.tx_steering_vert p.h0_contents
            (sections c (r0 ∷ a0 ∷ a2 ∷ i1 ∷ g0 ∷ g1 ∷ q0 ∷ []) rest) full.h0_full (omega arith),
        read_rx_angle-eq fl whole n j (no_angles fl) p.a2_contents p.a0_contents
            (sections c (i1 ∷ g0 ∷ g1 ∷ q0 ∷ []) rest) below beams-lt refl refl
            (a2-Finds c size stream rest small tail).0 full.a2_full,
        read_flag-eq whole n j p.q0_contents rest below beams-lt bytes
            (q0-Finds c size stream rest small tail).0 full.q0_full,
      )

  -- All the rounds from `i` on.
  abbrev stored : ℕ → ℕ → SonarDetections fl → SonarDetections fl
  stored left i msg = record msg {
    two_way_travel_times =
        fill left i (λ j. (beam_of fl p j).two_way_travel_time) msg.two_way_travel_times;
    tx_delays = fill left i (λ j. (beam_of fl p j).tx_delay) msg.tx_delays;
    intensities = fill left i (λ j. (beam_of fl p j).intensity) msg.intensities;
    tx_angles = fill left i (λ j. (beam_of fl p j).tx_angle) msg.tx_angles;
    rx_angles = fill left i (λ j. (beam_of fl p j).rx_angle) msg.rx_angles;
    flags = fill left i (λ j. (beam_of fl p j).flag) msg.flags;
  }

  decode_beams-eq :
      (left i sum : ℕ) (msg : SonarDetections fl)
      → i + left ≤ beams_of p
      → sum ≡ step_sum_of p.a2_contents i
      → decode_beams fl left whole angles (is_present p.q0_contents) i sum msg
        ≡ ok (stored left i msg)
  unfolding decode_beams
  decode_beams-eq zero i sum msg within e = refl
  decode_beams-eq (suc left) i sum msg within e =
      rw (e, read_beam-eq i (omega arith))
        (decode_beams-eq left (i + 1) _ (store_beam fl msg i (beam_of fl p i)) (omega arith)
          (ap (step_sum_of p.a2_contents) {x = suc i} (omega arith)))

  -- On a complete bathymetry packet the conversion returns, without fault or exception, exactly the
  -- message that the packet's sections say: every vector has one entry for each beam, the ranges
  -- and intensities are scaled, the angles come from A2 if it is there and else from A0, and the
  -- flags from Q0. Complete means that each section that is present holds what the beam count asks
  -- for; the sections' sizes fit 16 bits, and what follows them does not begin like one of them.
  pub bth02_sonar_detections-eq :
      (msg : SonarDetections fl) → bth02_sonar_detections fl whole msg ≡ ok (detections_of fl p msg)
  unfolding bth02_sonar_detections
  bth02_sonar_detections-eq msg =
      let c = contents_of p in
      let n = beams_of p in
      let behind_h0 = sections c (r0 ∷ a0 ∷ a2 ∷ i1 ∷ g0 ∷ g1 ∷ q0 ∷ []) rest in
      rw
        (
          (h0-Finds c size stream rest small tail).0,
          h0_field H0.beams p.h0_contents behind_h0 full.h0_full (omega arith),
          h02_ping_info-eq p.h0_contents behind_h0 full.h0_full fl msg.ping_info,
          h02_header-eq p.h0_contents behind_h0 full.h0_full msg.header,
          (q0-Finds c size stream rest small tail).0,
          (q0-Finds c size stream rest small tail).1,
          read_a2-eq fl whole n (no_angles fl) p.a2_contents
              (sections c (i1 ∷ g0 ∷ g1 ∷ q0 ∷ []) rest) (a2-Finds c size stream rest small tail).0
              (a2-Finds c size stream rest small tail).1 full.a2_full,
          read_a0-eq fl whole n (with_a2 fl p.a2_contents (no_angles fl)) p.a0_contents
              (sections c (a2 ∷ i1 ∷ g0 ∷ g1 ∷ q0 ∷ []) rest)
              (a0-Finds c size stream rest small tail).0 (a0-Finds c size stream rest small tail).1
              full.a0_full,
          decode_beams-eq n 0 0 _ (omega arith) (no_steps p.a2_contents),
        )
        (simp fill-resize)
