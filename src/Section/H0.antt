-- ===== src/Section/H0.antt =====
-- r2sonic/include/r2sonic/sections/h0.hpp: general information on a ping.
use ros2sonic.Prelude.{ℕ, [], ◌∷◌}
use ros2sonic.Memory.{Bytes}
use ros2sonic.Struct.{Layout}
use ros2sonic.Section.{Section, after_info}

-- H0::Body, field by field; the first two are char[12].
abbrev pub body_layout : Layout
body_layout =
    12 ∷ 12 ∷ 4 ∷ 4 ∷ 4 ∷ 4 ∷ 4 ∷ 4 ∷ 4 ∷ 4 ∷ 4 ∷ 4 ∷ 4 ∷ 4 ∷ 2 ∷ 2 ∷ 4 ∷ 4 ∷ 4 ∷ 4 ∷ 4 ∷ 4 ∷ 4 ∷ 4
    ∷ 2 ∷ 2 ∷ []

-- The positions of the fields that the driver reads.
abbrev pub time_seconds : ℕ
time_seconds = 2

abbrev pub time_nanoseconds : ℕ
time_nanoseconds = 3

abbrev pub ping_number : ℕ
ping_number = 4

abbrev pub sound_speed : ℕ
sound_speed = 6

abbrev pub frequency : ℕ
frequency = 7

abbrev pub tx_beamwidth_vert : ℕ
tx_beamwidth_vert = 10

abbrev pub tx_beamwidth_horiz : ℕ
tx_beamwidth_horiz = 11

abbrev pub tx_steering_vert : ℕ
tx_steering_vert = 12

abbrev pub rx_sample_rate : ℕ
rx_sample_rate = 17

abbrev pub beams : ℕ
beams = 25

-- body() does not check that the section is there.
abbrev pub body : Section → Bytes
body s = after_info s
