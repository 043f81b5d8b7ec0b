-- ===== src/Examples.antt =====
-- Concrete packets, messages and configurations, and the theorems applied to them.
pub mod Bathymetry
pub mod Image
pub mod Publishing
pub mod Ping
pub mod Outside
pub mod Mixed
pub mod Threads
pub mod Wire
pub mod Driver
pub mod Launch
pub mod Sending
pub mod Receiving
use ros2sonic.Prelude.{
  ℕ, ◌+◌, ◌-◌, ◌*◌, ◌/◌, ◌<◌, ◌≡◌, refl, sym, ap, ◌∙◌, Bool, true, false, ◌&&◌, Option, none, some,
  [], ◌∷◌, length, ltb, ltb→lt, arith,
}
use ros2sonic.Memory.{Bytes, IsBytes}
use ros2sonic.Floats.{Floats}
use ros2sonic.Conversions.Detections.{SonarDetections}

-- Arithmetic on whole numbers in the place of the host's floating point.
abbrev pub whole_numbers : Floats
whole_numbers = record {
  F32 = ℕ;
  F64 = ℕ;
  of_bits = λ n. n;
  to_bits = λ n. n;
  of_ℕ = λ n. n;
  add = λ a b. a + b;
  sub = λ a b. a - b;
  mul = λ a b. a * b;
  div = λ a b. a / b;
  double_of_ℕ = λ n. n;
  double_of_float = λ n. n;
  double_mul = λ a b. a * b;
  double_div = λ a b. a / b;
  float_of_double = λ n. n;
}

abbrev pub are_bytes : Bytes → Bool
are_bytes [] = true
are_bytes (b ∷ bs) = ltb b 256 && are_bytes bs

pub are_bytes-IsBytes : (bs : Bytes) → are_bytes bs ≡ true → IsBytes bs
are_bytes-IsBytes [] h = tt
are_bytes-IsBytes (b ∷ bs) h = (ltb→lt b 256 (ground arith), are_bytes-IsBytes bs (ground arith))

abbrev pub fits : Option Bytes → Bool
fits none = true
fits (some b) = ltb (length b + 4) 65536

pub fits_small : (o : Option Bytes) (b : Bytes) → fits o ≡ true → o ≡ some b → length b + 4 < 65536
fits_small o b h e = ltb→lt (length b + 4) 65536 (sym (ap fits e) ∙ h)

-- A message without a beam.
abbrev pub blank : SonarDetections whole_numbers
blank = record {
  header = record { sec = 0; nanosec = 0; frame_id = [] };
  ping_info = record { frequency = 0; sound_speed = 0; tx_beamwidths = []; rx_beamwidths = [] };
  two_way_travel_times = [];
  tx_delays = [];
  intensities = [];
  tx_angles = [];
  rx_angles = [];
  flags = [];
}
