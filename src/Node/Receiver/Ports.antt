-- ===== src/Node/Receiver/Ports.antt =====
-- The ports that the three receivers of the main program listen to.
use ros2sonic.Prelude.{ℕ, ◌+◌, ◌%◌, ◌^◌, ◌<◌, ◌≡◌, ◌≢◌, lt→ltb, ap, ◌∙◌, arith}
use ros2sonic.Outcome.{ok}
use ros2sonic.Node.Receiver.{listen_port}

listen_port-eq :
    (offset b : ℕ) → b + offset < 2 ^ 31 → listen_port offset b ≡ ok ((b + offset) % 65536)
unfolding listen_port
listen_port-eq offset b h = rw (lt→ltb (b + offset) (2 ^ 31) h)

-- If three can be added to the base port without an overflow, the receivers of the bathymetry, of
-- the commands and of the acoustic images listen at the base port and the second and third port
-- after it, cut to 16 bits, and these are three different ports, also where they wrap around.
pub listen_ports_differ :
    (b : ℕ)
    → b + 3 < 2 ^ 31
    → (bathymetry commands images : ℕ) × (listen_port 0 b ≡ ok bathymetry)
      × (listen_port 2 b ≡ ok commands)
      × (listen_port 3 b ≡ ok images)
      × (commands ≡ (bathymetry + 2) % 65536)
      × (images ≡ (bathymetry + 3) % 65536)
      × (bathymetry ≢ commands)
      × (bathymetry ≢ images)
      × (commands ≢ images)
listen_ports_differ b h = (
  b % 65536,
  (b + 2) % 65536,
  (b + 3) % 65536,
  listen_port-eq 0 b (omega arith) ∙ ap ok (omega arith),
  listen_port-eq 2 b (omega arith),
  listen_port-eq 3 b (omega arith),
  omega arith,
  omega arith,
  λ e. omega arith,
  λ e. omega arith,
  λ e. omega arith,
)
