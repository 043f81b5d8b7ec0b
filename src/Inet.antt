-- ===== src/Inet.antt =====
-- Addresses as texts (ip_str_to_u32 of r2sonic/include/r2sonic/packets/r2dc.hpp).
use ros2sonic.Prelude.{ℕ, Option, none, some}
use ros2sonic.Outcome.{Outcome, ok, throw, runtime_error}
use ros2sonic.Memory.{Bytes}
use ros2sonic.Text.{c_str}

-- What the driver calls of the C library: inet_pton for AF_INET, which refuses a text that is no
-- dotted address, and ntohl.
pub record Inet : Type 0 where
  pub inet_pton : Bytes → Option ℕ
  pub ntohl : ℕ → ℕ

-- The text is given as the string on which the code calls `c_str()`.
unfoldable pub ip_str_to_u32 : Inet → Bytes → Outcome ℕ
ip_str_to_u32 inet ip_str = elim (inet.inet_pton (c_str ip_str)) [
  | none ↦ throw runtime_error
  | some ip_be ↦ ok (inet.ntohl ip_be)
]
