-- ===== src/Packet.antt =====
-- r2sonic/include/r2sonic/packets/packet.hpp: what all packets have in common.
pub mod Bth0
pub mod Aid0
pub mod Sequence
pub mod Command
pub mod Config
use ros2sonic.Prelude.{ℕ, zero, suc, ◌%◌, Bool, [], ◌∷◌, drop, if◌then◌else◌}
use ros2sonic.Outcome.{Outcome, ok, throw, fault, out_of_range, ◌>>=◌}
use ros2sonic.Memory.{Bytes}
use ros2sonic.Struct.{Layout, sizeof, field}
use ros2sonic.Section.{strncmp_eq}

-- The packet classes.
pub data PacketKind : Type 0 where
  bth0 aid0 : PacketKind

pub record Packet : Type 0 where
  pub kind : PacketKind
  pub start_bit : Bytes

-- nominalType(), with its final null
abbrev pub nominal_type : PacketKind → Bytes
nominal_type bth0 = b'B' ∷ b'T' ∷ b'H' ∷ b'0' ∷ 0 ∷ []
nominal_type aid0 = b'A' ∷ b'I' ∷ b'D' ∷ b'0' ∷ 0 ∷ []

-- struct MiniHeader { char PacketName[4]; BE_u32 PacketSize; BE_u32 DataStreamID; }
-- (r2sonic/include/r2sonic/sections/miniheader.hpp)
abbrev pub mini_header : Layout
mini_header = 4 ∷ 4 ∷ 4 ∷ []

-- The u32 PacketSize is cut to the u16 that getSize() returns.
unfoldable pub get_size : Packet → Outcome ℕ
get_size pkt = do size ← field mini_header 1 pkt.start_bit; ok (size % 65536)

unfoldable pub end : Packet → Outcome Bytes
end pkt = do size ← get_size pkt; ok (drop size pkt.start_bit)

-- SectionsStartBit()
abbrev pub sections_start_bit : Packet → Bytes
sections_start_bit pkt = drop (sizeof mini_header) pkt.start_bit

unfoldable pub is_type : Packet → Outcome Bool
is_type pkt = strncmp_eq 4 pkt.start_bit (nominal_type pkt.kind)

-- A `std::string` from a `char*`: read up to a null byte, wherever it comes.
unfoldable pub c_string : Bytes → Outcome Bytes
c_string [] = fault
c_string (zero ∷ _) = ok []
c_string (suc c ∷ rest) = do more ← c_string rest; ok (suc c ∷ more)

-- The string `rec` for the message is made of PacketName, four letters with no null behind them.
unfoldable pub type_error_check : Packet → Outcome (Unit {0})
type_error_check pkt = do
  matches ← is_type pkt
  if matches then ok tt else (do received ← c_string pkt.start_bit; throw out_of_range)
