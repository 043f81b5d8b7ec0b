-- ===== src/Packet/Command.antt =====
-- r2sonic/include/r2sonic/packets/cmd_packet.hpp: commands to the sonar, and the packet that holds
-- them.
pub mod RoundTrip
use ros2sonic.Prelude.{ℕ, zero, suc, List, [], ◌∷◌, ◌++◌, length, ◌==◌, if◌then◌else◌}
use ros2sonic.Outcome.{Outcome, ok, throw, invalid_argument}
use ros2sonic.Memory.{Bytes, BigEndianPrimative, assign, bytes_of}

-- Cmd<BE_u32> and Cmd<BE_f32>; the float's value is its bit pattern.
pub data Command : Type 0 where
  int_cmd : Bytes → BigEndianPrimative → Command
  float_cmd : Bytes → BigEndianPrimative → Command

-- A value of four bytes before it is assigned.
abbrev pub fresh : BigEndianPrimative
fresh = record { width = 4; raw = 0 }

-- The constructors; a C string is given by its characters without the final null.
unfoldable pub make_int : Bytes → ℕ → Outcome Command
make_int name value =
    if length name == 4 then ok (int_cmd name (assign fresh value)) else throw invalid_argument

unfoldable pub make_float : Bytes → ℕ → Outcome Command
make_float name bits =
    if length name == 4 then ok (float_cmd name (assign fresh bits)) else throw invalid_argument

-- CmdSet
pub record CmdSet : Type 0 where
  pub packet_name : Bytes
  pub commands : List Command

abbrev pub empty_set : CmdSet
empty_set = record { packet_name = b'C' ∷ b'M' ∷ b'D' ∷ b'0' ∷ []; commands = [] }

unfoldable pub append : CmdSet → Command → CmdSet
append set cmd = record set { commands = set.commands ++ cmd ∷ [] }

-- What the visitor inserts for one command.
abbrev pub command_bytes : Command → Bytes
command_bytes (int_cmd name value) = name ++ bytes_of value
command_bytes (float_cmd name value) = name ++ bytes_of value

unfoldable pub serialize_from : List Command → Bytes → Bytes
serialize_from [] buffer = buffer
serialize_from (cmd ∷ rest) buffer = serialize_from rest (buffer ++ command_bytes cmd)

unfoldable pub serialize : CmdSet → Bytes
serialize set = serialize_from set.commands set.packet_name
