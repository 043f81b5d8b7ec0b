-- ===== src/Examples/Wire.antt =====
-- Values in memory, commands, configurations, quality flags and the map of assemblers.
use ros2sonic.Prelude.{
  ℕ, ◌+◌, ◌*◌, ◌/◌, ◌^◌, ◌≡◌, ◌≢◌, refl, true, false, List, none, [], ◌∷◌, ◌++◌, drop, replicate,
  get_or, ltb, if◌then◌else◌, arith,
}
use ros2sonic.Outcome.{ok}
use ros2sonic.Memory.{Bytes, IsBytes, assign, bytes_of, rev_primitive, get_at}
use ros2sonic.Memory.Endian.{be_value}
use ros2sonic.Memory.Reads.{get_at-eq}
use ros2sonic.Section.{q0}
use ros2sonic.Section as Base
use ros2sonic.Section.Identity.{at, encode}
use ros2sonic.Section.Q0.{quality_words, get_quality_flag}
use ros2sonic.Section.Q0.Nibbles.{half_of, get_quality_flag-eq-half}
use ros2sonic.Packet.Command.{CmdSet, empty_set}
use ros2sonic.Packet.Command as Commands
use ros2sonic.Packet.Command.RoundTrip.{pack, read_commands, read-serialize}
use ros2sonic.Packet.Config.{
  Config, node_name, fnv1a_hash, hashed_bytes, set_config_id, config_id_is_valid, config_of,
}
use ros2sonic.Packet.Config.Hash.{fnv1a_hash-one_byte}
use ros2sonic.Packet.Config.Identifier.{config_id_detects_change}
use ros2sonic.Node.MsgMap.{find, clean_msg_map}
use ros2sonic.Node.MsgMap.Clean.{find-clean_recent, clean-wraps}
use ros2sonic.Examples.{are_bytes-IsBytes}

get_at-eq_example : get_at 2 (1 ∷ 2 ∷ 3 ∷ []) ≡ ok (be_value (1 ∷ 2 ∷ []))
get_at-eq_example =
    get_at-eq 2 (1 ∷ 2 ∷ 3 ∷ []) (are_bytes-IsBytes (1 ∷ 2 ∷ 3 ∷ []) refl) (omega arith)

abbrev flags : Base.Section
flags = at q0 (encode q0 (0x8F ∷ 0x21 ∷ 0 ∷ 0 ∷ []) [])

get_quality_flag-eq-half_example :
    get_quality_flag flags 3 ≡ ok (half_of 3 (get_or (quality_words flags) (3 / 2) 0))
get_quality_flag-eq-half_example =
    get_quality_flag-eq-half flags 3 (are_bytes-IsBytes (0x8F ∷ 0x21 ∷ 0 ∷ 0 ∷ []) refl)
      (omega arith) (omega arith)

-- Two commands of the head.
abbrev two_commands : List (Bytes × ℕ)
two_commands = (b'R' ∷ b'N' ∷ b'G' ∷ b'0' ∷ [], 50) ∷ (b'P' ∷ b'W' ∷ b'R' ∷ b'0' ∷ [], 70000) ∷ []

read-serialize_example :
    (full : CmdSet) × (pack two_commands empty_set ≡ ok full)
    × (read_commands (drop 4 (Commands.serialize full)) ≡ two_commands)
read-serialize_example =
    read-serialize two_commands ((refl, omega arith), ((refl, omega arith), tt))

letters_differ : ◌≢◌ {A = ℕ} 97 98
letters_differ = grind arith

fnv1a_hash-one_byte_example :
    fnv1a_hash ((1 ∷ []) ++ 97 ∷ 2 ∷ []) ≢ fnv1a_hash ((1 ∷ []) ++ 98 ∷ 2 ∷ [])
fnv1a_hash-one_byte_example =
    fnv1a_hash-one_byte (1 ∷ []) (2 ∷ []) 97 98 (are_bytes-IsBytes (2 ∷ []) refl) (omega arith)
      (omega arith) letters_differ

-- The default configuration, and one with another subnet mask under the same identifier.
abbrev dotted : ℕ → ℕ → ℕ → ℕ → ℕ
dotted a b c d = a * 2 ^ 24 + b * 2 ^ 16 + c * 2 ^ 8 + d

abbrev standard : Config
standard =
    config_of (replicate 12 0) (dotted 255 0 0 0) 0 (dotted 10 0 1 102) (dotted 10 0 0 86)
      (dotted 10 0 0 99)

abbrev altered : Config
altered = record (set_config_id standard) {
  subnet_mask = assign (record { width = 4; raw = 0 }) (dotted 254 0 0 0);
}

abbrev behind_mask : Bytes
behind_mask = drop 1 (hashed_bytes standard)

standard_bytes : hashed_bytes standard ≡ 255 ∷ behind_mask
unfolding hashed_bytes config_of bytes_of assign rev_primitive
standard_bytes = refl

altered_bytes : hashed_bytes altered ≡ 254 ∷ behind_mask
unfolding hashed_bytes config_of bytes_of assign rev_primitive set_config_id
altered_bytes = refl

behind_mask-IsBytes : IsBytes behind_mask
unfolding hashed_bytes config_of bytes_of assign rev_primitive
behind_mask-IsBytes = are_bytes-IsBytes behind_mask refl

standard_width : standard.config_id.width ≡ 4
unfolding config_of assign
standard_width = refl

masks_differ : ◌≢◌ {A = ℕ} 255 254
masks_differ = grind arith

config_id_detects_change_example :
    (config_id_is_valid (set_config_id standard) node_name ≡ true)
    × (config_id_is_valid altered node_name ≡ false)
config_id_detects_change_example =
    config_id_detects_change standard altered [] behind_mask 255 254 standard_width refl
      standard_bytes altered_bytes behind_mask-IsBytes (omega arith) (omega arith) masks_differ

-- Ping 30 is complete; ping 19 has been waiting since.
find-clean_recent_example :
    find 19 (clean_msg_map 30 ((19, true) ∷ (25, false) ∷ []))
    ≡ (if ltb (19 + 10) 30 then none else find 19 ((19, true) ∷ (25, false) ∷ []))
find-clean_recent_example =
    find-clean_recent 30 19 ((19, true) ∷ (25, false) ∷ []) (omega arith) (omega arith)

-- Ping 5 is complete; pings 6 and 7 are under way and are lost.
clean-wraps_example : clean_msg_map 5 ((6, true) ∷ (7, false) ∷ []) ≡ []
clean-wraps_example =
    clean-wraps 5 ((6, true) ∷ (7, false) ∷ []) (omega arith) (omega arith, (omega arith, tt))
