-- ===== src/Packet/Config.antt =====
-- r2sonic/include/r2sonic/packets/r2dc.hpp: the device configuration that the driver broadcasts.
pub mod Hash
pub mod Identifier
use ros2sonic.Prelude.{
  ℕ, zero, suc, ◌+◌, ◌-◌, ◌*◌, ◌%◌, ◌^◌, Bool, List, [], ◌∷◌, ◌++◌, length, drop, replicate, take,
  bit_xor, ◌==◌,
}
use ros2sonic.Outcome.{Outcome, ok, ◌>>=◌}
use ros2sonic.Text.{text}
use ros2sonic.Inet.{Inet, ip_str_to_u32}
use ros2sonic.Memory.{Bytes, BigEndianPrimative, get, assign, bytes_of}

-- One round: `hash ^= byte; hash *= FNV_PRIME`, in uint32_t.
unfoldable pub fnv_step : ℕ → ℕ → ℕ
fnv_step hash byte = bit_xor hash byte * 0x01000193 % 2 ^ 32

unfoldable pub fnv_from : ℕ → Bytes → ℕ
fnv_from hash [] = hash
fnv_from hash (byte ∷ rest) = fnv_from (fnv_step hash byte) rest

unfoldable pub fnv1a_hash : Bytes → ℕ
fnv1a_hash bytes = fnv_from 0x811C9DC5 bytes

-- struct R2DC. The arrays of SYSTEMS (4), DAQS (8) and 8 elements are lists.
pub record Config : Type 0 where
  pub name : Bytes
  pub serial_number : Bytes
  pub config_id : BigEndianPrimative
  pub subnet_mask : BigEndianPrimative
  pub gateway_ip : BigEndianPrimative
  pub gui_ip : BigEndianPrimative
  pub gui_baseport : BigEndianPrimative
  pub system : BigEndianPrimative
  pub head_ip : List BigEndianPrimative
  pub head_baseport : List BigEndianPrimative
  pub simbox_ip : List BigEndianPrimative
  pub simbox_baseport : List BigEndianPrimative
  pub daq_ip : List BigEndianPrimative
  pub daq_baseport : List BigEndianPrimative
  pub spare : List BigEndianPrimative

abbrev pub bytes_of_all : List BigEndianPrimative → Bytes
bytes_of_all [] = []
bytes_of_all (v ∷ vs) = bytes_of v ++ bytes_of_all vs

-- The struct's memory from `subnet_mask` to its end.
unfoldable pub hashed_bytes : Config → Bytes
hashed_bytes c =
    bytes_of c.subnet_mask
    ++ (bytes_of c.gateway_ip
        ++ (bytes_of c.gui_ip
            ++ (bytes_of c.gui_baseport
                ++ (bytes_of c.system
                    ++ (bytes_of_all c.head_ip
                        ++ (bytes_of_all c.head_baseport
                            ++ (bytes_of_all c.simbox_ip
                                ++ (bytes_of_all c.simbox_baseport
                                    ++ (bytes_of_all c.daq_ip
                                        ++ (bytes_of_all c.daq_baseport
                                            ++ bytes_of_all c.spare))))))))))

unfoldable pub generate_config_id : Config → Bytes → ℕ
generate_config_id c node_name = bit_xor (fnv1a_hash node_name) (fnv1a_hash (hashed_bytes c))

-- "ros2sonic"
abbrev pub node_name : Bytes
node_name = b'r' ∷ b'o' ∷ b's' ∷ b'2' ∷ b's' ∷ b'o' ∷ b'n' ∷ b'i' ∷ b'c' ∷ []

unfoldable pub set_config_id : Config → Config
set_config_id c = record c { config_id = assign c.config_id (generate_config_id c node_name) }

unfoldable pub config_id_is_valid : Config → Bytes → Bool
config_id_is_valid c name = get c.config_id == generate_config_id c name

-- The whole struct's memory.
unfoldable pub serialize : Config → Bytes
serialize c = c.name ++ (c.serial_number ++ (bytes_of c.config_id ++ hashed_bytes c))

-- A field assigned for the first time.
abbrev pub field_of : ℕ → ℕ → BigEndianPrimative
field_of w v = assign (record { width = w; raw = 0 }) v

-- The values of the constructor, given the numbers of its five addresses. The serial number is left
-- unset.
unfoldable pub config_of : Bytes → ℕ → ℕ → ℕ → ℕ → ℕ → Config
config_of unset mask no_ip daq_ip head_ip sim_ip =
    let none = field_of 4 no_ip in
    let daq = field_of 4 daq_ip in
    record {
      name = b'R' ∷ b'2' ∷ b'D' ∷ b'C' ∷ [];
      serial_number = unset;
      config_id = field_of 4 2549138156;
      subnet_mask = field_of 4 mask;
      gateway_ip = none;
      gui_ip = daq;
      gui_baseport = field_of 2 65400;
      system = field_of 2 0;
      head_ip = field_of 4 head_ip ∷ replicate 3 none;
      head_baseport = field_of 2 65500 ∷ replicate 3 (field_of 2 0);
      simbox_ip = field_of 4 sim_ip ∷ replicate 3 none;
      simbox_baseport = field_of 2 65500 ∷ replicate 3 (field_of 2 0);
      daq_ip = daq ∷ daq ∷ daq ∷ replicate 5 none;
      daq_baseport =
          field_of 2 4100 ∷ field_of 2 4200 ∷ field_of 2 4300 ∷ replicate 5 (field_of 2 0);
      spare = replicate 8 (field_of 4 0);
    }

-- The constructor. A literal that stands in it more than once is read once here.
unfoldable pub default_config : Inet → Bytes → Outcome Config
default_config inet unset = do
  mask ← ip_str_to_u32 inet (text "255.0.0.0")
  no_ip ← ip_str_to_u32 inet (text "0.0.0.0")
  daq ← ip_str_to_u32 inet (text "10.0.1.102")
  head ← ip_str_to_u32 inet (text "10.0.0.86")
  sim ← ip_str_to_u32 inet (text "10.0.0.99")
  ok (config_of unset mask no_ip daq head sim)
