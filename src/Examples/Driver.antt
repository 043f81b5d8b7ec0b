-- ===== src/Examples/Driver.antt =====
-- A launch in control mode, and a small set of parameters.
use ros2sonic.Prelude.{
  ℕ, ◌%◌, ◌^◌, Bool, true, Option, none, some, [], ◌∷◌, replicate, if◌then◌else◌,
}
use ros2sonic.Memory.{Bytes}
use ros2sonic.Text.{text, text_eq, is_empty}
use ros2sonic.Inet.{Inet}
use ros2sonic.Floats.{Floats}
use ros2sonic.Node.Ros.{Ros}
use ros2sonic.Node.Table.{Entry, Table}
use ros2sonic.Node.Parameters.{Parameters}
use ros2sonic.Node.Commands.{Sockets}
use ros2sonic.Examples.{whole_numbers}

-- A float has a pattern of 32 bits.
abbrev pub patterns : Floats
patterns = record whole_numbers { to_bits = λ n. n % 2 ^ 32 }

pub data Value : Type 0 where
  boolean : Bool → Value
  integer : ℕ → Value
  double : ℕ → Value
  string : Bytes → Value

abbrev bool_of : Value → Option Bool
bool_of (boolean b) = some b
bool_of (integer n) = none
bool_of (double x) = none
bool_of (string s) = none

abbrev int_of : Value → Option ℕ
int_of (boolean b) = none
int_of (integer n) = some n
int_of (double x) = none
int_of (string s) = none

abbrev double_of : Value → Option ℕ
double_of (boolean b) = none
double_of (integer n) = none
double_of (double x) = some x
double_of (string s) = none

abbrev string_of : Value → Option Bytes
string_of (boolean b) = none
string_of (integer n) = none
string_of (double x) = none
string_of (string s) = some s

-- The launch sets the control mode and the serial numbers.
abbrev given : Bytes → Value → Option Value
given topic v =
    if text_eq topic (text "driver.control_mode")
    then some (boolean true)
    else if text_eq topic (text "sonar.head_serial")
    then some (string (text "101"))
    else if text_eq topic (text "sonar.sim_serial")
    then some (string (text "202"))
    else some v

abbrev pub launch : Ros patterns
launch = record {
  Value = Value;
  of_bool = λ b. boolean b;
  of_int = λ n. integer n;
  of_double = λ x. double x;
  of_string = λ s. string s;
  as_bool = bool_of;
  as_int = int_of;
  as_double = double_of;
  as_string = string_of;
  declared = given;
  what = λ e. [];
}

-- Every text but the empty one and "nowhere" is the address 0x0A000001.
abbrev pub resolver : Inet
resolver = record {
  inet_pton = λ s.
      if is_empty s then none else if text_eq s (text "nowhere") then none else some 0x0A000001;
  ntohl = λ n. n;
}

abbrev pub cable : Sockets
cable = record { from_string = λ s. true; accepts = λ d. true }

abbrev entry {ℓ} : {A : Type ℓ} → Bytes → Bytes → A → Entry A
entry k n v = record { key = k; name = n; value = v }

-- Parameters with the given addresses of the simulator's commands.
abbrev pub small : Table Bytes → Parameters patterns
small ips = record {
  network = record {
    subnet_mask = text "255.0.0.0";
    gateway_ip = text "0.0.0.0";
    gui_ip = text "10.0.1.102";
    gui_baseport = 65400;
    head_ips = replicate 4 (text "10.0.0.86");
    head_baseports = replicate 4 65500;
    simbox_ips = replicate 4 (text "10.0.0.99");
    simbox_baseports = replicate 4 65535;
    daq_ips = replicate 8 (text "10.0.1.102");
    daq_baseports = replicate 8 4100;
  };
  driver = record { control_mode = true };
  sonar = record {
    system_index = 1;
    head_serial = text "101";
    sim_serial = text "202";
    interface_ip = text "0.0.0.0";
    tx_frame_id = text "tx";
    rx_frame_id = text "rx";
  };
  topics = record { detections = []; bth0 = []; acoustic_image = []; aid0 = [] };
  sim_commands = record {
    int_params = entry (text "pps_edge") (text "POG0") 1 ∷ [];
    ip_str_params = ips;
  };
  head_commands = record {
    float_params = entry (text "range") (text "RNG0") 5 ∷ [];
    int_params = entry (text "power") (text "POW0") 200 ∷ [];
  };
}

abbrev pub gps : Entry Bytes
gps = entry (text "gps_ip_addr") (text "IPG0") (text "10.0.0.44")

abbrev pub lost : Entry Bytes
lost = entry (text "motion_ip_addr") (text "IPM0") (text "nowhere")
