-- ===== src/Node/Commands.antt =====
-- What the timer of R2SonicNode sends (r2sonic/src/r2sonic_node.cpp), and `sendUdpMessage` of
-- r2sonic/include/r2sonic/r2sonic_node.hpp.
pub mod Tables
pub mod Packets
pub mod Configs
pub mod Round
pub mod Ends
use ros2sonic.Prelude.{
  ℕ, zero, suc, ◌+◌, ◌-◌, ◌%◌, ◌^◌, Bool, true, false, ◌&&◌, ◌||◌, not, Option, none, some, List,
  [], ◌∷◌, ◌++◌, get_elem?, set, ltb, leb, if◌then◌else◌,
}
use ros2sonic.Outcome.{
  Outcome, ok, throw, fault, or_fault, or_throw, runtime_error, system_error, ◌>>=◌,
}
use ros2sonic.Memory.{Bytes}
use ros2sonic.Text.{text, text_eq, contains, c_str, strncpy}
use ros2sonic.Inet.{Inet, ip_str_to_u32}
use ros2sonic.Floats.{Floats}
use ros2sonic.Packet.Command as Command
use ros2sonic.Packet.Command.{CmdSet, empty_set, append, make_int, make_float}
use ros2sonic.Packet.Config as Config
use ros2sonic.Packet.Config.{field_of, set_config_id, default_config}
use ros2sonic.Node.Table.{Entry, Table}
use ros2sonic.Node.Parameters.{
  Network, Parameters, systems, daqs, get_head_ip, get_head_baseport, get_sim_ip, get_sim_baseport,
}

-- One UDP message on its way.
pub record Datagram : Type 0 where
  pub payload : Bytes
  pub destination : Bytes
  pub port : ℕ
  pub is_broadcast : Bool

-- What the driver uses of boost's sockets: whether from_string reads an address, and whether
-- opening a socket, setting its option and sending succeed.
pub record Sockets : Type 0 where
  pub from_string : Bytes → Bool
  pub accepts : Datagram → Bool

-- from_string stands before the `try`, so a text that is no address raises. The log is not kept;
-- the result is what was sent so far, and whether this message was.
unfoldable pub send_udp_message :
    Sockets → Bytes → Bytes → ℕ → List Datagram → Outcome (Bool × List Datagram)
send_udp_message net message destination_ip port sent =
    let datagram : Datagram = record {
      payload = message;
      destination = destination_ip;
      port = port;
      is_broadcast =
          text_eq destination_ip (text "255.255.255.255") || contains (text "255") destination_ip;
    } in
    if not (net.from_string destination_ip)
    then throw system_error
    else ok (if net.accepts datagram then (true, sent ++ datagram ∷ []) else (false, sent))

-- `port + 2` is computed in `int`, where an overflow is undefined, and cut to an unsigned short.
unfoldable pub command_port : ℕ → Outcome ℕ
command_port baseport =
    if leb (2 ^ 31 - 2) baseport && ltb baseport (2 ^ 31)
    then fault
    else ok ((baseport + 2) % 65536)

-- The loops over the tables.
unfoldable pub append_ints : Table ℕ → CmdSet → Outcome CmdSet
append_ints [] set = ok set
append_ints (e ∷ t) set = do cmd ← make_int (c_str e.name) e.value; append_ints t (append set cmd)

unfoldable pub append_ips : Inet → Table Bytes → CmdSet → Outcome CmdSet
append_ips inet [] set = ok set
append_ips inet (e ∷ t) set = do
  ip_u32 ← ip_str_to_u32 inet e.value
  cmd ← make_int (c_str e.name) ip_u32
  append_ips inet t (append set cmd)

unfoldable pub append_floats : (fl : Floats) → Table fl.F32 → CmdSet → Outcome CmdSet
append_floats fl [] set = ok set
append_floats fl (e ∷ t) set = do
  cmd ← make_float (c_str e.name) (fl.to_bits e.value)
  append_floats fl t (append set cmd)

-- The loops of make_config from `i` on, with `left` rounds to go.
unfoldable pub fill_systems : Inet → Network → ℕ → ℕ → Config.Config → Outcome Config.Config
fill_systems inet net zero i cfg = ok cfg
fill_systems inet net (suc left) i cfg = do
  head_text ← or_fault (get_elem? net.head_ips i)
  head_ip ← ip_str_to_u32 inet head_text
  head_baseport ← or_fault (get_elem? net.head_baseports i)
  simbox_text ← or_fault (get_elem? net.simbox_ips i)
  simbox_ip ← ip_str_to_u32 inet simbox_text
  simbox_baseport ← or_fault (get_elem? net.simbox_baseports i)
  fill_systems inet net left (i + 1) (record cfg {
    head_ip = set cfg.head_ip i (field_of 4 head_ip);
    head_baseport = set cfg.head_baseport i (field_of 2 head_baseport);
    simbox_ip = set cfg.simbox_ip i (field_of 4 simbox_ip);
    simbox_baseport = set cfg.simbox_baseport i (field_of 2 simbox_baseport);
  })

unfoldable pub fill_daqs : Inet → Network → ℕ → ℕ → Config.Config → Outcome Config.Config
fill_daqs inet net zero i cfg = ok cfg
fill_daqs inet net (suc left) i cfg = do
  daq_text ← or_fault (get_elem? net.daq_ips i)
  daq_ip ← ip_str_to_u32 inet daq_text
  daq_baseport ← or_fault (get_elem? net.daq_baseports i)
  fill_daqs inet net left (i + 1) (record cfg {
    daq_ip = set cfg.daq_ip i (field_of 4 daq_ip);
    daq_baseport = set cfg.daq_baseport i (field_of 2 daq_baseport);
  })

-- The lambda of sendNetworkConfig. `unset` is what the constructor leaves in serial_number.
unfoldable pub make_config :
    {fl : Floats} → Inet → Parameters fl → Bytes → Bytes → Outcome Config.Config
make_config inet params unset serial = do
  cfg ← default_config inet unset
  subnet_mask ← ip_str_to_u32 inet params.network.subnet_mask
  gateway_ip ← ip_str_to_u32 inet params.network.gateway_ip
  gui_ip ← ip_str_to_u32 inet params.network.gui_ip
  with_systems ← fill_systems inet params.network systems 0 (record cfg {
    serial_number = strncpy 12 (c_str serial);
    subnet_mask = field_of 4 subnet_mask;
    gateway_ip = field_of 4 gateway_ip;
    gui_ip = field_of 4 gui_ip;
    gui_baseport = field_of 2 params.network.gui_baseport;
    system = field_of 2 params.sonar.system_index;
  })
  with_daqs ← fill_daqs inet params.network daqs 0 with_systems
  ok (set_config_id with_daqs)

module _ {fl : Floats} (inet : Inet) (net : Sockets) (params : Parameters fl) where
  unfoldable pub send_network_config : Bytes → List Datagram → Outcome (List Datagram)
  send_network_config unset sent = do
    head_cfg ← make_config inet params unset params.sonar.head_serial
    to_head ← send_udp_message net (Config.serialize head_cfg) (text "10.255.255.255") 53810 sent
    sim_cfg ← make_config inet params unset params.sonar.sim_serial
    to_sim ← send_udp_message net (Config.serialize sim_cfg) (text "10.255.255.255") 53810 to_head.1
    ok to_sim.1

  unfoldable pub send_sim_cmds : List Datagram → Outcome (List Datagram)
  send_sim_cmds sent = do
    ints ← append_ints params.sim_commands.int_params empty_set
    cmd_pkt ← append_ips inet params.sim_commands.ip_str_params ints
    ip ← get_sim_ip params
    baseport ← get_sim_baseport params
    port ← command_port baseport
    result ← send_udp_message net (Command.serialize cmd_pkt) ip port sent
    ok result.1

  unfoldable pub send_head_cmds : List Datagram → Outcome (List Datagram)
  send_head_cmds sent = do
    floats ← append_floats fl params.head_commands.float_params empty_set
    cmd_pkt ← append_ints params.head_commands.int_params floats
    ip ← get_head_ip params
    baseport ← get_head_baseport params
    port ← command_port baseport
    result ← send_udp_message net (Command.serialize cmd_pkt) ip port sent
    ok result.1

  unfoldable pub send_cmds : Bytes → List Datagram → Outcome (List Datagram)
  send_cmds unset sent =
      if params.driver.control_mode
      then (do
        configured ← send_network_config unset sent
        simulated ← send_sim_cmds configured
        send_head_cmds simulated)
      else ok sent
