-- ===== src/Node/Parameters/Init.antt =====
-- R2SonicNode::Parameters::init of r2sonic/src/r2sonic_node.cpp: every parameter is declared, and
-- takes the value that the launch gives it.
pub mod Valid
pub mod Setup
pub mod Arrays
pub mod Ready
use ros2sonic.Prelude.{
  ℕ, zero, suc, ◌+◌, ◌-◌, ◌%◌, ◌^◌, Bool, true, false, ◌&&◌, ◌||◌, Option, List, [], ◌∷◌, ◌++◌,
  get_elem?, set, ltb, if◌then◌else◌,
}
use ros2sonic.Outcome.{Outcome, ok, or_fault, or_throw, parameter_type, ◌>>=◌, ◌>>◌}
use ros2sonic.Memory.{Bytes}
use ros2sonic.Text.{text, digit, is_empty}
use ros2sonic.Floats.{Floats}
use ros2sonic.Node.Table.{Entry, Table}
use ros2sonic.Node.Ros.{Ros}
use ros2sonic.Node.Parameters.{
  Network, Driver, Sonar, Topics, SimCmds, HeadCmds, Parameters, systems, daqs, get_head_ip,
  get_head_baseport, get_sim_ip, get_sim_baseport,
}

-- An `int` where an `int64_t` is wanted, and back.
abbrev pub int64_of_int : ℕ → ℕ
int64_of_int n = if ltb n (2 ^ 31) then n else n + (2 ^ 64 - 2 ^ 32)

abbrev pub int_of_int64 : ℕ → ℕ
int_of_int64 n = n % 2 ^ 32

abbrev pub fix_empty_ip : Bytes → Bytes
fix_empty_ip ip = if is_empty ip then text "0.0.0.0" else ip

-- The control mode needs both serial numbers.
unfoldable pub validate : {fl : Floats} → Parameters fl → Parameters fl
validate params =
    if params.driver.control_mode
      && (is_empty params.sonar.head_serial || is_empty params.sonar.sim_serial)
    then record params { driver = record (params.driver) { control_mode = false } }
    else params

module _ {fl : Floats} (ros : Ros fl) where
  open fl use {F32, double_of_float, float_of_double}

  -- setupParam for each type of a parameter.
  unfoldable pub setup_string : Bytes → Bytes → Outcome Bytes
  setup_string topic initial = do
    v ← or_throw parameter_type (ros.declared topic (ros.of_string initial))
    or_throw parameter_type (ros.as_string v)

  unfoldable pub setup_int : Bytes → ℕ → Outcome ℕ
  setup_int topic initial = do
    v ← or_throw parameter_type (ros.declared topic (ros.of_int (int64_of_int initial)))
    n ← or_throw parameter_type (ros.as_int v)
    ok (int_of_int64 n)

  unfoldable pub setup_bool : Bytes → Bool → Outcome Bool
  setup_bool topic initial = do
    v ← or_throw parameter_type (ros.declared topic (ros.of_bool initial))
    or_throw parameter_type (ros.as_bool v)

  unfoldable pub setup_float : Bytes → F32 → Outcome F32
  setup_float topic initial = do
    v ← or_throw parameter_type (ros.declared topic (ros.of_double (double_of_float initial)))
    x ← or_throw parameter_type (ros.as_double v)
    ok (float_of_double x)

  unfoldable pub setup_ip : Bytes → Bytes → Outcome Bytes
  setup_ip topic initial = do ip ← setup_string topic initial; ok (fix_empty_ip ip)

  -- The loop over a table of commands.
  unfoldable pub setup_table {ℓ} :
      {A : Type ℓ} → (Bytes → A → Outcome A) → Bytes → Table A → Outcome (Table A)
  setup_table setup prefix [] = ok []
  setup_table setup prefix (e ∷ t) = do
    v ← setup (prefix ++ e.key) e.value
    rest ← setup_table setup prefix t
    ok (record e { value = v } ∷ rest)

  unfoldable pub init_topics : Topics → Outcome Topics
  init_topics topics = do
    detections ← setup_string (text "topics.detections") topics.detections
    bth0 ← setup_string (text "topics.bth0") topics.bth0
    aid0 ← setup_string (text "topics.aid0") topics.aid0
    acoustic_image ← setup_string (text "topics.acoustic_image") topics.acoustic_image
    ok (record {
      detections = detections;
      bth0 = bth0;
      acoustic_image = acoustic_image;
      aid0 = aid0;
    })

  unfoldable pub init_sonar : Sonar → Outcome Sonar
  init_sonar sonar = do
    system_index ← setup_int (text "sonar.system_index") sonar.system_index
    head_serial ← setup_string (text "sonar.head_serial") sonar.head_serial
    sim_serial ← setup_string (text "sonar.sim_serial") sonar.sim_serial
    interface_ip ← setup_ip (text "sonar.interface_ip") sonar.interface_ip
    tx_frame_id ← setup_string (text "sonar.tx_frame_id") sonar.tx_frame_id
    rx_frame_id ← setup_string (text "sonar.rx_frame_id") sonar.rx_frame_id
    ok (record {
      system_index = system_index;
      head_serial = head_serial;
      sim_serial = sim_serial;
      interface_ip = interface_ip;
      tx_frame_id = tx_frame_id;
      rx_frame_id = rx_frame_id;
    })

  -- The loops over the systems and the data destinations from `i` on, with `left` rounds to go.
  unfoldable pub init_systems : ℕ → ℕ → Network → Outcome Network
  init_systems zero i net = ok net
  init_systems (suc left) i net = do
    head_ip ← or_fault (get_elem? net.head_ips i)
    head_ip' ← setup_ip (text "network.head_ips_" ++ digit i) head_ip
    head_baseport ← or_fault (get_elem? net.head_baseports i)
    head_baseport' ← setup_int (text "network.head_baseports_" ++ digit i) head_baseport
    simbox_ip ← or_fault (get_elem? net.simbox_ips i)
    simbox_ip' ← setup_ip (text "network.simbox_ips_" ++ digit i) simbox_ip
    simbox_baseport ← or_fault (get_elem? net.simbox_baseports i)
    simbox_baseport' ← setup_int (text "network.simbox_baseports_" ++ digit i) simbox_baseport
    init_systems left (i + 1) (record net {
      head_ips = set net.head_ips i head_ip';
      head_baseports = set net.head_baseports i head_baseport';
      simbox_ips = set net.simbox_ips i simbox_ip';
      simbox_baseports = set net.simbox_baseports i simbox_baseport';
    })

  unfoldable pub init_daqs : ℕ → ℕ → Network → Outcome Network
  init_daqs zero i net = ok net
  init_daqs (suc left) i net = do
    daq_ip ← or_fault (get_elem? net.daq_ips i)
    daq_ip' ← setup_ip (text "network.daq_ips_" ++ digit i) daq_ip
    daq_baseport ← or_fault (get_elem? net.daq_baseports i)
    daq_baseport' ← setup_int (text "network.daq_baseports_" ++ digit i) daq_baseport
    init_daqs left (i + 1) (record net {
      daq_ips = set net.daq_ips i daq_ip';
      daq_baseports = set net.daq_baseports i daq_baseport';
    })

  unfoldable pub init_network : Network → Outcome Network
  init_network net = do
    subnet_mask ← setup_ip (text "network.subnet_mask") net.subnet_mask
    gateway_ip ← setup_ip (text "network.gateway_ip") net.gateway_ip
    gui_ip ← setup_ip (text "network.gui_ip") net.gui_ip
    gui_baseport ← setup_int (text "network.gui_baseport") net.gui_baseport
    with_systems ← init_systems systems 0 (record net {
      subnet_mask = subnet_mask;
      gateway_ip = gateway_ip;
      gui_ip = gui_ip;
      gui_baseport = gui_baseport;
    })
    init_daqs daqs 0 with_systems

  unfoldable pub init_sim_cmds : SimCmds → Outcome SimCmds
  init_sim_cmds cmds = do
    ints ← setup_table setup_int (text "sim_commands.") cmds.int_params
    ips ← setup_table setup_string (text "sim_commands.") cmds.ip_str_params
    ok (record { int_params = ints; ip_str_params = ips })

  unfoldable pub init_head_cmds : HeadCmds fl → Outcome (HeadCmds fl)
  init_head_cmds cmds = do
    floats ← setup_table setup_float (text "head_commands.") cmds.float_params
    ints ← setup_table setup_int (text "head_commands.") cmds.int_params
    ok (record { float_params = floats; int_params = ints })

  -- What the summary in the log reads of the selected system.
  unfoldable pub log_selected : Parameters fl → Outcome (Unit {0})
  log_selected params = do
    head_ip ← get_head_ip params
    head_baseport ← get_head_baseport params
    sim_ip ← get_sim_ip params
    sim_baseport ← get_sim_baseport params
    ok tt

  unfoldable pub init : Parameters fl → Outcome (Parameters fl)
  init params = do
    topics ← init_topics params.topics
    control_mode ← setup_bool (text "driver.control_mode") params.driver.control_mode
    sonar ← init_sonar params.sonar
    network ← init_network params.network
    sim ← init_sim_cmds params.sim_commands
    head ← init_head_cmds params.head_commands
    let params' : Parameters fl = record {
      network = network;
      driver = record { control_mode = control_mode };
      sonar = sonar;
      topics = topics;
      sim_commands = sim;
      head_commands = head;
    }
    log_selected params'
    ok (validate params')
