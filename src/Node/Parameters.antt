-- ===== src/Node/Parameters.antt =====
-- R2SonicNode::Parameters of r2sonic/include/r2sonic/r2sonic_node.hpp: what the node is configured
-- with. An `int` is given by its bit pattern, and an array is a list of its length.
pub mod Defaults
pub mod Init
pub mod Update
pub mod Valid
use ros2sonic.Prelude.{ℕ, Bool, List, get_elem?}
use ros2sonic.Outcome.{Outcome, or_fault}
use ros2sonic.Memory.{Bytes}
use ros2sonic.Floats.{Floats}
use ros2sonic.Node.Table.{Table}

pub record Network : Type 0 where
  pub subnet_mask : Bytes
  pub gateway_ip : Bytes
  pub gui_ip : Bytes
  pub gui_baseport : ℕ
  pub head_ips : List Bytes
  pub head_baseports : List ℕ
  pub simbox_ips : List Bytes
  pub simbox_baseports : List ℕ
  pub daq_ips : List Bytes
  pub daq_baseports : List ℕ

pub record Driver : Type 0 where
  pub control_mode : Bool

pub record Sonar : Type 0 where
  pub system_index : ℕ
  pub head_serial : Bytes
  pub sim_serial : Bytes
  pub interface_ip : Bytes
  pub tx_frame_id : Bytes
  pub rx_frame_id : Bytes

pub record Topics : Type 0 where
  pub detections : Bytes
  pub bth0 : Bytes
  pub acoustic_image : Bytes
  pub aid0 : Bytes

pub record SimCmds : Type 0 where
  pub int_params : Table ℕ
  pub ip_str_params : Table Bytes

pub record HeadCmds (fl : Floats) : Type 0 where
  pub float_params : Table fl.F32
  pub int_params : Table ℕ

pub record Parameters (fl : Floats) : Type 0 where
  pub network : Network
  pub driver : Driver
  pub sonar : Sonar
  pub topics : Topics
  pub sim_commands : SimCmds
  pub head_commands : HeadCmds fl

-- SYSTEMS and DAQS
abbrev pub systems : ℕ
systems = 4

abbrev pub daqs : ℕ
daqs = 8

-- The entry of the selected system. Indexing an array is not checked: out of range it is undefined,
-- and a negative index is a bit pattern that is out of range.
module _ {fl : Floats} (params : Parameters fl) where
  unfoldable pub get_head_ip : Outcome Bytes
  get_head_ip = or_fault (get_elem? params.network.head_ips params.sonar.system_index)

  unfoldable pub get_head_baseport : Outcome ℕ
  get_head_baseport = or_fault (get_elem? params.network.head_baseports params.sonar.system_index)

  unfoldable pub get_sim_ip : Outcome Bytes
  get_sim_ip = or_fault (get_elem? params.network.simbox_ips params.sonar.system_index)

  unfoldable pub get_sim_baseport : Outcome ℕ
  get_sim_baseport = or_fault (get_elem? params.network.simbox_baseports params.sonar.system_index)
