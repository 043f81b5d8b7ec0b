-- ===== src/Node/Parameters/Init/Ready.antt =====
-- The driver's own values of the parameters.
use ros2sonic.Prelude.{refl, arith}
use ros2sonic.Floats.{Floats}
use ros2sonic.Node.Table.{insert, insert_all}
use ros2sonic.Node.Parameters.Defaults.{
  parameters, network, sim_cmds, head_cmds, sim_ip_list, sim_int_list, head_float_list,
  head_int_list,
}
use ros2sonic.Node.Parameters.Valid.{HasArrays}
use ros2sonic.Node.Parameters.Init.Valid.{HasCommands}

pub network-HasArrays : HasArrays network
network-HasArrays = record {
  head_ips_full = refl;
  head_baseports_full = refl;
  simbox_ips_full = refl;
  simbox_baseports_full = refl;
  daq_ips_full = refl;
  daq_baseports_full = refl;
}

pub parameters-HasCommands : (fl : Floats) → HasCommands (parameters fl)
unfolding parameters sim_cmds head_cmds sim_ip_list sim_int_list head_float_list head_int_list
    insert_all insert
parameters-HasCommands fl = record {
  sim_ints = omega arith;
  sim_ips = omega arith;
  head_floats = omega arith;
  head_ints = omega arith;
}
