-- ===== src/Examples/Launch.antt =====
-- The node from its launch on.
use ros2sonic.Prelude.{◌≡◌, refl, true, List, [], ◌∷◌, arith}
use ros2sonic.Outcome.{Outcome, ok, throw, fault, hang, Safely, Ends}
use ros2sonic.Text.{text}
use ros2sonic.Node.Table.{insert, insert_all}
use ros2sonic.Node.Parameters.{
  Parameters, get_head_ip, get_head_baseport, get_sim_ip, get_sim_baseport,
}
use ros2sonic.Node.Parameters.Defaults.{
  parameters, sim_cmds, head_cmds, sim_ip_list, sim_int_list, head_float_list, head_int_list,
}
use ros2sonic.Node.Parameters.Valid.{IsValid}
use ros2sonic.Node.Parameters.Init.{
  validate, setup_string, setup_int, setup_bool, setup_float, setup_ip, setup_table, init_topics,
  init_sonar, init_systems, init_daqs, init_network, init_sim_cmds, init_head_cmds, log_selected,
  init,
}
use ros2sonic.Node.Parameters.Init.Ready.{network-HasArrays, parameters-HasCommands}
use ros2sonic.Node.Parameters.Init.Valid.{SelectsSystem, init-IsValid}
use ros2sonic.Node.Parameters.Update.{Parameter}
use ros2sonic.Node.Parameters.Update.Spec.{apply_all, accepted}
use ros2sonic.Node.Parameters.Update.Batch.{on_parameter_update-eq}
use ros2sonic.Node.Commands.{send_cmds}
use ros2sonic.Node.Run.{Driving, Reach, here, next, set_parameters}
use ros2sonic.Node.Run.Safe.{Keeps, Reach-IsSafe}
use ros2sonic.Examples.Driver.{patterns, integer, launch, resolver, cable}

abbrev defaults : Parameters patterns
defaults = parameters patterns

selects : SelectsSystem launch defaults
unfolding parameters
selects v n e e' = ground arith

init-IsValid_example : Safely IsValid (init launch (parameters patterns))
unfolding parameters
init-IsValid_example =
    init-IsValid launch (parameters patterns) network-HasArrays (parameters-HasCommands patterns)
      selects

returned : Outcome (Parameters patterns) → Parameters patterns
returned (ok p) = p
returned (throw e) = defaults
returned fault = defaults
returned hang = defaults

started : Parameters patterns
started = returned (init launch (parameters patterns))

launched : init launch (parameters patterns) ≡ ok started
unfolding started returned parameters sim_cmds head_cmds sim_ip_list sim_int_list head_float_list
    head_int_list insert_all insert init validate setup_string setup_int setup_bool setup_float
    setup_ip setup_table init_topics init_sonar init_systems init_daqs init_network init_sim_cmds
    init_head_cmds log_selected get_head_ip get_head_baseport get_sim_ip get_sim_baseport
launched = refl

armed : started.driver.control_mode ≡ true
unfolding started returned parameters sim_cmds head_cmds sim_ip_list sim_int_list head_float_list
    head_int_list insert_all insert init validate setup_string setup_int setup_bool setup_float
    setup_ip setup_table init_topics init_sonar init_systems init_daqs init_network init_sim_cmds
    init_head_cmds log_selected get_head_ip get_head_baseport get_sim_ip get_sim_baseport
armed = refl

abbrev updates : List (Parameter launch resolver)
updates = record { name = text "sim_commands.pps_edge"; value = integer 0 } ∷ []

abbrev updated : Driving patterns
updated = record {
  params = apply_all (accepted launch resolver updates started) started;
  sent = [];
}

ran : Reach launch resolver cable [] (record { params = started; sent = [] }) updated
ran =
    let (result, e, _) = on_parameter_update-eq launch resolver updates started in
    next here (set_parameters updates e)

Reach-IsSafe_example :
    Keeps started updated × Ends (send_cmds resolver cable updated.params [] updated.sent)
unfolding started returned parameters sim_cmds head_cmds sim_ip_list sim_int_list head_float_list
    head_int_list insert_all insert init validate setup_string setup_int setup_bool setup_float
    setup_ip setup_table init_topics init_sonar init_systems init_daqs init_network init_sim_cmds
    init_head_cmds log_selected get_head_ip get_head_baseport get_sim_ip get_sim_baseport
Reach-IsSafe_example =
    Reach-IsSafe launch resolver cable [] started selects launched (refl, refl) ran
