-- ===== src/Examples/Sending.antt =====
-- Updates of the parameters, and what the timer sends of them.
use ros2sonic.Prelude.{
  ℕ, drop, ◌+◌, ◌%◌, ◌≡◌, refl, true, List, [], ◌∷◌, ◌++◌, length, All, if◌then◌else◌, arith,
}
use ros2sonic.Outcome.{ok}
use ros2sonic.Memory.{Bytes}
use ros2sonic.Text.{text, c_str}
use ros2sonic.Inet.{ip_str_to_u32}
use ros2sonic.Packet.Config.{config_id_is_valid, node_name}
use ros2sonic.Node.Table.{Entry}
use ros2sonic.Node.Parameters.{Parameters}
use ros2sonic.Node.Parameters.Valid.{IsValid}
use ros2sonic.Node.Parameters.Update.{SetResult, Parameter, on_parameter_update, success, failed}
use ros2sonic.Node.Parameters.Update.Spec.{apply_all, accepted, all_accepted}
use ros2sonic.Node.Parameters.Update.Batch.{on_parameter_update-eq}
use ros2sonic.Node.Parameters.Update.Preserve.{on_parameter_update-IsValid}
use ros2sonic.Node.Commands.{make_config, send_sim_cmds, send_cmds}
use ros2sonic.Node.Commands.Tables.{int_commands, ip_commands, float_commands, Holds}
use ros2sonic.Node.Commands.Packets.{
  deliver, datagram_of, sim_ip, sim_baseport, head_ip, head_baseport,
}
use ros2sonic.Node.Commands.Configs.{ReadsLiterals, ReadsNetwork, network_config, make_config-eq}
use ros2sonic.Node.Commands.Round.{IsSendable, config_datagram, send_cmds-eq}
use ros2sonic.Packet.Command.RoundTrip.{read_commands}
use ros2sonic.Node.Table.{find_entry}
use ros2sonic.Node.Run.Effect.{Among, setting, setting_is_sent}
use ros2sonic.Examples.Driver.{
  patterns, integer, double, string, launch, resolver, cable, small, gps,
}

abbrev params : Parameters patterns
params = small (gps ∷ [])

abbrev edge : Entry ℕ
edge = record { key = text "pps_edge"; name = text "POG0"; value = 1 }

valid :
    (ips : List (Entry Bytes))
    → All (λ (e : Entry Bytes). length (c_str e.name) ≡ 4) ips
    → IsValid (small ips)
valid ips letters = record {
  selected = omega arith;
  arrays = record {
    head_ips_full = refl;
    head_baseports_full = refl;
    simbox_ips_full = refl;
    simbox_baseports_full = refl;
    daq_ips_full = refl;
    daq_baseports_full = refl;
  };
  sim_ints = omega arith;
  sim_ips = letters;
  head_floats = omega arith;
  head_ints = omega arith;
  armed = λ on. (refl, refl);
}

literals : ReadsLiterals resolver
unfolding ip_str_to_u32
literals = record { mask = refl; no_ip = refl; daq = refl; head = refl; sim = refl }

known : ReadsNetwork resolver params.network
unfolding ip_str_to_u32
known = record {
  mask = refl;
  gateway = refl;
  gui = refl;
  heads = (refl, (refl, (refl, (refl, tt))));
  simboxes = (refl, (refl, (refl, (refl, tt))));
  daqs_known = (refl, (refl, (refl, (refl, (refl, (refl, (refl, (refl, tt))))))));
}

make_config-eq_example :
    (make_config resolver params (text "unset") (text "101")
      ≡ ok (network_config resolver params (text "101")))
    × (config_id_is_valid (network_config resolver params (text "101")) node_name ≡ true)
make_config-eq_example =
    make_config-eq resolver params (text "unset") (text "101") (valid (gps ∷ []) (refl, tt)).arrays
      literals known

ready : IsSendable resolver cable params
unfolding ip_str_to_u32
ready = record {
  literals = literals;
  known = known;
  sim_known = ((refl, omega arith), tt);
  narrow = λ x. omega arith;
  sim_fits = refl;
  head_fits = refl;
  broadcasts = refl;
  sim_reachable = refl;
  head_reachable = refl;
}

send_cmds-eq_example :
    (to_sim to_head : Bytes) × (send_cmds resolver cable params (text "unset") []
      ≡ ok (
          deliver cable
            (datagram_of (head_ip params) ((head_baseport params + 2) % 65536) to_head)
            (deliver cable
              (datagram_of (sim_ip params) ((sim_baseport params + 2) % 65536) to_sim)
              (deliver cable
                (config_datagram (network_config resolver params params.sonar.sim_serial))
                (deliver cable
                  (config_datagram (network_config resolver params params.sonar.head_serial))
                  [])))))
    × Holds to_sim (
        int_commands params.sim_commands.int_params
        ++ ip_commands resolver params.sim_commands.ip_str_params)
    × Holds to_head (
        float_commands patterns params.head_commands.float_params
        ++ int_commands params.head_commands.int_params)
send_cmds-eq_example =
    send_cmds-eq resolver cable params (valid (gps ∷ []) (refl, tt)) (text "unset") [] ready refl

-- An integer, an address that is none, and a float of the head.
abbrev updates : List (Parameter launch resolver)
updates =
    record { name = text "sim_commands.pps_edge"; value = integer 0 }
    ∷ record { name = text "sim_commands.gps_ip_addr"; value = string (text "nowhere") }
    ∷ record { name = text "head_commands.range"; value = double 70 }
    ∷ []

on_parameter_update-eq_example :
    (result : SetResult) × (on_parameter_update launch resolver updates params
      ≡ ok (apply_all (accepted launch resolver updates params) params, result))
    × (result
        ≡ (if all_accepted launch resolver updates params then success else failed result.reason))
on_parameter_update-eq_example = on_parameter_update-eq launch resolver updates params

on_parameter_update-IsValid_example :
    (params' : Parameters patterns) × (result : SetResult) × (on_parameter_update launch resolver
        updates params
      ≡ ok (params', result))
    × IsValid params'
on_parameter_update-IsValid_example =
    on_parameter_update-IsValid launch resolver updates params (valid (gps ∷ []) (refl, tt))

-- The new edge of the pulse goes out with the next packet.
setting_is_sent_example :
    (params' : Parameters patterns) × (payload : Bytes) × (on_parameter_update launch resolver
        (setting launch resolver params (text "pps_edge") (integer 2) ∷ [])
        params
      ≡ ok (params', success))
    × (send_sim_cmds resolver cable params' []
        ≡ ok (
            deliver cable
              (datagram_of (sim_ip params) ((sim_baseport params + 2) % 65536) payload)
              []))
    × Among (text "POG0", 2) (read_commands (drop 4 payload))
unfolding ip_str_to_u32 find_entry
setting_is_sent_example =
    setting_is_sent launch resolver params (text "pps_edge") (integer 2) cable [] 2 edge
      (valid (gps ∷ []) (refl, tt)) refl refl ((refl, omega arith), tt) refl refl
