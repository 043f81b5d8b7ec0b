-- ===== src/Node/Run/Expected.antt =====
-- Where datagrams may go, and that the timer's function has no undefined behaviour.
use ros2sonic.Prelude.{
  ℕ, ◌+◌, ◌%◌, ◌≡◌, refl, Bool, true, false, List, [], ◌∷◌, ◌++◌, All, get_or, Bool-cases, ◌⊎◌, inl,
  inr, if◌then◌else◌,
}
use ros2sonic.Outcome.{Outcome, ok, Safely, Safely-bind, Ends-bind}
use ros2sonic.Memory.{Bytes}
use ros2sonic.Text.{text}
use ros2sonic.Inet.{Inet}
use ros2sonic.Floats.{Floats}
use ros2sonic.Packet.Command.{CmdSet, empty_set, serialize}
use ros2sonic.Packet.Config as Config
use ros2sonic.Packet.Config.{default_config, config_of, set_config_id}
use ros2sonic.Node.Parameters.{
  Network, Parameters, get_head_ip, get_head_baseport, get_sim_ip, get_sim_baseport,
}
use ros2sonic.Node.Parameters.Valid.{IsValid}
use ros2sonic.Node.Commands.{
  Datagram, Sockets, send_udp_message, command_port, send_network_config, send_sim_cmds,
  send_head_cmds, send_cmds,
}
use ros2sonic.Node.Commands.Packets.{
  PortFits, get_elem-lt, datagram_of, finish, sim_ip, sim_baseport, head_ip, head_baseport,
}
use ros2sonic.Node.Commands.Ends.{
  make_config-Ends, append_ints-Ends, append_ips-Ends, append_floats-Ends,
}

-- Where a datagram goes, and where the driver may send one: to the devices' broadcast address, and
-- to the selected simulator and the selected head.
pub record GoesTo (ip : Bytes) (port : ℕ) (d : Datagram) : Type 0 where
  pub same_destination : d.destination ≡ ip
  pub same_port : d.port ≡ port

abbrev pub IsExpected : Network → ℕ → Datagram → Type 0
IsExpected net index d =
    GoesTo (text "10.255.255.255") 53810 d
    ⊎ (GoesTo (get_or net.simbox_ips index []) ((get_or net.simbox_baseports index 0 + 2) % 65536) d
        ⊎ GoesTo (get_or net.head_ips index []) ((get_or net.head_baseports index 0 + 2) % 65536) d)

All-snoc :
    (P : Datagram → Type 0) (d : Datagram) (sent : List Datagram)
    → All P sent
    → P d
    → All P (sent ++ d ∷ [])
All-snoc P d [] h p = (p, tt)
All-snoc P d (x ∷ sent) h p = (h.0, All-snoc P d sent h.1 p)

in_mode :
    (P : List Datagram → Type 0) (on : Bool) (m : Outcome (List Datagram)) (sent : List Datagram)
    → Safely P m
    → P sent
    → Safely P (if on then m else ok sent)
in_mode P true m sent h k = h
in_mode P false m sent h k = k

module _ {fl : Floats} (inet : Inet) (net : Sockets) (params : Parameters fl)
    (valid : IsValid params) where
  abbrev Good : Datagram → Type 0
  Good = IsExpected params.network params.sonar.system_index

  send_udp_message-Safely :
      (message ip : Bytes) (port : ℕ) (sent : List Datagram)
      → Good (datagram_of ip port message)
      → All Good sent
      → Safely
          (λ (r : Bool × List Datagram). All Good r.1)
          (send_udp_message net message ip port sent)
  unfolding send_udp_message
  send_udp_message-Safely message ip port sent good h = elim (Bool-cases (net.from_string ip)) [
    | inl known ↦ rw known (elim (Bool-cases (net.accepts (datagram_of ip port message))) [
      | inl taken ↦ rw taken (All-snoc Good (datagram_of ip port message) sent h good)
      | inr lost ↦ rw lost h
    ])
    | inr unknown ↦ rw unknown tt
  ]

  command_port-Safely :
      (baseport : ℕ) → PortFits baseport → command_port baseport ≡ ok ((baseport + 2) % 65536)
  unfolding command_port
  command_port-Safely baseport fits = rw fits

  send_network_config-Safely :
      (unset : Bytes) (sent : List Datagram)
      → All Good sent
      → Safely (All Good) (send_network_config inet net params unset sent)
  unfolding send_network_config
  send_network_config-Safely unset sent h =
      let broadcast : (message : Bytes) → Good (datagram_of (text "10.255.255.255") 53810 message) =
        λ message. inl (record { same_destination = refl; same_port = refl }) in
      Ends-bind (All Good) _ _ (make_config-Ends inet params valid unset params.sonar.head_serial)
        (λ to_head.
          Safely-bind (λ (r : Bool × List Datagram). All Good r.1) (All Good) _ _
            (send_udp_message-Safely (Config.serialize to_head) (text "10.255.255.255") 53810 sent
              (broadcast (Config.serialize to_head)) h)
            (λ r h'.
              Ends-bind (All Good) _ _
                (make_config-Ends inet params valid unset params.sonar.sim_serial)
                (λ to_sim.
                  Safely-bind (λ (r : Bool × List Datagram). All Good r.1) (All Good) _ _
                    (send_udp_message-Safely (Config.serialize to_sim) (text "10.255.255.255") 53810
                      r.1 (broadcast (Config.serialize to_sim)) h')
                    (λ r' h''. h''))))

  -- The last steps of both kinds of commands.
  finish-Safely :
      (ip : Bytes) (baseport : ℕ) (ip_of : Outcome Bytes) (baseport_of : Outcome ℕ)
      (sent : List Datagram) (cmd_pkt : CmdSet)
      → ip_of ≡ ok ip
      → baseport_of ≡ ok baseport
      → PortFits baseport
      → Good (datagram_of ip ((baseport + 2) % 65536) (serialize cmd_pkt))
      → All Good sent
      → Safely (All Good) (finish net ip_of baseport_of sent cmd_pkt)
  unfolding finish
  finish-Safely ip baseport ip_of baseport_of sent cmd_pkt e e' fits good h =
      rw (e, e', command_port-Safely baseport fits)
        (Safely-bind (λ (r : Bool × List Datagram). All Good r.1) (All Good) _ _
          (send_udp_message-Safely (serialize cmd_pkt) ip ((baseport + 2) % 65536) sent good h)
          (λ r h'. h'))

  send_sim_cmds-Safely :
      (sent : List Datagram)
      → PortFits (sim_baseport params)
      → All Good sent
      → Safely (All Good) (send_sim_cmds inet net params sent)
  unfolding send_sim_cmds get_sim_ip get_sim_baseport finish
  send_sim_cmds-Safely sent fits h =
      Ends-bind (All Good) _ _ (append_ints-Ends params.sim_commands.int_params empty_set) (λ ints.
        Ends-bind (All Good) _ _ (append_ips-Ends inet params.sim_commands.ip_str_params ints)
          (λ cmd_pkt.
            finish-Safely (sim_ip params) (sim_baseport params) (get_sim_ip params)
              (get_sim_baseport params) sent cmd_pkt
              (get_elem-lt params.network.simbox_ips params.sonar.system_index 4 []
                valid.arrays.simbox_ips_full valid.selected)
              (get_elem-lt params.network.simbox_baseports params.sonar.system_index 4 0
                valid.arrays.simbox_baseports_full valid.selected)
              fits (inr (inl (record { same_destination = refl; same_port = refl }))) h))

  send_head_cmds-Safely :
      (sent : List Datagram)
      → PortFits (head_baseport params)
      → All Good sent
      → Safely (All Good) (send_head_cmds inet net params sent)
  unfolding send_head_cmds get_head_ip get_head_baseport finish
  send_head_cmds-Safely sent fits h =
      Ends-bind (All Good) _ _ (append_floats-Ends fl params.head_commands.float_params empty_set)
        (λ floats.
          Ends-bind (All Good) _ _ (append_ints-Ends params.head_commands.int_params floats)
            (λ cmd_pkt.
              finish-Safely (head_ip params) (head_baseport params) (get_head_ip params)
                (get_head_baseport params) sent cmd_pkt
                (get_elem-lt params.network.head_ips params.sonar.system_index 4 []
                  valid.arrays.head_ips_full valid.selected)
                (get_elem-lt params.network.head_baseports params.sonar.system_index 4 0
                  valid.arrays.head_baseports_full valid.selected)
                fits (inr (inr (record { same_destination = refl; same_port = refl }))) h))

  -- With valid parameters, and base ports that are not the two largest integers, the timer's
  -- function has no undefined behaviour, whatever the texts of the addresses: it raises, or it
  -- returns and all that it has sent goes to the devices' broadcast address at port 53810, or to
  -- the selected simulator or the selected head at the port two above its base port.
  pub send_cmds-Safely :
      (unset : Bytes) (sent : List Datagram)
      → PortFits (sim_baseport params)
      → PortFits (head_baseport params)
      → All Good sent
      → Safely (All Good) (send_cmds inet net params unset sent)
  unfolding send_cmds
  send_cmds-Safely unset sent simfits headfits h =
      in_mode (All Good) params.driver.control_mode _ sent
        (Safely-bind (All Good) (All Good) _ _ (send_network_config-Safely unset sent h)
          (λ configured h'.
            Safely-bind (All Good) (All Good) _ _ (send_sim_cmds-Safely configured simfits h')
              (λ simulated h''. send_head_cmds-Safely simulated headfits h'')))
        h
