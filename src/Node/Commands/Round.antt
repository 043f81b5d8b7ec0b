-- ===== src/Node/Commands/Round.antt =====
-- All that the timer sends in one round.
use ros2sonic.Prelude.{
  ◌+◌, ◌%◌, ◌^◌, ◌<◌, ◌≡◌, refl, ◌∙◌, true, false, List, ◌++◌, All, Bool, if◌then◌else◌,
}
use ros2sonic.Outcome.{Outcome, ok, ◌>>=◌}
use ros2sonic.Memory.{Bytes}
use ros2sonic.Text.{text}
use ros2sonic.Inet.{Inet}
use ros2sonic.Floats.{Floats}
use ros2sonic.Packet.Config as Config
use ros2sonic.Node.Table.{Entry, Table}
use ros2sonic.Node.Parameters.{Parameters}
use ros2sonic.Node.Parameters.Valid.{IsValid}
use ros2sonic.Node.Commands.{
  Datagram, Sockets, send_network_config, send_sim_cmds, send_head_cmds, send_cmds,
}
use ros2sonic.Node.Commands.Tables.{IsAddress, int_commands, ip_commands, float_commands, Holds}
use ros2sonic.Node.Commands.Packets.{
  deliver, datagram_of, PortFits, send_udp_message-eq, sim_ip, sim_baseport, head_ip, head_baseport,
  send_sim_cmds-eq, send_head_cmds-eq,
}
use ros2sonic.Node.Commands.Configs.{ReadsLiterals, ReadsNetwork, network_config, make_config-eq}

abbrev pub broadcast_ip : Bytes
broadcast_ip = text "10.255.255.255"

-- A configuration goes to every device, at the port where they listen.
abbrev pub config_datagram : Config.Config → Datagram
config_datagram cfg = datagram_of broadcast_ip 53810 (Config.serialize cfg)

-- Every address is one, the network takes the addresses of the selected system, and their ports
-- leave room for the two that are added.
pub record IsSendable {fl : Floats} (inet : Inet) (net : Sockets) (params : Parameters fl)
    : Type 0 where
  pub literals : ReadsLiterals inet
  pub known : ReadsNetwork inet params.network
  pub sim_known :
      All (λ (e : Entry Bytes). IsAddress inet e.value) params.sim_commands.ip_str_params
  pub narrow : (x : fl.F32) → fl.to_bits x < 2 ^ 32
  pub sim_fits : PortFits (sim_baseport params)
  pub head_fits : PortFits (head_baseport params)
  pub broadcasts : net.from_string broadcast_ip ≡ true
  pub sim_reachable : net.from_string (sim_ip params) ≡ true
  pub head_reachable : net.from_string (head_ip params) ≡ true

when {ℓ} : {A : Type ℓ} (b : Bool) (m other : A) → b ≡ true → (if b then m else other) ≡ m
when true m other h = refl
when false m other h = cc

three_steps {ℓ} :
    {A B C : Type ℓ} (m : Outcome A) (f : A → Outcome B) (g : B → Outcome C) {a : A} {b : B}
    → m ≡ ok a
    → f a ≡ ok b
    → (m >>= λ x. f x >>= g) ≡ g b
three_steps m f g e e' = rw (e, e')

module _ {fl : Floats} (inet : Inet) (net : Sockets) (params : Parameters fl)
    (valid : IsValid params) (unset : Bytes) (sent : List Datagram) where
  network_config-eq :
      ReadsLiterals inet
      → ReadsNetwork inet params.network
      → net.from_string broadcast_ip ≡ true
      → send_network_config inet net params unset sent
        ≡ ok (
            deliver net (config_datagram (network_config inet params params.sonar.sim_serial)) (
              deliver net
                (config_datagram (network_config inet params params.sonar.head_serial))
                sent))
  unfolding send_network_config
  network_config-eq literals known broadcasts =
      let to_head = network_config inet params params.sonar.head_serial in
      let to_sim = network_config inet params params.sonar.sim_serial in
      let sent_to_head = deliver net (config_datagram to_head) sent in
      rw
        (
          (make_config-eq inet params unset params.sonar.head_serial valid.arrays literals known).0,
          send_udp_message-eq net (Config.serialize to_head) broadcast_ip 53810 sent broadcasts,
          (make_config-eq inet params unset params.sonar.sim_serial valid.arrays literals known).0,
          send_udp_message-eq net (Config.serialize to_sim) broadcast_ip 53810 sent_to_head
              broadcasts,
        )
        refl

  -- In control mode, with valid parameters, the timer sends four datagrams and no other, in this
  -- order: the configuration for the head and that for the simulator, to the broadcast address at
  -- port 53810, then the simulator's commands to the selected simulator, and the head's to the
  -- selected head, both two ports above the base port. A reader finds every command of the tables
  -- in them with its present value. A datagram that the network refuses is lost and stops none of
  -- the others. Every address of the parameters and of the driver is one, the network takes the
  -- addresses of the selected system, the base ports are not the two largest integers, and a
  -- float's pattern has 32 bits.
  pub send_cmds-eq :
      IsSendable inet net params
      → params.driver.control_mode ≡ true
      → (to_sim to_head : Bytes) × (send_cmds inet net params unset sent
          ≡ ok (
              deliver net
                (datagram_of (head_ip params) ((head_baseport params + 2) % 65536) to_head)
                (deliver net
                  (datagram_of (sim_ip params) ((sim_baseport params + 2) % 65536) to_sim)
                  (deliver net
                    (config_datagram (network_config inet params params.sonar.sim_serial))
                    (deliver net
                      (config_datagram (network_config inet params params.sonar.head_serial))
                      sent)))))
        × Holds to_sim (
            int_commands params.sim_commands.int_params
            ++ ip_commands inet params.sim_commands.ip_str_params)
        × Holds to_head (
            float_commands fl params.head_commands.float_params
            ++ int_commands params.head_commands.int_params)
  unfolding send_cmds
  send_cmds-eq ready on =
      let configured =
        deliver net (config_datagram (network_config inet params params.sonar.sim_serial)) (
          deliver net (config_datagram (network_config inet params params.sonar.head_serial))
            sent) in
      let (to_sim, sim_sent, sim_holds) =
        send_sim_cmds-eq inet net params valid configured ready.sim_known ready.sim_fits
          ready.sim_reachable in
      let simulated =
        deliver net (datagram_of (sim_ip params) ((sim_baseport params + 2) % 65536) to_sim)
          configured in
      let (to_head, head_sent, head_holds) =
        send_head_cmds-eq inet net params valid simulated ready.narrow ready.head_fits
          ready.head_reachable in
      (
        to_sim,
        to_head,
        when params.driver.control_mode _ (ok sent) on
            ∙ three_steps (send_network_config inet net params unset sent)
                (send_sim_cmds inet net params) (send_head_cmds inet net params)
                (network_config-eq ready.literals ready.known ready.broadcasts) sim_sent
            ∙ head_sent,
        sim_holds,
        head_holds,
      )
