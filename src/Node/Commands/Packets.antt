-- ===== src/Node/Commands/Packets.antt =====
-- Where the packets of commands go.
use ros2sonic.Prelude.{
  ℕ, ◌+◌, ◌-◌, ◌%◌, ◌^◌, ◌<◌, ◌≡◌, refl, ◌∙◌, true, false, List, [], ◌∷◌, ◌++◌, All, length,
  get_elem?, get_or, Bool-cases, inl, inr, zero, suc, ◌&&◌, ◌||◌, ltb, leb, if◌then◌else◌, arith,
}
use ros2sonic.Outcome.{Outcome, ok, fault, hang, or_fault, throw, ◌>>=◌}
use ros2sonic.Memory.{Bytes}
use ros2sonic.Text.{text, text_eq, contains}
use ros2sonic.Inet.{Inet}
use ros2sonic.Floats.{Floats}
use ros2sonic.Packet.Command.{CmdSet, empty_set, serialize}
use ros2sonic.Node.Table.{Entry}
use ros2sonic.Node.Parameters.{
  Parameters, get_head_ip, get_head_baseport, get_sim_ip, get_sim_baseport,
}
use ros2sonic.Node.Parameters.Valid.{IsValid}
use ros2sonic.Node.Commands.{
  Datagram, Sockets, send_udp_message, command_port, append_ints, append_ips, append_floats,
  send_sim_cmds, send_head_cmds,
}
use ros2sonic.Node.Commands.Tables.{
  IsAddress, int_commands, ip_commands, float_commands, append_ints-Adds, append_ips-Adds,
  append_floats-Adds, Holds, two_loops, ints-IsCommand, ips-IsCommand, floats-IsCommand,
}

-- A datagram that the network refuses is lost, and the driver goes on.
abbrev pub deliver : Sockets → Datagram → List Datagram → List Datagram
deliver net d sent = if net.accepts d then sent ++ d ∷ [] else sent

abbrev pub datagram_of : Bytes → ℕ → Bytes → Datagram
datagram_of ip port payload = record {
  payload = payload;
  destination = ip;
  port = port;
  is_broadcast = text_eq ip (text "255.255.255.255") || contains (text "255") ip;
}

pub send_udp_message-eq :
    (net : Sockets) (message ip : Bytes) (port : ℕ) (sent : List Datagram)
    → net.from_string ip ≡ true
    → send_udp_message net message ip port sent
      ≡ ok (
        net.accepts (datagram_of ip port message),
        deliver net (datagram_of ip port message) sent,
      )
unfolding send_udp_message
send_udp_message-eq net message ip port sent known =
    rw known (elim (Bool-cases (net.accepts (datagram_of ip port message))) [
      | inl taken ↦ rw taken
      | inr lost ↦ rw lost
    ])

-- The port is not one of the two largest integers.
abbrev pub PortFits : ℕ → Type 0
PortFits baseport = (leb (2 ^ 31 - 2) baseport && ltb baseport (2 ^ 31)) ≡ false

-- The last steps of both kinds of commands.
unfoldable pub finish :
    Sockets → Outcome Bytes → Outcome ℕ → List Datagram → CmdSet → Outcome (List Datagram)
finish net ip_of baseport_of sent cmd_pkt = do
  ip ← ip_of
  baseport ← baseport_of
  port ← command_port baseport
  result ← send_udp_message net (serialize cmd_pkt) ip port sent
  ok result.1

finish-eq :
    (net : Sockets) (ip_of : Outcome Bytes) (baseport_of : Outcome ℕ) (ip : Bytes) (baseport : ℕ)
    (sent : List Datagram) (cmd_pkt : CmdSet)
    → ip_of ≡ ok ip
    → baseport_of ≡ ok baseport
    → PortFits baseport
    → net.from_string ip ≡ true
    → finish net ip_of baseport_of sent cmd_pkt
      ≡ ok (deliver net (datagram_of ip ((baseport + 2) % 65536) (serialize cmd_pkt)) sent)
unfolding finish command_port
finish-eq net ip_of baseport_of ip baseport sent cmd_pkt e e' fits known = rw (
  e,
  e',
  fits,
  send_udp_message-eq net (serialize cmd_pkt) ip ((baseport + 2) % 65536) sent known,
)

-- Three steps, of which the first two are known together.
run_both {ℓ κ μ} :
    {A : Type ℓ} {B : Type κ} {C : Type μ} (m : Outcome A) (f : A → Outcome B) (g : B → Outcome C)
    {b : B}
    → (m >>= f) ≡ ok b
    → (m >>= λ x. f x >>= g) ≡ g b
run_both (ok a) f g h = rw h
run_both (throw e) f g h = cc
run_both fault f g h = cc
run_both hang f g h = cc

pub get_elem-lt {ℓ} :
    {A : Type ℓ} (xs : List A) (i n : ℕ) (d : A)
    → length xs ≡ n
    → i < n
    → or_fault (get_elem? xs i) ≡ ok (get_or xs i d)
get_elem-lt [] i n d full h = absurd (omega arith)
get_elem-lt (x ∷ xs) zero n d full h = refl
get_elem-lt (x ∷ xs) (suc i) n d full h = get_elem-lt xs i (n - 1) d (omega arith) (omega arith)

-- The entries of the selected system.
abbrev pub sim_ip : {fl : Floats} → Parameters fl → Bytes
sim_ip params = get_or params.network.simbox_ips params.sonar.system_index []

abbrev pub sim_baseport : {fl : Floats} → Parameters fl → ℕ
sim_baseport params = get_or params.network.simbox_baseports params.sonar.system_index 0

abbrev pub head_ip : {fl : Floats} → Parameters fl → Bytes
head_ip params = get_or params.network.head_ips params.sonar.system_index []

abbrev pub head_baseport : {fl : Floats} → Parameters fl → ℕ
head_baseport params = get_or params.network.head_baseports params.sonar.system_index 0

module _ {fl : Floats} (inet : Inet) (net : Sockets) (params : Parameters fl)
    (valid : IsValid params) where
  -- With valid parameters, of which every address of the simulator's commands is one, the commands
  -- of the simulator go out in one datagram to the selected simulator, two ports above its base
  -- port. A reader of it finds the integer commands and then the addresses, in the order of the
  -- tables, each with its letters and its present value. The network takes the simulator's address,
  -- and the base port is not one of the two largest integers.
  pub send_sim_cmds-eq :
      (sent : List Datagram)
      → All (λ (e : Entry Bytes). IsAddress inet e.value) params.sim_commands.ip_str_params
      → PortFits (sim_baseport params)
      → net.from_string (sim_ip params) ≡ true
      → (payload : Bytes) × (send_sim_cmds inet net params sent
          ≡ ok (
              deliver net
                (datagram_of (sim_ip params) (((sim_baseport params) + 2) % 65536) payload)
                sent))
        × Holds payload (
            int_commands params.sim_commands.int_params
            ++ ip_commands inet params.sim_commands.ip_str_params)
  unfolding send_sim_cmds get_sim_ip get_sim_baseport finish
  send_sim_cmds-eq sent known fits reachable =
      let ints = params.sim_commands.int_params in
      let ips = params.sim_commands.ip_str_params in
      let good = ints-IsCommand ints valid.sim_ints in
      let good' = ips-IsCommand inet ips valid.sim_ips known in
      let (full, filled, holds) =
        two_loops (append_ints ints empty_set) (append_ips inet ips) (int_commands ints)
          (ip_commands inet ips) (append_ints-Adds ints empty_set good)
          (λ set. append_ips-Adds inet ips set known good') good good' in
      (
        serialize full,
        run_both (append_ints ints empty_set) (append_ips inet ips)
              (finish net (get_sim_ip params) (get_sim_baseport params) sent) filled
            ∙ finish-eq net (get_sim_ip params) (get_sim_baseport params) (sim_ip params)
                (sim_baseport params) sent full
                (get_elem-lt params.network.simbox_ips params.sonar.system_index 4 []
                  valid.arrays.simbox_ips_full valid.selected)
                (get_elem-lt params.network.simbox_baseports params.sonar.system_index 4 0
                  valid.arrays.simbox_baseports_full valid.selected)
                fits reachable,
        holds,
      )

  -- With valid parameters the commands of the head go out in one datagram to the selected head, two
  -- ports above its base port. A reader of it finds the commands with a float and then those with
  -- an integer, in the order of the tables, each with its letters and its present value. A float's
  -- pattern has 32 bits, the network takes the head's address, and the base port is not one of the
  -- two largest integers.
  pub send_head_cmds-eq :
      (sent : List Datagram)
      → ((x : fl.F32) → fl.to_bits x < 2 ^ 32)
      → PortFits (head_baseport params)
      → net.from_string (head_ip params) ≡ true
      → (payload : Bytes) × (send_head_cmds inet net params sent
          ≡ ok (
              deliver net
                (datagram_of (head_ip params) (((head_baseport params) + 2) % 65536) payload)
                sent))
        × Holds payload (
            float_commands fl params.head_commands.float_params
            ++ int_commands params.head_commands.int_params)
  unfolding send_head_cmds get_head_ip get_head_baseport finish
  send_head_cmds-eq sent narrow fits reachable =
      let floats = params.head_commands.float_params in
      let ints = params.head_commands.int_params in
      let good = floats-IsCommand fl floats narrow valid.head_floats in
      let good' = ints-IsCommand ints valid.head_ints in
      let (full, filled, holds) =
        two_loops (append_floats fl floats empty_set) (append_ints ints) (float_commands fl floats)
          (int_commands ints) (append_floats-Adds fl floats empty_set good)
          (λ set. append_ints-Adds ints set good') good good' in
      (
        serialize full,
        run_both (append_floats fl floats empty_set) (append_ints ints)
              (finish net (get_head_ip params) (get_head_baseport params) sent) filled
            ∙ finish-eq net (get_head_ip params) (get_head_baseport params) (head_ip params)
                (head_baseport params) sent full
                (get_elem-lt params.network.head_ips params.sonar.system_index 4 []
                  valid.arrays.head_ips_full valid.selected)
                (get_elem-lt params.network.head_baseports params.sonar.system_index 4 0
                  valid.arrays.head_baseports_full valid.selected)
                fits reachable,
        holds,
      )
