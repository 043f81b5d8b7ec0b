-- ===== src/Node/Commands/Ends.antt =====
-- What the timer computes has no undefined behaviour.
use ros2sonic.Prelude.{
  ℕ, zero, suc, ◌+◌, ◌≤◌, none, some, [], ◌∷◌, length, set, Bool-cases, inl, inr, ◌==◌, arith,
}
use ros2sonic.Outcome.{ok, throw, runtime_error, Ends, Ends-bind}
use ros2sonic.Memory.{Bytes}
use ros2sonic.Text.{c_str}
use ros2sonic.Inet.{Inet, ip_str_to_u32}
use ros2sonic.Floats.{Floats}
use ros2sonic.Packet.Command.{CmdSet, append, make_int, make_float}
use ros2sonic.Packet.Config as Config
use ros2sonic.Packet.Config.{default_config, config_of, set_config_id}
use ros2sonic.Node.Table.{Table}
use ros2sonic.Node.Parameters.{Network, Parameters, systems, daqs}
use ros2sonic.Node.Parameters.Valid.{HasArrays, IsValid}
use ros2sonic.Node.Parameters.Init.Setup.{or_fault-Safely}
use ros2sonic.Node.Commands.{
  append_ints, append_ips, append_floats, fill_systems, fill_daqs, make_config,
}

ip_str_to_u32-Ends : (inet : Inet) (s : Bytes) → Ends (ip_str_to_u32 inet s)
unfolding ip_str_to_u32
ip_str_to_u32-Ends inet s =
    elim (inet.inet_pton (c_str s))
      as (λ o. Ends (elim o [ none ↦ throw runtime_error | some n ↦ ok (inet.ntohl n) ])) [
        | none ↦ tt
        | some n ↦ tt
      ]

make_int-Ends : (name : Bytes) (v : ℕ) → Ends (make_int name v)
unfolding make_int
make_int-Ends name v = elim (Bool-cases (length name == 4)) [ inl e ↦ rw e tt | inr e ↦ rw e tt ]

make_float-Ends : (name : Bytes) (v : ℕ) → Ends (make_float name v)
unfolding make_float
make_float-Ends name v = elim (Bool-cases (length name == 4)) [ inl e ↦ rw e tt | inr e ↦ rw e tt ]

pub append_ints-Ends : (t : Table ℕ) (set : CmdSet) → Ends (append_ints t set)
unfolding append_ints
append_ints-Ends [] set = tt
append_ints-Ends (e ∷ t) set =
    Ends-bind _ _ _ (make_int-Ends (c_str e.name) e.value)
      (λ cmd. append_ints-Ends t (append set cmd))

pub append_ips-Ends : (inet : Inet) (t : Table Bytes) (set : CmdSet) → Ends (append_ips inet t set)
unfolding append_ips
append_ips-Ends inet [] set = tt
append_ips-Ends inet (e ∷ t) set = Ends-bind _ _ _ (ip_str_to_u32-Ends inet e.value) (λ ip.
    Ends-bind _ _ _ (make_int-Ends (c_str e.name) ip)
      (λ cmd. append_ips-Ends inet t (append set cmd)))

pub append_floats-Ends :
    (fl : Floats) (t : Table fl.F32) (set : CmdSet) → Ends (append_floats fl t set)
unfolding append_floats
append_floats-Ends fl [] set = tt
append_floats-Ends fl (e ∷ t) set =
    Ends-bind _ _ _ (make_float-Ends (c_str e.name) (fl.to_bits e.value))
      (λ cmd. append_floats-Ends fl t (append set cmd))

fill_systems-Ends :
    (inet : Inet) (net : Network) (left i : ℕ) (cfg : Config.Config)
    → i + left ≤ systems
    → HasArrays net
    → Ends (fill_systems inet net left i cfg)
unfolding fill_systems
fill_systems-Ends inet net zero i cfg below full = tt
fill_systems-Ends inet net (suc left) i cfg below full =
    Ends-bind _ _ _ (or_fault-Safely net.head_ips i (omega (arith, full.head_ips_full))) (λ a.
      Ends-bind _ _ _ (ip_str_to_u32-Ends inet a) (λ a'.
        Ends-bind _ _ _
          (or_fault-Safely net.head_baseports i (omega (arith, full.head_baseports_full)))
          (λ b.
            Ends-bind _ _ _ (or_fault-Safely net.simbox_ips i (omega (arith, full.simbox_ips_full)))
              (λ c. Ends-bind _ _ _ (ip_str_to_u32-Ends inet c) (λ c'.
                Ends-bind _ _ _
                  (or_fault-Safely net.simbox_baseports i
                    (omega (arith, full.simbox_baseports_full)))
                  (λ d. fill_systems-Ends inet net left (i + 1) _ (omega arith) full))))))

fill_daqs-Ends :
    (inet : Inet) (net : Network) (left i : ℕ) (cfg : Config.Config)
    → i + left ≤ daqs
    → HasArrays net
    → Ends (fill_daqs inet net left i cfg)
unfolding fill_daqs
fill_daqs-Ends inet net zero i cfg below full = tt
fill_daqs-Ends inet net (suc left) i cfg below full =
    Ends-bind _ _ _ (or_fault-Safely net.daq_ips i (omega (arith, full.daq_ips_full))) (λ a.
      Ends-bind _ _ _ (ip_str_to_u32-Ends inet a) (λ a'.
        Ends-bind _ _ _
          (or_fault-Safely net.daq_baseports i (omega (arith, full.daq_baseports_full)))
          (λ b. fill_daqs-Ends inet net left (i + 1) _ (omega arith) full)))

default_config-Ends : (inet : Inet) (unset : Bytes) → Ends (default_config inet unset)
unfolding default_config
default_config-Ends inet unset = Ends-bind _ _ _ (ip_str_to_u32-Ends inet _) (λ a.
    Ends-bind _ _ _ (ip_str_to_u32-Ends inet _) (λ b.
      Ends-bind _ _ _ (ip_str_to_u32-Ends inet _) (λ c.
        Ends-bind _ _ _ (ip_str_to_u32-Ends inet _)
          (λ d. Ends-bind _ _ _ (ip_str_to_u32-Ends inet _) (λ e. tt)))))

module _ {fl : Floats} (inet : Inet) (params : Parameters fl) (valid : IsValid params) where
  pub make_config-Ends : (unset serial : Bytes) → Ends (make_config inet params unset serial)
  unfolding make_config
  make_config-Ends unset serial = Ends-bind _ _ _ (default_config-Ends inet unset) (λ cfg.
      Ends-bind _ _ _ (ip_str_to_u32-Ends inet params.network.subnet_mask) (λ a.
        Ends-bind _ _ _ (ip_str_to_u32-Ends inet params.network.gateway_ip) (λ b.
          Ends-bind _ _ _ (ip_str_to_u32-Ends inet params.network.gui_ip) (λ c.
            Ends-bind _ _ _
              (fill_systems-Ends inet params.network systems 0 _ (omega arith) valid.arrays)
              (λ d.
                Ends-bind _ _ _
                  (fill_daqs-Ends inet params.network daqs 0 d (omega arith) valid.arrays)
                  (λ e. tt))))))
