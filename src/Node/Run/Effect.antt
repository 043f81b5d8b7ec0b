-- ===== src/Node/Run/Effect.antt =====
-- A value that is set at run time reaches the device.
use mathlib.Core.Path.{subst}
use ros2sonic.Prelude.{
  ℕ, ◌+◌, ◌%◌, ◌≡◌, sym, ap, true, some, List, [], ◌∷◌, ◌++◌, drop, All, ◌⊎◌, inl, inr, Bool-cases,
  arith,
}
use ros2sonic.Outcome.{ok}
use ros2sonic.Memory.{Bytes}
use ros2sonic.Text.{text, c_str, text_eq}
use ros2sonic.Inet.{Inet}
use ros2sonic.Floats.{Floats}
use ros2sonic.Packet.Command.RoundTrip.{read_commands}
use ros2sonic.Node.Table.{Entry, Table, find_entry, set_value}
use ros2sonic.Node.Ros.{Ros}
use ros2sonic.Node.Parameters.{Parameters}
use ros2sonic.Node.Parameters.Valid.{IsValid}
use ros2sonic.Node.Parameters.Init.{int_of_int64}
use ros2sonic.Node.Parameters.Update.{Parameter, success, with_sim_int, on_parameter_update}
use ros2sonic.Node.Parameters.Update.Spec.{sim_int, has_key, meaning}
use ros2sonic.Node.Parameters.Update.Correct.{find_entry-cases}
use ros2sonic.Node.Parameters.Update.Batch.{on_parameter_update-eq}
use ros2sonic.Node.Parameters.Update.Preserve.{apply-IsValid}
use ros2sonic.Node.Commands.{Datagram, Sockets, send_sim_cmds}
use ros2sonic.Node.Commands.Tables.{IsAddress, int_commands, ip_commands}
use ros2sonic.Node.Commands.Packets.{
  deliver, datagram_of, PortFits, sim_ip, sim_baseport, send_sim_cmds-eq,
}

-- A command is in a list of commands.
abbrev pub Among : Bytes × ℕ → List (Bytes × ℕ) → Type 0
Among c [] = ⊥
Among c (d ∷ cmds) = (c ≡ d) ⊎ Among c cmds

Among-append : (c : Bytes × ℕ) (xs ys : List (Bytes × ℕ)) → Among c xs → Among c (xs ++ ys)
Among-append c [] ys h = absurd h
Among-append c (x ∷ xs) ys (inl here) = inl here
Among-append c (x ∷ xs) ys (inr there) = inr (Among-append c xs ys there)

some-injective : {A : Type 0} {a b : A} → some a ≡ some b → a ≡ b
some-injective e = cc

-- After a write the command of its key has the new value.
set_value-Among :
    (key : Bytes) (v : ℕ) (t : Table ℕ) (e : Entry ℕ)
    → find_entry key t ≡ some e
    → Among (c_str e.name, v) (int_commands (set_value key v t))
unfolding find_entry set_value
set_value-Among key v [] e found = cc
set_value-Among key v (f ∷ t) e found = elim (Bool-cases (text_eq f.key key)) [
  | inl here ↦
      let same : f ≡ e = some-injective (rw here at found) in
      rw here (inl (ap (λ (x : Entry ℕ). (c_str x.name, v)) (sym same)))
  | inr there ↦ rw there (inr (set_value-Among key v t e (rw there at found)))
]

found-has_key :
    {A : Type 0} (key : Bytes) (t : Table A) (e : Entry A)
    → find_entry key t ≡ some e
    → has_key key t ≡ true
found-has_key key t e found = elim (find_entry-cases key t) [
  | inl (f, same, has) ↦ has
  | inr (missing, lacks) ↦ cc
]

module _ {fl : Floats} (ros : Ros fl) (inet : Inet) (params : Parameters fl) (key : Bytes)
    (value : ros.Value) where
  -- The parameter of an integer command of the simulator.
  abbrev pub setting : Parameter ros inet
  setting = record { name = text "sim_commands." ++ key; value = value }

  setting-meaning :
      (v : ℕ) (e : Entry ℕ)
      → find_entry key params.sim_commands.int_params ≡ some e
      → ros.as_int value ≡ some v
      → meaning ros inet setting params ≡ some (sim_int key (int_of_int64 v))
  unfolding meaning
  setting-meaning v e found is = rw (found-has_key key params.sim_commands.int_params e found, is)

  accepted_alone :
      (v : ℕ)
      → meaning ros inet setting params ≡ some (sim_int key (int_of_int64 v))
      → on_parameter_update ros inet (setting ∷ []) params
        ≡ ok (with_sim_int params key (int_of_int64 v), success)
  accepted_alone v means =
      let (result, does, judged) = on_parameter_update-eq ros inet (setting ∷ []) params in
      let good : result ≡ success = rw means at judged in rw (means, good) at does

  -- If the name of a parameter is that of an integer command of the simulator and its value an
  -- integer, setting it succeeds, and the next packet of commands that goes to the simulator holds
  -- the command with the new value, cut to 32 bits. The parameters are valid before, every address
  -- among the simulator's commands is one, the network takes the simulator's address, and its base
  -- port is not one of the two largest integers.
  pub setting_is_sent :
      (net : Sockets) (sent : List Datagram) (v : ℕ) (e : Entry ℕ)
      → IsValid params
      → find_entry key params.sim_commands.int_params ≡ some e
      → ros.as_int value ≡ some v
      → All (λ (f : Entry Bytes). IsAddress inet f.value) params.sim_commands.ip_str_params
      → PortFits (sim_baseport params)
      → net.from_string (sim_ip params) ≡ true
      → (params' : Parameters fl) × (payload : Bytes) × (on_parameter_update ros inet
            (setting ∷ [])
            params
          ≡ ok (params', success))
        × (send_sim_cmds inet net params' sent
            ≡ ok (
                deliver net
                  (datagram_of (sim_ip params) ((sim_baseport params + 2) % 65536) payload)
                  sent))
        × Among (c_str e.name, int_of_int64 v) (read_commands (drop 4 payload))
  setting_is_sent net sent v e valid found is known fits reachable =
      let v' = int_of_int64 v in
      let params' = with_sim_int params key v' in
      let valid' : IsValid params' = apply-IsValid (sim_int key v') params (omega arith) valid in
      let (payload, goes, holds) =
        send_sim_cmds-eq inet net params' valid' sent known fits reachable in
      (
        params',
        payload,
        accepted_alone v (setting-meaning v e found is),
        goes,
        subst (Among (c_str e.name, v')) (sym holds.1) (
            Among-append (c_str e.name, v') (int_commands params'.sim_commands.int_params)
              (ip_commands inet params.sim_commands.ip_str_params)
              (set_value-Among key v' params.sim_commands.int_params e found)),
      )
