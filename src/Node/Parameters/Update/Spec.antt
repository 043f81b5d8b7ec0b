-- ===== src/Node/Parameters/Update/Spec.antt =====
-- Which updates onParameterUpdate of r2sonic/src/r2sonic_node.cpp accepts, and what each writes,
-- said without its lookups and exceptions.
use mathlib.Core.Option
use ros2sonic.Prelude.{
  ℕ, Bool, true, false, ◌&&◌, ◌||◌, Option, none, some, List, [], ◌∷◌, length, drop, if◌then◌else◌,
}
use ros2sonic.Memory.{Bytes}
use ros2sonic.Text.{text, text_eq, c_str, starts_with}
use ros2sonic.Inet.{Inet}
use ros2sonic.Floats.{Floats}
use ros2sonic.Node.Table.{Table}
use ros2sonic.Node.Ros.{Ros}
use ros2sonic.Node.Parameters.{Parameters}
use ros2sonic.Node.Parameters.Init.{int_of_int64}
use ros2sonic.Node.Parameters.Update.{
  Parameter, with_sim_int, with_sim_ip, with_head_float, with_head_int,
}

-- A write to one of the four tables, at a key.
pub data Write (fl : Floats) : Type 0 where
  sim_int : Bytes → ℕ → Write fl
  sim_ip : Bytes → Bytes → Write fl
  head_float : Bytes → fl.F32 → Write fl
  head_int : Bytes → ℕ → Write fl

abbrev pub apply : {fl : Floats} → Write fl → Parameters fl → Parameters fl
apply (sim_int key v) params = with_sim_int params key v
apply (sim_ip key v) params = with_sim_ip params key v
apply (head_float key v) params = with_head_float params key v
apply (head_int key v) params = with_head_int params key v

abbrev pub apply_all : {fl : Floats} → List (Write fl) → Parameters fl → Parameters fl
apply_all [] params = params
apply_all (w ∷ ws) params = apply_all ws (apply w params)

unfoldable pub has_key {ℓ} : {A : Type ℓ} → Bytes → Table A → Bool
has_key k [] = false
has_key k (e ∷ t) = text_eq e.key k || has_key k t

module _ {fl : Floats} (ros : Ros fl) (inet : Inet) where
  -- Only an address is taken as one.
  abbrev pub checked_ip : Bytes → Option Bytes → Option (Write fl)
  checked_ip key none = none
  checked_ip key (some s) = Option.map (λ (n : ℕ). sim_ip key s) (inet.inet_pton (c_str s))

  abbrev pub sim_meaning : Bytes → ros.Value → Parameters fl → Option (Write fl)
  sim_meaning key value params =
      if has_key key params.sim_commands.int_params
      then Option.map (λ v. sim_int key (int_of_int64 v)) (ros.as_int value)
      else if has_key key params.sim_commands.ip_str_params
      then checked_ip key (ros.as_string value)
      else none

  abbrev pub head_meaning : Bytes → ros.Value → Parameters fl → Option (Write fl)
  head_meaning key value params =
      if has_key key params.head_commands.float_params
      then Option.map (λ x. head_float key (fl.float_of_double x)) (ros.as_double value)
      else if has_key key params.head_commands.int_params
      then Option.map (λ v. head_int key (int_of_int64 v)) (ros.as_int value)
      else none

  -- The write that a parameter stands for, if it is accepted.
  unfoldable pub meaning : Parameter ros inet → Parameters fl → Option (Write fl)
  meaning p params =
      if starts_with (text "sim_commands.") p.name
      then sim_meaning (drop (length (text "sim_commands.")) p.name) p.value params
      else if starts_with (text "head_commands.") p.name
      then head_meaning (drop (length (text "head_commands.")) p.name) p.value params
      else none

  abbrev pub add_write : Option (Write fl) → List (Write fl) → List (Write fl)
  add_write none ws = ws
  add_write (some w) ws = w ∷ ws

  -- The writes of the accepted parameters, in their order, and whether all are accepted.
  abbrev pub accepted : List (Parameter ros inet) → Parameters fl → List (Write fl)
  accepted [] params = []
  accepted (p ∷ ps) params = add_write (meaning p params) (accepted ps params)

  abbrev pub is_accepted : Option (Write fl) → Bool
  is_accepted none = false
  is_accepted (some w) = true

  abbrev pub all_accepted : List (Parameter ros inet) → Parameters fl → Bool
  all_accepted [] params = true
  all_accepted (p ∷ ps) params = is_accepted (meaning p params) && all_accepted ps params
