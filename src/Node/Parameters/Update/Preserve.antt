-- ===== src/Node/Parameters/Update/Preserve.antt =====
-- An update keeps the parameters valid.
use mathlib.Core.Option
use ros2sonic.Prelude.{
  ℕ, ◌^◌, ◌<◌, ◌≡◌, Bool, true, false, Option, none, some, List, [], ◌∷◌, All, Bool-cases, inl, inr,
  if◌then◌else◌, length, drop, arith,
}
use ros2sonic.Outcome.{ok}
use ros2sonic.Memory.{Bytes}
use ros2sonic.Text.{text, text_eq, c_str, starts_with}
use ros2sonic.Inet.{Inet}
use ros2sonic.Floats.{Floats}
use ros2sonic.Node.Table.{Table, set_value}
use ros2sonic.Node.Ros.{Ros}
use ros2sonic.Node.Parameters.{Parameters}
use ros2sonic.Node.Parameters.Valid.{HasLetters, IsIntEntry, IsValid}
use ros2sonic.Node.Parameters.Init.{int_of_int64}
use ros2sonic.Node.Parameters.Update.{SetResult, Parameter, on_parameter_update}
use ros2sonic.Node.Parameters.Update.Spec.{
  Write, sim_int, sim_ip, head_float, head_int, apply, apply_all, has_key, checked_ip, sim_meaning,
  head_meaning, meaning, add_write, accepted,
}
use ros2sonic.Node.Parameters.Update.Batch.{on_parameter_update-eq}

-- An integer that is written is a 32-bit pattern.
abbrev pub Fits : {fl : Floats} → Write fl → Type 0
Fits (sim_int key v) = v < 2 ^ 32
Fits (sim_ip key v) = Unit
Fits (head_float key v) = Unit
Fits (head_int key v) = v < 2 ^ 32

set_value-HasLetters {ℓ} :
    {A : Type ℓ} (k : Bytes) (v : A) (t : Table A)
    → All HasLetters t
    → All HasLetters (set_value k v t)
unfolding set_value
set_value-HasLetters k v [] h = tt
set_value-HasLetters k v (e ∷ t) h = elim (Bool-cases (text_eq e.key k)) [
  | inl here ↦ rw here h
  | inr there ↦ rw there (h.0, set_value-HasLetters k v t h.1)
]

set_value-IsIntEntry :
    (k : Bytes) (v : ℕ) (t : Table ℕ)
    → v < 2 ^ 32
    → All IsIntEntry t
    → All IsIntEntry (set_value k v t)
unfolding set_value
set_value-IsIntEntry k v [] small h = tt
set_value-IsIntEntry k v (e ∷ t) small h = elim (Bool-cases (text_eq e.key k)) [
  | inl here ↦ rw here ((h.0.0, small), h.1)
  | inr there ↦ rw there (h.0, set_value-IsIntEntry k v t small h.1)
]

pub apply-IsValid :
    {fl : Floats} (w : Write fl) (params : Parameters fl)
    → Fits w
    → IsValid params
    → IsValid (apply w params)
apply-IsValid (sim_int key v) params fits valid = record {
  selected = valid.selected;
  arrays = valid.arrays;
  sim_ints = set_value-IsIntEntry key v params.sim_commands.int_params fits valid.sim_ints;
  sim_ips = valid.sim_ips;
  head_floats = valid.head_floats;
  head_ints = valid.head_ints;
  armed = valid.armed;
}
apply-IsValid (sim_ip key v) params fits valid = record {
  selected = valid.selected;
  arrays = valid.arrays;
  sim_ints = valid.sim_ints;
  sim_ips = set_value-HasLetters key v params.sim_commands.ip_str_params valid.sim_ips;
  head_floats = valid.head_floats;
  head_ints = valid.head_ints;
  armed = valid.armed;
}
apply-IsValid (head_float key v) params fits valid = record {
  selected = valid.selected;
  arrays = valid.arrays;
  sim_ints = valid.sim_ints;
  sim_ips = valid.sim_ips;
  head_floats = set_value-HasLetters key v params.head_commands.float_params valid.head_floats;
  head_ints = valid.head_ints;
  armed = valid.armed;
}
apply-IsValid (head_int key v) params fits valid = record {
  selected = valid.selected;
  arrays = valid.arrays;
  sim_ints = valid.sim_ints;
  sim_ips = valid.sim_ips;
  head_floats = valid.head_floats;
  head_ints = set_value-IsIntEntry key v params.head_commands.int_params fits valid.head_ints;
  armed = valid.armed;
}

-- Every write that there is, is such.
AllFit : {fl : Floats} → Option (Write fl) → Type 0
AllFit none = Unit
AllFit (some w) = Fits w

module _ {fl : Floats} (ros : Ros fl) (inet : Inet) where
  ints-AllFit :
      (make : ℕ → Write fl) (o : Option ℕ)
      → ((v : ℕ) → v < 2 ^ 32 → Fits (make v))
      → AllFit (Option.map (λ v. make (int_of_int64 v)) o)
  unfolding AllFit
  ints-AllFit make none h = tt
  ints-AllFit make (some v) h = h (int_of_int64 v) (omega arith)

  checked_ip-AllFit : (key : Bytes) (o : Option Bytes) → AllFit (checked_ip ros inet key o)
  unfolding AllFit
  checked_ip-AllFit key none = tt
  checked_ip-AllFit key (some s) =
      elim (inet.inet_pton (c_str s))
        as (λ o. AllFit (Option.map {B = Write fl} (λ (n : ℕ). sim_ip key s) o)) [
          | none ↦ tt
          | some n ↦ tt
        ]

  floats-AllFit :
      (key : Bytes) (o : Option fl.F64)
      → AllFit {fl = fl} (Option.map {B = Write fl} (λ x. head_float key (fl.float_of_double x)) o)
  unfolding AllFit
  floats-AllFit key none = tt
  floats-AllFit key (some x) = tt

  either-AllFit :
      (b : Bool) (x y : Option (Write fl)) → AllFit x → AllFit y → AllFit (if b then x else y)
  either-AllFit true x y h k = h
  either-AllFit false x y h k = k

  none-AllFit : AllFit {fl = fl} none
  unfolding AllFit
  none-AllFit = tt

  sim_meaning-AllFit :
      (key : Bytes) (value : ros.Value) (params : Parameters fl)
      → AllFit (sim_meaning ros inet key value params)
  sim_meaning-AllFit key value params =
      either-AllFit (has_key key params.sim_commands.int_params) _ _
        (ints-AllFit (sim_int key) (ros.as_int value) (λ v h. h))
        (either-AllFit (has_key key params.sim_commands.ip_str_params) _ _
          (checked_ip-AllFit key (ros.as_string value)) none-AllFit)

  head_meaning-AllFit :
      (key : Bytes) (value : ros.Value) (params : Parameters fl)
      → AllFit (head_meaning ros inet key value params)
  head_meaning-AllFit key value params =
      either-AllFit (has_key key params.head_commands.float_params) _ _
        (floats-AllFit key (ros.as_double value))
        (either-AllFit (has_key key params.head_commands.int_params) _ _
          (ints-AllFit (head_int key) (ros.as_int value) (λ v h. h)) none-AllFit)

  meaning-AllFit :
      (p : Parameter ros inet) (params : Parameters fl) → AllFit (meaning ros inet p params)
  unfolding meaning
  meaning-AllFit p params =
      either-AllFit (starts_with (text "sim_commands.") p.name) _ _
        (sim_meaning-AllFit (drop (length (text "sim_commands.")) p.name) p.value params)
        (either-AllFit (starts_with (text "head_commands.") p.name) _ _
          (head_meaning-AllFit (drop (length (text "head_commands.")) p.name) p.value params)
          none-AllFit)

  add_write-All :
      (o : Option (Write fl)) (ws : List (Write fl))
      → AllFit o
      → All Fits ws
      → All Fits (add_write ros inet o ws)
  unfolding AllFit
  add_write-All none ws h k = k
  add_write-All (some w) ws h k = (h, k)

  accepted-All :
      (ps : List (Parameter ros inet)) (params : Parameters fl)
      → All Fits (accepted ros inet ps params)
  accepted-All [] params = tt
  accepted-All (p ∷ ps) params =
      add_write-All (meaning ros inet p params) (accepted ros inet ps params)
        (meaning-AllFit p params) (accepted-All ps params)

  apply_all-IsValid :
      (ws : List (Write fl)) (params : Parameters fl)
      → All Fits ws
      → IsValid params
      → IsValid (apply_all ws params)
  apply_all-IsValid [] params h valid = valid
  apply_all-IsValid (w ∷ ws) params h valid =
      apply_all-IsValid ws (apply w params) h.1 (apply-IsValid w params h.0 valid)

  -- If the parameters are valid then, whatever is set at run time, the callback returns and they
  -- stay valid.
  pub on_parameter_update-IsValid :
      (ps : List (Parameter ros inet)) (params : Parameters fl)
      → IsValid params
      → (params' : Parameters fl) × (result : SetResult) × (on_parameter_update ros inet ps params
          ≡ ok (params', result))
        × IsValid params'
  on_parameter_update-IsValid ps params valid =
      let (result, e, _) = on_parameter_update-eq ros inet ps params in
      let ws = accepted ros inet ps params in
      (apply_all ws params, result, e, apply_all-IsValid ws params (accepted-All ps params) valid)
