-- ===== src/Node/Parameters/Update/Correct.antt =====
-- The callback does what its specification says.
use ros2sonic.Prelude.{
  ℕ, ◌≡◌, refl, ap, Bool, true, false, ◌||◌, Option, none, some, [], ◌∷◌, Bool-cases, ◌⊎◌, inl, inr,
  ◌++◌, length, drop,
}
use ros2sonic.Outcome.{Outcome, ok, throw, catch, parameter_type, runtime_error}
use ros2sonic.Memory.{Bytes}
use ros2sonic.Text.{text, text_eq, c_str, starts_with}
use ros2sonic.Inet.{Inet, ip_str_to_u32}
use ros2sonic.Floats.{Floats}
use ros2sonic.Node.Table.{Entry, Table, find_entry, set_value}
use ros2sonic.Node.Ros.{Ros}
use ros2sonic.Node.Parameters.{Parameters}
use ros2sonic.Node.Parameters.Update.{
  SetResult, failed, Parameter, State, update_sim_ip, update_sim, update_head, update_one,
}
use ros2sonic.Node.Parameters.Update.Spec.{
  Write, sim_int, sim_ip, head_float, head_int, apply, has_key, checked_ip, sim_meaning,
  head_meaning, meaning,
}

Option-cases {ℓ} : {A : Type ℓ} (o : Option A) → ((a : A) × (o ≡ some a)) ⊎ (o ≡ none)
Option-cases none = inr refl
Option-cases (some a) = inl (a, refl)

ip_str_to_u32-some :
    (inet : Inet) (s : Bytes) {n : ℕ}
    → inet.inet_pton (c_str s) ≡ some n
    → ip_str_to_u32 inet s ≡ ok (inet.ntohl n)
unfolding ip_str_to_u32
ip_str_to_u32-some inet s read = rw (ip_str_to_u32, read)

ip_str_to_u32-none :
    (inet : Inet) (s : Bytes)
    → inet.inet_pton (c_str s) ≡ none
    → ip_str_to_u32 inet s ≡ throw runtime_error
unfolding ip_str_to_u32
ip_str_to_u32-none inet s unread = rw (ip_str_to_u32, unread)

-- A lookup finds an entry exactly where there is the key.
pub find_entry-cases {ℓ} :
    {A : Type ℓ} (k : Bytes) (t : Table A)
    → ((e : Entry A) × (find_entry k t ≡ some e) × (has_key k t ≡ true))
      ⊎ ((find_entry k t ≡ none) × (has_key k t ≡ false))
unfolding find_entry has_key
find_entry-cases k [] = inr (refl, refl)
find_entry-cases k (e ∷ t) = elim (Bool-cases (text_eq e.key k)) [
  | inl here ↦ inl (e, rw here, rw here)
  | inr there ↦ elim (find_entry-cases k t) [
    | inl (f, found, has) ↦ inl (f, rw there found, rw there has)
    | inr (missing, lacks) ↦ inr (rw there missing, rw there lacks)
  ]
]

-- A write adds and removes no key.
has_key-set_value {ℓ} :
    {A : Type ℓ} (j k : Bytes) (v : A) (t : Table A) → has_key j (set_value k v t) ≡ has_key j t
unfolding has_key set_value
has_key-set_value j k v [] = refl
has_key-set_value j k v (e ∷ t) = elim (Bool-cases (text_eq e.key k)) [
  | inl here ↦ rw here
  | inr there ↦ rw there (ap (λ (b : Bool). text_eq e.key j || b) (has_key-set_value j k v t))
]

module _ {fl : Floats} (ros : Ros fl) (inet : Inet) where
  -- What a step does to the state, where it stands for a write and where it does not.
  abbrev pub Answers : Option (Write fl) → Outcome (State ros inet) → State ros inet → Type 0
  Answers (some w) m (params, result) = m ≡ ok (apply w params, result)
  Answers none m (params, result) = (why : Bytes) × (m ≡ ok (params, failed why))

  -- The same before the outer handler.
  abbrev Raises : Option (Write fl) → Outcome (State ros inet) → State ros inet → Type 0
  Raises (some w) m (params, result) = m ≡ ok (apply w params, result)
  Raises none m (params, result) =
      ((why : Bytes) × (m ≡ ok (params, failed why))) ⊎ (m ≡ throw parameter_type)

  update_sim_ip-Raises :
      (key : Bytes) (value : ros.Value) (params : Parameters fl) (result : SetResult)
      → Raises
          (checked_ip ros inet key (ros.as_string value))
          (update_sim_ip ros inet key value (params, result))
          (params, result)
  unfolding update_sim_ip
  update_sim_ip-Raises key value params result = elim (Option-cases (ros.as_string value)) [
    | inl (s, is) ↦ elim (Option-cases (inet.inet_pton (c_str s))) [
      | inl (n, read) ↦ rw (is, read, ip_str_to_u32-some inet s read)
      | inr unread ↦
          rw (is, unread, ip_str_to_u32-none inet s unread)
            (inl (
              text "Invalid IP for sim_commands." ++ (key ++ (text ": " ++ ros.what runtime_error)),
              refl,
            ))
    ]
    | inr other ↦ rw other (inr refl)
  ]

  update_sim-Raises :
      (key : Bytes) (value : ros.Value) (params : Parameters fl) (result : SetResult)
      → Raises
          (sim_meaning ros inet key value params)
          (update_sim ros inet key value (params, result))
          (params, result)
  unfolding update_sim
  update_sim-Raises key value params result =
      elim (find_entry-cases key params.sim_commands.int_params) [
        | inl (e, found, has) ↦ elim (Option-cases (ros.as_int value)) [
          | inl (v, is) ↦ rw (has, is, update_sim, found, is)
          | inr other ↦ rw (has, other, update_sim, found, other) (inr refl)
        ]
        | inr (missing, lacks) ↦ elim (find_entry-cases key params.sim_commands.ip_str_params) [
          | inl (e, found, has) ↦
              rw (lacks, has, update_sim, missing, found)
                (update_sim_ip-Raises key value params result)
          | inr (missing', lacks') ↦
              rw (lacks, lacks', update_sim, missing, missing') (inl (_, refl))
        ]
      ]

  update_head-Raises :
      (key : Bytes) (value : ros.Value) (params : Parameters fl) (result : SetResult)
      → Raises
          (head_meaning ros inet key value params)
          (update_head ros inet key value (params, result))
          (params, result)
  unfolding update_head
  update_head-Raises key value params result =
      elim (find_entry-cases key params.head_commands.float_params) [
        | inl (e, found, has) ↦ elim (Option-cases (ros.as_double value)) [
          | inl (v, is) ↦ rw (has, is, update_head, found, is)
          | inr other ↦ rw (has, other, update_head, found, other) (inr refl)
        ]
        | inr (missing, lacks) ↦ elim (find_entry-cases key params.head_commands.int_params) [
          | inl (e, found, has) ↦ elim (Option-cases (ros.as_int value)) [
            | inl (v, is) ↦ rw (lacks, has, is, update_head, missing, found, is)
            | inr other ↦ rw (lacks, has, other, update_head, missing, found, other) (inr refl)
          ]
          | inr (missing', lacks') ↦
              rw (lacks, lacks', update_head, missing, missing') (inl (_, refl))
        ]
      ]

  caught :
      (w : Option (Write fl)) (m : Outcome (State ros inet)) (params : Parameters fl)
      (result : SetResult)
      → Raises w m (params, result)
      → Answers w
          (catch m (λ e. ok (params, failed (text "Failed to update parameter: " ++ ros.what e))))
          (params, result)
  caught (some w) m params result h = rw h
  caught none m params result (inl (why, h)) = (why, rw h)
  caught none m params result (inr h) =
      (text "Failed to update parameter: " ++ ros.what parameter_type, rw h)

  pub update_one-Answers :
      (p : Parameter ros inet) (params : Parameters fl) (result : SetResult)
      → Answers
          (meaning ros inet p params)
          (update_one ros inet p (params, result))
          (params, result)
  unfolding meaning update_one
  update_one-Answers p params result =
      elim (Bool-cases (starts_with (text "sim_commands.") p.name)) [
        | inl sim ↦ rw sim (
            caught _ _ params result (
              update_sim-Raises (drop (length (text "sim_commands.")) p.name) p.value params
                result))
        | inr other ↦ elim (Bool-cases (starts_with (text "head_commands.") p.name)) [
          | inl head ↦
              rw (other, head)
                (caught _ _ params result (
                  update_head-Raises (drop (length (text "head_commands.")) p.name) p.value params
                    result))
          | inr neither ↦ rw (other, neither) (text "Unknown parameter: " ++ p.name, refl)
        ]
      ]

  -- The keys decide what is accepted, and no write changes them.
  pub meaning-apply :
      (p : Parameter ros inet) (w : Write fl) (params : Parameters fl)
      → meaning ros inet p (apply w params) ≡ meaning ros inet p params
  unfolding meaning
  meaning-apply p (sim_int key v) params = simp has_key-set_value
  meaning-apply p (sim_ip key v) params = simp has_key-set_value
  meaning-apply p (head_float key v) params = simp has_key-set_value
  meaning-apply p (head_int key v) params = simp has_key-set_value
