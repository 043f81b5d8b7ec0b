-- ===== src/Node/Table/Laws.antt =====
-- What a write to a table of commands changes, and what it leaves.
use mathlib.Core.Option
use ros2sonic.Prelude.{
  ◌≡◌, refl, ap, List, [], ◌∷◌, map, Bool-cases, inl, inr, if◌then◌else◌, arith,
}
use ros2sonic.Memory.{Bytes}
use ros2sonic.Text.{text_eq, text_eq_iff}
use ros2sonic.Node.Table.{Entry, Table, find_entry, set_value}

module _ {ℓ} {A : Type ℓ} where
  pub find_entry-set_value :
      (k j : Bytes) (v : A) (t : Table A)
      → find_entry j (set_value k v t) ≡ (
          if text_eq k j
          then Option.map (λ (e : Entry A). record e { value = v }) (find_entry j t)
          else find_entry j t)
  unfolding find_entry set_value
  find_entry-set_value k j v [] = ground arith
  find_entry-set_value k j v (e ∷ t) = ground (
    arith,
    text_eq_iff e.key k,
    text_eq_iff e.key j,
    text_eq_iff k j,
    find_entry-set_value k j v t,
  )

  -- The letters of the commands, in the order of the table.
  pub names-set_value :
      (k : Bytes) (v : A) (t : Table A)
      → map (λ (e : Entry A). e.name) (set_value k v t) ≡ map (λ (e : Entry A). e.name) t
  unfolding set_value
  names-set_value k v [] = refl
  names-set_value k v (e ∷ t) = elim (Bool-cases (text_eq e.key k)) [
    | inl here ↦ rw here
    | inr there ↦ rw there (ap (λ (r : List Bytes). e.name ∷ r) (names-set_value k v t))
  ]
