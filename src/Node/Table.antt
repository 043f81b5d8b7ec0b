-- ===== src/Node/Table.antt =====
-- std::map<std::string, std::pair<std::string, T>>: the tables of commands in
-- r2sonic/include/r2sonic/r2sonic_node.hpp, in ascending order of the keys.
pub mod Laws
use ros2sonic.Prelude.{ℕ, Bool, true, false, Option, none, some, List, [], ◌∷◌, if◌then◌else◌}
use ros2sonic.Memory.{Bytes}
use ros2sonic.Text.{text_eq, text_lt}

-- The key, the four letters of the command, and its value.
pub record Entry {ℓ} (A : Type ℓ) : Type ℓ where
  pub key : Bytes
  pub name : Bytes
  pub value : A

abbrev pub Table {ℓ} : Type ℓ → Type ℓ
Table A = List (Entry A)

module _ {ℓ} {A : Type ℓ} where
  -- insert: at the key's place in the order; an entry that is there stays.
  unfoldable pub insert : Entry A → Table A → Table A
  insert e [] = e ∷ []
  insert e (f ∷ t) =
      let rest = insert e t in
      if text_eq f.key e.key then f ∷ t else if text_lt e.key f.key then e ∷ f ∷ t else f ∷ rest

  -- A map from a list of entries, which are inserted from the first to the last.
  unfoldable pub insert_all : List (Entry A) → Table A → Table A
  insert_all [] t = t
  insert_all (e ∷ es) t = insert_all es (insert e t)

  -- find(key) != end()
  unfoldable pub find_entry : Bytes → Table A → Option (Entry A)
  find_entry k [] = none
  find_entry k (e ∷ t) = if text_eq e.key k then some e else find_entry k t

  -- it->second.second = v, where `it` is what find gives.
  unfoldable pub set_value : Bytes → A → Table A → Table A
  set_value k v [] = []
  set_value k v (e ∷ t) =
      let rest = set_value k v t in if text_eq e.key k then record e { value = v } ∷ t else e ∷ rest
