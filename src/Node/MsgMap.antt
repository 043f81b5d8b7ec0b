-- ===== src/Node/MsgMap.antt =====
-- msgMap<T> is std::map<u32, T>: pairs in ascending order of the keys; and cleanMsgMap of
-- r2sonic/src/r2sonic_node.cpp.
pub mod Clean
pub mod Every
use ros2sonic.Prelude.{
  ℕ, ◌+◌, ◌-◌, ◌%◌, ◌^◌, Option, none, some, List, [], ◌∷◌, ltb, ◌==◌, if◌then◌else◌,
}

abbrev pub MsgMap {ℓ} : Type ℓ → Type ℓ
MsgMap A = List (ℕ × A)

-- `ping_no - 10` is a u32 and wraps below 10.
abbrev pub oldest_kept : ℕ → ℕ
oldest_kept ping_no = (ping_no + 2 ^ 32 - 10) % 2 ^ 32

module _ {ℓ} {A : Type ℓ} where
  unfoldable pub find : ℕ → MsgMap A → Option A
  find k [] = none
  find k ((j, v) ∷ m) = if j == k then some v else find k m

  -- map[k] = v, at the key's place in the order
  unfoldable pub put : ℕ → A → MsgMap A → MsgMap A
  put k v [] = (k, v) ∷ []
  put k v ((j, w) ∷ m) =
      let rest = put k v m in
      if j == k then (k, v) ∷ m else if ltb k j then (k, v) ∷ (j, w) ∷ m else (j, w) ∷ rest

  -- map.erase(k)
  unfoldable pub erase : ℕ → MsgMap A → MsgMap A
  erase k [] = []
  erase k ((j, w) ∷ m) = let rest = erase k m in if j == k then rest else (j, w) ∷ rest

  unfoldable pub clean_msg_map : ℕ → MsgMap A → MsgMap A
  clean_msg_map ping_no [] = []
  clean_msg_map ping_no ((item_ping_no, v) ∷ m) =
      let rest = clean_msg_map ping_no m in
      if ltb item_ping_no (oldest_kept ping_no) then rest else (item_ping_no, v) ∷ rest
