-- ===== src/Node/MsgMap/Every.antt =====
-- What every assembler of the map has stays so when the map is changed.
use ros2sonic.Prelude.{
  ℕ, Bool, true, false, ◌≡◌, ap, sym, ◌∙◌, if◌then◌else◌, Option, none, some, [], ◌∷◌, All,
  Bool-cases, inl, inr, ◌==◌, ltb,
}
use mathlib.Core.Option
use ros2sonic.Node.MsgMap.{MsgMap, find, put, erase, oldest_kept, clean_msg_map}

abbrev pub is_there {ℓ} : {A : Type ℓ} → Option A → Bool
is_there none = false
is_there (some a) = true

module _ {ℓ κ} {A : Type ℓ} (P : A → Type κ) where
  abbrev pub Every : MsgMap A → Type κ
  Every m = All (λ item. P item.1) m

  pub found-Every :
      (k : ℕ) (m : MsgMap A) (d : A)
      → Every m
      → is_there (find k m) ≡ true
      → P (Option.get_or (find k m) d)
  unfolding find
  found-Every k [] d h there = cc
  found-Every k ((j, v) ∷ m) d h there = elim (Bool-cases (j == k)) [
    | inl here ↦ rw here h.0
    | inr further ↦ rw further (
        found-Every k m d h.1
          (ap (λ t. is_there (if t then some v else find k m)) (sym further) ∙ there))
  ]

  pub put-Every : (k : ℕ) (v : A) (m : MsgMap A) → Every m → P v → Every (put k v m)
  unfolding put
  put-Every k v [] h p = (p, tt)
  put-Every k v ((j, w) ∷ m) h p = elim (Bool-cases (j == k)) [
    | inl here ↦ rw here (p, h.1)
    | inr other ↦ rw other (elim (Bool-cases (ltb k j)) [
      | inl before ↦ rw before (p, h)
      | inr behind ↦ rw behind (h.0, put-Every k v m h.1 p)
    ])
  ]

  pub erase-Every : (k : ℕ) (m : MsgMap A) → Every m → Every (erase k m)
  unfolding erase
  erase-Every k [] h = tt
  erase-Every k ((j, w) ∷ m) h = elim (Bool-cases (j == k)) [
    | inl here ↦ rw here (erase-Every k m h.1)
    | inr other ↦ rw other (h.0, erase-Every k m h.1)
  ]

  pub clean-Every : (k : ℕ) (m : MsgMap A) → Every m → Every (clean_msg_map k m)
  unfolding clean_msg_map
  clean-Every k [] h = tt
  clean-Every k ((j, w) ∷ m) h = elim (Bool-cases (ltb j (oldest_kept k))) [
    | inl old ↦ rw old (clean-Every k m h.1)
    | inr young ↦ rw young (h.0, clean-Every k m h.1)
  ]
