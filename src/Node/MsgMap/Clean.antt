-- ===== src/Node/MsgMap/Clean.antt =====
-- Which assemblers survive a cleaning.
use ros2sonic.Prelude.{
  ℕ, ◌+◌, ◌-◌, ◌^◌, ◌≤◌, ◌<◌, ◌≡◌, refl, ap, ◌∙◌, none, some, [], ◌∷◌, All, ltb, lt→ltb, ◌==◌,
  ==_iff, if◌then◌else◌, arith,
}
use ros2sonic.Node.MsgMap.{MsgMap, find, put, erase, oldest_kept, clean_msg_map}

module _ {ℓ} {A : Type ℓ} where
  pub find-clean :
      (ping_no k : ℕ) (m : MsgMap A)
      → find k (clean_msg_map ping_no m) ≡ (if ltb k (oldest_kept ping_no) then none else find k m)
  unfolding find clean_msg_map
  find-clean ping_no k [] = ground arith
  find-clean ping_no k ((j, v) ∷ m) = ground (arith, find-clean ping_no k m)

  -- For a 32-bit ping number from 10 on, cleaning for a ping forgets exactly the pings that are
  -- more than ten before it; every other ping keeps its assembler as it was.
  pub find-clean_recent :
      (ping_no k : ℕ) (m : MsgMap A)
      → 10 ≤ ping_no
      → ping_no < 2 ^ 32
      → find k (clean_msg_map ping_no m) ≡ (if ltb (k + 10) ping_no then none else find k m)
  find-clean_recent ping_no k m low high =
      let bound : oldest_kept ping_no ≡ ping_no - 10 = omega arith in
      find-clean ping_no k m ∙ ap (λ b. if ltb k b then none else find k m) bound ∙ ground arith

  -- Below ping 10 the subtraction wraps: if all the pings of the map are below 2 ^ 32 - 10,
  -- cleaning forgets every one of them, also those that come next.
  pub clean-wraps :
      (ping_no : ℕ) (m : MsgMap A)
      → ping_no < 10
      → All (λ item. item.0 < 2 ^ 32 - 10) m
      → clean_msg_map ping_no m ≡ []
  unfolding clean_msg_map
  clean-wraps ping_no [] early keys = refl
  clean-wraps ping_no ((j, v) ∷ m) early keys =
      rw (lt→ltb j (oldest_kept ping_no) (omega (arith, keys.0)))
        (clean-wraps ping_no m early keys.1)

  -- The completed ping is forgotten, and no other.
  pub find-erase :
      (k j : ℕ) (m : MsgMap A) → find j (erase k m) ≡ (if k == j then none else find j m)
  unfolding find erase
  find-erase k j [] = ground arith
  find-erase k j ((i, v) ∷ m) = ground (arith, find-erase k j m)

  pub find-put :
      (k j : ℕ) (v : A) (m : MsgMap A) → find j (put k v m) ≡ (if k == j then some v else find j m)
  unfolding find put
  find-put k j v [] = ground arith
  find-put k j v ((i, w) ∷ m) = ground (arith, find-put k j v m)

  pub find-put_same : (k : ℕ) (v : A) (m : MsgMap A) → find k (put k v m) ≡ some v
  find-put_same k v m =
      find-put k k v m ∙ ap (λ b. if b then some v else find k m) ((==_iff k k).1 refl)
