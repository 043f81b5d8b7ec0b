-- ===== src/Node/Publish/Stream/Known.antt =====
-- Which pings have an assembler after a packet.
use ros2sonic.Prelude.{
  ltb, if◌then◌else◌, ℕ, ◌≡◌, refl, ap, ◌∙◌, Bool, true, false, Bool-cases, inl, inr, ◌==◌,
}
use ros2sonic.Node.MsgMap.{MsgMap, find, put, erase, oldest_kept, clean_msg_map}
use ros2sonic.Node.MsgMap.Clean.{find-put, find-erase, find-clean}
use ros2sonic.Node.MsgMap.Every.{is_there}

still_known :
    (ends same old known : Bool)
    → same ≡ false
    → (if ends
        then (if old then false else if same then false else known)
        else if same
        then true
        else known)
      ≡ true
    → known ≡ true
still_known ends true old known other e = cc
still_known true false true known other e = cc
still_known true false false known other e = e
still_known false false old known other e = e

survives :
    (ends same old known : Bool)
    → ends ≡ true
    → (if ends
        then (if old then false else if same then false else known)
        else if same
        then true
        else known)
      ≡ true
    → (old ≡ false) × (same ≡ false)
survives true true true known end e = cc
survives true true false known end e = cc
survives true false true known end e = cc
survives true false false known end e = (refl, refl)
survives false same old known end e = cc

-- What is known of the map after an assembler was kept, and after an image was sent.
pub stored-Knows {ℓ} :
    {A : Type ℓ} (known : ℕ → Bool) (ends : Bool) (ping_no k : ℕ) (v : A) (m : MsgMap A)
    → (known k ≡ true → is_there (find k m) ≡ true)
    → (if ends
        then (if ltb k (oldest_kept ping_no)
            then false
            else if ping_no == k
            then false
            else known k)
        else if ping_no == k
        then true
        else known k)
      ≡ true
    → is_there (find k (put ping_no v m)) ≡ true
stored-Knows known ends ping_no k v m knows e =
    ap is_there (find-put ping_no k v m) ∙ elim (Bool-cases (ping_no == k)) [
      | inl same ↦ rw same
      | inr other ↦ rw other (knows (still_known ends (ping_no == k) _ (known k) other e))
    ]

pub completed-Knows {ℓ} :
    {A : Type ℓ} (known : ℕ → Bool) (ends : Bool) (ping_no k : ℕ) (v : A) (m : MsgMap A)
    → (known k ≡ true → is_there (find k m) ≡ true)
    → ends ≡ true
    → (if ends
        then (if ltb k (oldest_kept ping_no)
            then false
            else if ping_no == k
            then false
            else known k)
        else if ping_no == k
        then true
        else known k)
      ≡ true
    → is_there (find k (clean_msg_map ping_no (erase ping_no (put ping_no v m)))) ≡ true
completed-Knows known ends ping_no k v m knows end e =
    let (young, other) = survives ends (ping_no == k) _ (known k) end e in
    ap is_there (find-clean ping_no k (erase ping_no (put ping_no v m)))
    ∙ rw (young, find-erase ping_no k (put ping_no v m), other, find-put ping_no k v m, other)
        (knows (still_known ends (ping_no == k) _ (known k) other e))
