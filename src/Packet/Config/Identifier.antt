-- ===== src/Packet/Config/Identifier.antt =====
-- The configuration's identifier, and its size on the wire.
use ros2sonic.Prelude.{
  ℕ, ◌%◌, ◌^◌, ◌<◌, ◌≡◌, ◌≢◌, refl, sym, ap, ◌∙◌, true, false, ◌∷◌, ◌++◌, bit_xor, ==_iff,
  Bool-cases, inl, inr, arith,
}
use ros2sonic.Prelude.Bits.{bit_xor_twice, bit_xor_comm, bit_xor-lt}
use ros2sonic.Memory.{Bytes, IsBytes, get}
use ros2sonic.Memory.Reads.{get-assign}
use ros2sonic.Packet.Config.{
  Config, fnv1a_hash, hashed_bytes, generate_config_id, node_name, set_config_id,
  config_id_is_valid,
}
use ros2sonic.Packet.Config.Hash.{fnv_from-lt, fnv1a_hash-injective_byte}

fnv1a_hash-lt : (bytes : Bytes) → fnv1a_hash bytes < 2 ^ 32
unfolding fnv1a_hash
fnv1a_hash-lt bytes = fnv_from-lt 0x811C9DC5 bytes (omega arith)

generate_config_id-lt : (c : Config) (name : Bytes) → generate_config_id c name < 2 ^ 32
unfolding generate_config_id
generate_config_id-lt c name =
    bit_xor-lt 32 (fnv1a_hash name) (fnv1a_hash (hashed_bytes c)) (fnv1a_hash-lt name)
      (fnv1a_hash-lt (hashed_bytes c))

-- The identifier that is set reads back whole.
get-set_config_id :
    (c : Config)
    → c.config_id.width ≡ 4
    → get (set_config_id c).config_id ≡ generate_config_id c node_name
unfolding set_config_id
get-set_config_id c w =
    get-assign c.config_id (generate_config_id c node_name)
    ∙ ap (λ k. generate_config_id c node_name % 256 ^ k) w
    ∙ omega (arith, generate_config_id-lt c node_name)

hash_cancels : (a x y : ℕ) → bit_xor a x ≡ bit_xor a y → x ≡ y
hash_cancels a x y e =
    sym (bit_xor_twice x a)
    ∙ ap (λ t. bit_xor t a) (bit_xor_comm x a ∙ e ∙ bit_xor_comm a y)
    ∙ bit_xor_twice y a

id_cancels :
    (c d : Config)
    → generate_config_id c node_name ≡ generate_config_id d node_name
    → fnv1a_hash (hashed_bytes c) ≡ fnv1a_hash (hashed_bytes d)
unfolding generate_config_id
id_cancels c d e = hash_cancels (fnv1a_hash node_name) _ _ e

id-set_config_id :
    (c : Config) → generate_config_id (set_config_id c) node_name ≡ generate_config_id c node_name
unfolding set_config_id generate_config_id hashed_bytes
id-set_config_id c = refl

valid_iff :
    (c : Config)
    → config_id_is_valid c node_name ≡ true
    → get c.config_id ≡ generate_config_id c node_name
unfolding config_id_is_valid
valid_iff c h = (==_iff _ _).0 h

pub set_is_valid :
    (c : Config) → c.config_id.width ≡ 4 → config_id_is_valid (set_config_id c) node_name ≡ true
unfolding config_id_is_valid
set_is_valid c w = (==_iff _ _).1 (get-set_config_id c w ∙ sym (id-set_config_id c))

-- A configuration whose identifier was set is valid for the driver's name. If one byte of what the
-- identifier covers is then changed, and the identifier is not, it is valid no more.
pub config_id_detects_change :
    (c changed : Config) (before after : Bytes) (x y : ℕ)
    → c.config_id.width ≡ 4
    → changed.config_id ≡ (set_config_id c).config_id
    → hashed_bytes c ≡ before ++ x ∷ after
    → hashed_bytes changed ≡ before ++ y ∷ after
    → IsBytes after
    → x < 256
    → y < 256
    → x ≢ y
    → (config_id_is_valid (set_config_id c) node_name ≡ true)
      × (config_id_is_valid changed node_name ≡ false)
config_id_detects_change c changed before after x y w same old new bytes x_lt y_lt differ = (
  set_is_valid c w,
  elim (Bool-cases (config_id_is_valid changed node_name)) [
    | inl h ↦ absurd (differ (collide h))
    | inr h ↦ h
  ],
)
  where
    collide : config_id_is_valid changed node_name ≡ true → x ≡ y
    collide h =
        let same_id : generate_config_id c node_name ≡ generate_config_id changed node_name =
          sym (get-set_config_id c w) ∙ ap get (sym same) ∙ valid_iff changed h in
        fnv1a_hash-injective_byte before after x y bytes x_lt y_lt
          (ap fnv1a_hash (sym old) ∙ id_cancels c changed same_id ∙ ap fnv1a_hash new)
