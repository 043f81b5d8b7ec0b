-- ===== src/Packet/Config/Hash.antt =====
-- The hash can be run backwards, so one changed byte always changes it.
use ros2sonic.Prelude.{
  ℕ, ◌*◌, ◌%◌, ◌^◌, ◌<◌, ◌≡◌, ◌≢◌, refl, sym, ap, ◌∙◌, [], ◌∷◌, ◌++◌, bit_xor, arith,
}
use ros2sonic.Prelude.Bits.{bit_xor_twice, bit_xor_comm, bit_xor-lt}
use ros2sonic.Memory.{Bytes, IsBytes}
use ros2sonic.Packet.Config.{fnv_step, fnv_from, fnv1a_hash}

-- 899433627 is the inverse of FNV_PRIME modulo 2 ^ 32.
unmul : (x : ℕ) → x < 2 ^ 32 → x * 0x01000193 % 2 ^ 32 * 899433627 % 2 ^ 32 ≡ x
unmul x h = omega arith

unstep : ℕ → ℕ → ℕ
unstep hash byte = bit_xor (hash * 899433627 % 2 ^ 32) byte

unstep-fnv_step :
    (hash byte : ℕ) → hash < 2 ^ 32 → byte < 256 → unstep (fnv_step hash byte) byte ≡ hash
unfolding unstep fnv_step
unstep-fnv_step hash byte h b =
    let mixed = bit_xor hash byte in
    let small : mixed < 2 ^ 32 = bit_xor-lt 32 hash byte h (omega arith) in
    ap (λ t. bit_xor t byte) (unmul mixed small) ∙ bit_xor_twice hash byte

fnv_step-lt : (hash byte : ℕ) → fnv_step hash byte < 2 ^ 32
unfolding fnv_step
fnv_step-lt hash byte = omega arith

pub fnv_from-lt : (hash : ℕ) (bytes : Bytes) → hash < 2 ^ 32 → fnv_from hash bytes < 2 ^ 32
unfolding fnv_from
fnv_from-lt hash [] h = h
fnv_from-lt hash (b ∷ bytes) h = fnv_from-lt (fnv_step hash b) bytes (fnv_step-lt hash b)

fnv_from-injective :
    (h k : ℕ) (bytes : Bytes)
    → h < 2 ^ 32
    → k < 2 ^ 32
    → IsBytes bytes
    → fnv_from h bytes ≡ fnv_from k bytes
    → h ≡ k
unfolding fnv_from
fnv_from-injective h k [] p q r e = e
fnv_from-injective h k (b ∷ bytes) p q r e =
    let same =
      fnv_from-injective (fnv_step h b) (fnv_step k b) bytes (fnv_step-lt h b) (fnv_step-lt k b) r.1
        e in
    sym (unstep-fnv_step h b p r.0) ∙ ap (λ t. unstep t b) same ∙ unstep-fnv_step k b q r.0

fnv_step-injective_byte :
    (hash a b : ℕ) → hash < 2 ^ 32 → a < 256 → b < 256 → fnv_step hash a ≡ fnv_step hash b → a ≡ b
unfolding fnv_step
fnv_step-injective_byte hash a b h p q e =
    let left : bit_xor hash a < 2 ^ 32 = bit_xor-lt 32 hash a h (omega arith) in
    let right : bit_xor hash b < 2 ^ 32 = bit_xor-lt 32 hash b h (omega arith) in
    let mixed : bit_xor hash a ≡ bit_xor hash b =
      sym (unmul (bit_xor hash a) left)
      ∙ ap (λ t. t * 899433627 % 2 ^ 32) e
      ∙ unmul (bit_xor hash b) right in
    sym (bit_xor_twice a hash)
    ∙ ap (λ t. bit_xor t hash) (bit_xor_comm a hash ∙ mixed ∙ bit_xor_comm hash b)
    ∙ bit_xor_twice b hash

fnv_from-append : (h : ℕ) (xs ys : Bytes) → fnv_from h (xs ++ ys) ≡ fnv_from (fnv_from h xs) ys
unfolding fnv_from
fnv_from-append h [] ys = refl
fnv_from-append h (x ∷ xs) ys = fnv_from-append (fnv_step h x) xs ys

pub fnv1a_hash-injective_byte :
    (xs ys : Bytes) (a b : ℕ)
    → IsBytes ys
    → a < 256
    → b < 256
    → fnv1a_hash (xs ++ a ∷ ys) ≡ fnv1a_hash (xs ++ b ∷ ys)
    → a ≡ b
unfolding fnv1a_hash fnv_from
fnv1a_hash-injective_byte xs ys a b bytes p q e =
    let h = fnv_from 0x811C9DC5 xs in
    let h-lt : h < 2 ^ 32 = fnv_from-lt 0x811C9DC5 xs (omega arith) in
    let run : fnv_from (fnv_step h a) ys ≡ fnv_from (fnv_step h b) ys =
      sym (fnv_from-append 0x811C9DC5 xs (a ∷ ys)) ∙ e ∙ fnv_from-append 0x811C9DC5 xs (b ∷ ys) in
    fnv_step-injective_byte h a b h-lt p q (
      fnv_from-injective (fnv_step h a) (fnv_step h b) ys (fnv_step-lt h a) (fnv_step-lt h b) bytes
        run)

-- Two texts that differ in one byte, and are equal before and after it, have different hashes.
pub fnv1a_hash-one_byte :
    (xs ys : Bytes) (a b : ℕ)
    → IsBytes ys
    → a < 256
    → b < 256
    → a ≢ b
    → fnv1a_hash (xs ++ a ∷ ys) ≢ fnv1a_hash (xs ++ b ∷ ys)
fnv1a_hash-one_byte xs ys a b bytes p q differ e =
    differ (fnv1a_hash-injective_byte xs ys a b bytes p q e)
