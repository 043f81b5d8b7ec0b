-- ===== src/Node/Receiver/Bind.antt =====
-- The loop that binds the port comes to its end.
use ros2sonic.Prelude.{
  ℕ, zero, suc, ◌+◌, ◌/◌, ◌%◌, ◌^◌, ◌<◌, ◌≡◌, sym, ◌∙◌, ◌≢◌, lt→ltb, ==_iff, Bool, true, false, not,
  ◌||◌, List, [], ◌∷◌, length, length-append, ◌==◌, Bool-cases, inl, inr, arith,
}
use ros2sonic.Outcome.{ok}
use ros2sonic.Node.Receiver.{Environment, warn, try_bind, receive}

-- The attempts with a warning among the first n: every tenth, from the first on.
abbrev pub warned : ℕ → List ℕ
warned zero = []
warned (suc n) = warn (suc n) (warned n)

not_one : (m : ℕ) → (m == 1) ≡ false → m ≢ 1
not_one m h e = ground arith

length-warned : (n : ℕ) → length (warned n) ≡ (n + 9) / 10
length-warned zero = omega arith
length-warned (suc n) = elim (Bool-cases (suc n % 10 == 1)) [
  | inl due ↦ rw due (
      length-append (warned n) (suc n ∷ [])
      ∙ omega (arith, length-warned n, (==_iff (suc n % 10) 1).0 due))
  | inr quiet ↦ rw quiet (omega (arith, length-warned n, not_one (suc n % 10) quiet))
]

-- The turn at which the program shuts down or the port is bound, and none before it.
pub record EndsAt (env : Environment) (n : ℕ) : Type 0 where
  pub ends : (not (env.is_up n) || env.binds n) ≡ true
  pub goes_on : (i : ℕ) → i < n → (env.is_up i ≡ true) × (env.binds i ≡ false)

bound_when : (up bound : Bool) → (not up || bound) ≡ true → up ≡ true → bound ≡ true
bound_when true bound h up = h
bound_when false bound h up = cc

one_more : (n : ℕ) → n + 1 ≡ suc n
one_more n = omega arith

stops :
    (env : Environment) (n fuel : ℕ) (log : List ℕ)
    → (not (env.is_up n) || env.binds n) ≡ true
    → try_bind env (suc fuel) (record { retry_count = n; warnings = log })
      ≡ ok (record { retry_count = n; warnings = log })
unfolding try_bind
stops env n fuel log h = elim (Bool-cases (env.is_up n)) [
  | inl up ↦ rw (up, bound_when (env.is_up n) (env.binds n) h up)
  | inr down ↦ rw down
]

try_bind-eq :
    (env : Environment) (n left fuel last : ℕ)
    → n + left ≡ last
    → EndsAt env last
    → last < 2 ^ 31
    → left < fuel
    → try_bind env fuel (record { retry_count = n; warnings = warned n })
      ≡ ok (record { retry_count = last; warnings = warned last })
unfolding try_bind
try_bind-eq env n left zero last e h small enough = absurd (omega arith)
try_bind-eq env n zero (suc fuel) last e h small enough =
    let here : last ≡ n = omega arith in
    rw here (stops env n fuel (warned n) (rw (sym here) h.ends))
try_bind-eq env n (suc left) (suc fuel) last e h small enough =
    let (up, refused) = h.goes_on n (omega arith) in
    rw (up, refused, lt→ltb (n + 1) (2 ^ 31) (omega arith), one_more n)
      (try_bind-eq env (suc n) left fuel last (omega arith) h small (omega arith))

-- If at some turn the port can be bound or the program shuts down, the first such turn ends the
-- loop, whatever the earlier attempts were, given fuel for one turn more and a count below 2^31.
-- The log has a warning for the first failed attempt and every tenth after it, which are a tenth
-- of the failed attempts, rounded up. The receiver then goes on exactly if the program is not shut
-- down when it is asked again.
pub receive-eq :
    (env : Environment) (n fuel : ℕ)
    → EndsAt env n
    → n < 2 ^ 31
    → n < fuel
    → (receive env fuel ≡ ok (record { retry_count = n; warnings = warned n }, env.is_up (n + 1)))
      × (length (warned n) ≡ (n + 9) / 10)
unfolding receive
receive-eq env n fuel h small enough =
    (rw (try_bind-eq env 0 n fuel n (omega arith) h small enough), length-warned n)
