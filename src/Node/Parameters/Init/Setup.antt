-- ===== src/Node/Parameters/Init/Setup.antt =====
-- What the setup of one parameter or one table leaves, whatever the launch gives.
use ros2sonic.Prelude.{
  ℕ, zero, suc, ◌^◌, ◌<◌, ◌≡◌, refl, Bool, Option, none, some, List, [], ◌∷◌, ◌++◌, All, length,
  get_elem?, arith,
}
use ros2sonic.Outcome.{
  Outcome, Exception, or_fault, or_throw, parameter_type, Safely, Safely-bind, Ends,
}
use ros2sonic.Memory.{Bytes}
use ros2sonic.Floats.{Floats}
use ros2sonic.Node.Table.{Entry, Table}
use ros2sonic.Node.Ros.{Ros}
use ros2sonic.Node.Parameters.Valid.{HasLetters}
use ros2sonic.Node.Parameters.Init.{
  int64_of_int, int_of_int64, setup_string, setup_int, setup_bool, setup_float, setup_ip,
  setup_table,
}

or_throw-Safely {ℓ} :
    {A : Type ℓ} (P : A → Type 0) (e : Exception) (o : Option A)
    → ((a : A) → o ≡ some a → P a)
    → Safely P (or_throw e o)
or_throw-Safely P e none h = tt
or_throw-Safely P e (some a) h = h a refl

pub or_fault-Safely {ℓ} :
    {A : Type ℓ} (xs : List A) (i : ℕ) → i < length xs → Ends (or_fault (get_elem? xs i))
or_fault-Safely [] i h = absurd (omega arith)
or_fault-Safely (x ∷ xs) zero h = tt
or_fault-Safely (x ∷ xs) (suc i) h = or_fault-Safely xs i (omega arith)

module _ {fl : Floats} (ros : Ros fl) where
  pub setup_string-Ends : (topic initial : Bytes) → Ends (setup_string ros topic initial)
  unfolding setup_string
  setup_string-Ends topic initial =
      Safely-bind (λ v. Unit) _
        (or_throw parameter_type (ros.declared topic (ros.of_string initial))) _
        (or_throw-Safely _ _ _ (λ a h. tt)) (λ v p. or_throw-Safely _ _ _ (λ a h. tt))

  pub setup_int-Safely :
      (P : ℕ → Type 0) (topic : Bytes) (initial : ℕ)
      → ((v : ros.Value) (n : ℕ)
          → ros.declared topic (ros.of_int (int64_of_int initial)) ≡ some v
          → ros.as_int v ≡ some n
          → P (int_of_int64 n))
      → Safely P (setup_int ros topic initial)
  unfolding setup_int
  setup_int-Safely P topic initial h =
      let given = ros.declared topic (ros.of_int (int64_of_int initial)) in
      Safely-bind (λ v. given ≡ some v) P (or_throw parameter_type given) _
        (or_throw-Safely _ _ _ (λ v e. e))
        (λ v e.
          Safely-bind (λ n. ros.as_int v ≡ some n) P (or_throw parameter_type (ros.as_int v)) _
            (or_throw-Safely _ _ _ (λ n e'. e')) (λ n e'. h v n e e'))

  pub setup_int-narrow :
      (topic : Bytes) (initial : ℕ) → Safely (λ n. n < 2 ^ 32) (setup_int ros topic initial)
  setup_int-narrow topic initial =
      setup_int-Safely (λ n. n < 2 ^ 32) topic initial (λ v n e e'. omega arith)

  pub setup_int-Ends : (topic : Bytes) (initial : ℕ) → Ends (setup_int ros topic initial)
  setup_int-Ends topic initial = setup_int-Safely (λ n. Unit) topic initial (λ v n e e'. tt)

  pub setup_bool-Ends : (topic : Bytes) (initial : Bool) → Ends (setup_bool ros topic initial)
  unfolding setup_bool
  setup_bool-Ends topic initial =
      Safely-bind (λ v. Unit) _ (or_throw parameter_type (ros.declared topic (ros.of_bool initial)))
        _ (or_throw-Safely _ _ _ (λ a h. tt)) (λ v p. or_throw-Safely _ _ _ (λ a h. tt))

  pub setup_float-Ends : (topic : Bytes) (initial : fl.F32) → Ends (setup_float ros topic initial)
  unfolding setup_float
  setup_float-Ends topic initial =
      Safely-bind (λ v. Unit) _
        (or_throw parameter_type (ros.declared topic (ros.of_double (fl.double_of_float initial))))
        _ (or_throw-Safely _ _ _ (λ a h. tt))
        (λ v p.
          Safely-bind (λ x. Unit) _ (or_throw parameter_type (ros.as_double v)) _
            (or_throw-Safely _ _ _ (λ a h. tt)) (λ x q. tt))

  pub setup_ip-Ends : (topic initial : Bytes) → Ends (setup_ip ros topic initial)
  unfolding setup_ip
  setup_ip-Ends topic initial =
      Safely-bind (λ v. Unit) _ (setup_string ros topic initial) _ (setup_string-Ends topic initial)
        (λ ip p. tt)

  -- The names stay, and the values are those of the setup.
  pub setup_table-Safely {ℓ} :
      {A : Type ℓ} (P : A → Type 0) (setup : Bytes → A → Outcome A) (prefix : Bytes) (t : Table A)
      → ((topic : Bytes) (a : A) → Safely P (setup topic a))
      → All HasLetters t
      → Safely (All (λ (e : Entry A). HasLetters e × P e.value)) (setup_table ros setup prefix t)
  unfolding setup_table
  setup_table-Safely P setup prefix [] h letters = tt
  setup_table-Safely {A} P setup prefix (e ∷ t) h letters =
      Safely-bind P _ (setup (prefix ++ e.key) e.value) _ (h (prefix ++ e.key) e.value) (λ v p.
        Safely-bind (All (λ (e : Entry A). HasLetters e × P e.value)) _
          (setup_table ros setup prefix t) _ (setup_table-Safely P setup prefix t h letters.1)
          (λ rest q. ((letters.0, p), q)))
