-- ===== src/Node/Run/Safe.antt =====
-- What holds of the node's thread from the end of the constructor on, in every order of the timer
-- and of the updates.
use mathlib.Core.Path.{subst}
use ros2sonic.Prelude.{◌≡◌, refl, sym, ap, ◌∙◌, List, [], ◌∷◌, All, get_or}
use ros2sonic.Outcome.{Outcome, ok, throw, fault, hang, Safely, Ends}
use ros2sonic.Memory.{Bytes}
use ros2sonic.Inet.{Inet}
use ros2sonic.Floats.{Floats}
use ros2sonic.Node.Ros.{Ros}
use ros2sonic.Node.Parameters.{Parameters, Network, Sonar}
use ros2sonic.Node.Parameters.Valid.{IsValid}
use ros2sonic.Node.Parameters.Init.{init}
use ros2sonic.Node.Parameters.Init.Ready.{network-HasArrays, parameters-HasCommands}
use ros2sonic.Node.Parameters.Defaults.{parameters}
use ros2sonic.Node.Parameters.Init.Valid.{SelectsSystem, init-IsValid}
use ros2sonic.Node.Parameters.Update.{Parameter, SetResult, on_parameter_update}
use ros2sonic.Node.Parameters.Update.Spec.{
  Write, sim_int, sim_ip, head_float, head_int, apply, apply_all, accepted,
}
use ros2sonic.Node.Parameters.Update.Batch.{on_parameter_update-eq}
use ros2sonic.Node.Parameters.Update.Preserve.{on_parameter_update-IsValid}
use ros2sonic.Node.Commands.{Sockets, send_cmds}
use ros2sonic.Node.Commands.Packets.{PortFits, sim_baseport, head_baseport}
use ros2sonic.Node.Run.{Driving, Step, tick, set_parameters, Reach, here, next}
use ros2sonic.Node.Run.Expected.{IsExpected, send_cmds-Safely}

-- The base ports of the selected system leave room for the two that are added.
abbrev pub PortsFit : {fl : Floats} → Parameters fl → Type 0
PortsFit params = PortFits (sim_baseport params) × PortFits (head_baseport params)

-- A write leaves the network and the sonar's settings.
apply_all-fixed :
    {fl : Floats} (ws : List (Write fl)) (params : Parameters fl)
    → ((apply_all ws params).network ≡ params.network)
      × ((apply_all ws params).sonar ≡ params.sonar)
apply_all-fixed [] params = (refl, refl)
apply_all-fixed (sim_int key v ∷ ws) params = apply_all-fixed ws (apply (sim_int key v) params)
apply_all-fixed (sim_ip key v ∷ ws) params = apply_all-fixed ws (apply (sim_ip key v) params)
apply_all-fixed (head_float key v ∷ ws) params =
    apply_all-fixed ws (apply (head_float key v) params)
apply_all-fixed (head_int key v ∷ ws) params = apply_all-fixed ws (apply (head_int key v) params)

-- What is known of an outcome that is `ok`.
of_ok {ℓ} : {A : Type ℓ} (P : A → Type 0) {m : Outcome A} {a : A} → m ≡ ok a → Safely P m → P a
of_ok P e h = subst (Safely P) e h

Ends-Safely {ℓ} : {A : Type ℓ} (P : A → Type 0) (m : Outcome A) → Safely P m → Ends m
Ends-Safely P (ok a) h = tt
Ends-Safely P (throw e) h = tt
Ends-Safely P fault h = h
Ends-Safely P hang h = h

moved :
    (P : Network → Sonar → Type 0) {net net' : Network} {sonar sonar' : Sonar}
    → net ≡ net'
    → sonar ≡ sonar'
    → P net sonar
    → P net' sonar'
moved P {net} {net'} {sonar} {sonar'} e e' p = subst (λ s. P net' s) e' (subst (λ n. P n sonar) e p)

-- What holds of every state of the node's thread that starts with the parameters `start`.
pub record Keeps {fl : Floats} (start : Parameters fl) (s : Driving fl) : Type 0 where
  pub valid : IsValid s.params
  pub same_network : s.params.network ≡ start.network
  pub same_sonar : s.params.sonar ≡ start.sonar
  pub expected : All (IsExpected start.network start.sonar.system_index) s.sent

module _ {fl : Floats} (ros : Ros fl) (inet : Inet) (net : Sockets) (unset : Bytes)
    (start : Parameters fl) where
  -- The timer's function in such a state.
  tick-Safely :
      (s : Driving fl)
      → PortsFit start
      → Keeps start s
      → Safely
          (All (IsExpected start.network start.sonar.system_index))
          (send_cmds inet net s.params unset s.sent)
  tick-Safely s fits keeps =
      let ports =
        moved
          (λ n o.
            PortFits (get_or n.simbox_baseports o.system_index 0)
            × PortFits (get_or n.head_baseports o.system_index 0))
          (sym keeps.same_network) (sym keeps.same_sonar) fits in
      moved
        (λ n o.
          Safely (All (IsExpected n o.system_index)) (send_cmds inet net s.params unset s.sent))
        keeps.same_network keeps.same_sonar
        (send_cmds-Safely inet net s.params keeps.valid unset s.sent ports.0 ports.1 (
          moved (λ n o. All (IsExpected n o.system_index) s.sent) (sym keeps.same_network)
            (sym keeps.same_sonar) keeps.expected))

  updated :
      (s : Driving fl) (ps : List (Parameter ros inet)) {params' : Parameters fl}
      {result : SetResult}
      → on_parameter_update ros inet ps s.params ≡ ok (params', result)
      → Keeps start s
      → Keeps start (record s { params = params' })
  updated s ps {params'} e keeps =
      let (all_ok, written, _) = on_parameter_update-eq ros inet ps s.params in
      let (new, result', does, newvalid) =
        on_parameter_update-IsValid ros inet ps s.params keeps.valid in
      let same : new ≡ params' = cc in
      let same' : apply_all (accepted ros inet ps s.params) s.params ≡ params' = cc in
      let (net_fixed, sonar_fixed) = apply_all-fixed (accepted ros inet ps s.params) s.params in
      record {
        valid = subst IsValid same newvalid;
        same_network =
            ap (λ (p : Parameters fl). p.network) (sym same') ∙ net_fixed ∙ keeps.same_network;
        same_sonar =
            ap (λ (p : Parameters fl). p.sonar) (sym same') ∙ sonar_fixed ∙ keeps.same_sonar;
        expected = keeps.expected;
      }

  Step-Keeps :
      {s t : Driving fl}
      → PortsFit start
      → Step ros inet net unset s t
      → Keeps start s
      → Keeps start t
  Step-Keeps {s} fits (tick e) keeps = record {
    valid = keeps.valid;
    same_network = keeps.same_network;
    same_sonar = keeps.same_sonar;
    expected =
        of_ok (All (IsExpected start.network start.sonar.system_index)) e
          (tick-Safely s fits keeps);
  }
  Step-Keeps {s} fits (set_parameters ps e) keeps = updated s ps e keeps

  Reach-Keeps :
      {s t : Driving fl}
      → PortsFit start
      → Keeps start s
      → Reach ros inet net unset s t
      → Keeps start t
  Reach-Keeps fits keeps here = keeps
  Reach-Keeps fits keeps (next r st) = Step-Keeps fits st (Reach-Keeps fits keeps r)

-- Whatever values the launch gives, if it gives no system_index out of range, `init` returns and
-- the base ports of the selected system leave room for two more, then in every order of timer calls
-- and parameter updates: the parameters stay valid, with the network and the sonar's settings that
-- `init` has left; all that was sent goes to the devices' broadcast address at port 53810, or to
-- the selected simulator or the selected head two ports above its base port; and the timer's next
-- call ends, returning or raising, with no read outside an array and no overflow of an `int`. An
-- assignment to a big-endian field is taken to do what it writes down.
pub Reach-IsSafe :
    {fl : Floats} (ros : Ros fl) (inet : Inet) (net : Sockets) (unset : Bytes)
    (start : Parameters fl) {s : Driving fl}
    → SelectsSystem ros (parameters fl)
    → init ros (parameters fl) ≡ ok start
    → PortsFit start
    → Reach ros inet net unset (record { params = start; sent = [] }) s
    → Keeps start s × Ends (send_cmds inet net s.params unset s.sent)
unfolding parameters
Reach-IsSafe {fl} ros inet net unset start {s} selects launched fits run =
    let first : Keeps start (record { params = start; sent = [] }) = record {
      valid =
          of_ok IsValid launched (
            init-IsValid ros (parameters fl) network-HasArrays (parameters-HasCommands fl) selects);
      same_network = refl;
      same_sonar = refl;
      expected = tt;
    } in
    let keeps = Reach-Keeps ros inet net unset start fits first run in
    (
      keeps,
      Ends-Safely _ (send_cmds inet net s.params unset s.sent)
          (tick-Safely ros inet net unset start s fits keeps),
    )
