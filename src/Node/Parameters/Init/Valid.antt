-- ===== src/Node/Parameters/Init/Valid.antt =====
-- What init leaves, whatever the launch gives.
use ros2sonic.Prelude.{
  ℕ, ◌^◌, ◌<◌, ◌≡◌, refl, Bool, true, false, ◌&&◌, ◌||◌, some, [], ◌∷◌, All, Bool-cases, inl, inr,
  arith,
}
use ros2sonic.Outcome.{Safely, Safely-bind, Ends, Ends-bind}
use ros2sonic.Memory.{Bytes}
use ros2sonic.Text.{text, is_empty}
use ros2sonic.Floats.{Floats}
use ros2sonic.Node.Table.{Entry, Table}
use ros2sonic.Node.Ros.{Ros}
use ros2sonic.Node.Parameters.{
  Sonar, Topics, SimCmds, HeadCmds, Parameters, systems, get_head_ip, get_head_baseport, get_sim_ip,
  get_sim_baseport,
}
use ros2sonic.Node.Parameters.Valid.{HasLetters, IsIntEntry, HasArrays, IsValid}
use ros2sonic.Node.Parameters.Init.{
  int64_of_int, int_of_int64, validate, setup_string, setup_int, setup_float, init_topics,
  init_sonar, init_sim_cmds, init_head_cmds, log_selected, init,
}
use ros2sonic.Node.Parameters.Init.Setup.{
  or_fault-Safely, setup_string-Ends, setup_int-Safely, setup_int-narrow, setup_bool-Ends,
  setup_float-Ends, setup_ip-Ends, setup_table-Safely,
}
use ros2sonic.Node.Parameters.Init.Arrays.{init_network-Safely}

-- The commands have four letters, which no parameter changes.
pub record HasCommands {fl : Floats} (params : Parameters fl) : Type 0 where
  pub sim_ints : All HasLetters params.sim_commands.int_params
  pub sim_ips : All HasLetters params.sim_commands.ip_str_params
  pub head_floats : All HasLetters params.head_commands.float_params
  pub head_ints : All HasLetters params.head_commands.int_params

module _ {fl : Floats} (ros : Ros fl) where
  -- The launch gives no system_index but the index of a system.
  abbrev pub SelectsSystem : Parameters fl → Type 0
  SelectsSystem params =
      (v : ros.Value) (n : ℕ)
      → ros.declared (text "sonar.system_index")
          (ros.of_int (int64_of_int params.sonar.system_index))
        ≡ some v
      → ros.as_int v ≡ some n
      → int_of_int64 n < systems

  init_topics-Ends : (topics : Topics) → Ends (init_topics ros topics)
  unfolding init_topics
  init_topics-Ends topics = Ends-bind _ _ _ (setup_string-Ends ros _ topics.detections) (λ a.
      Ends-bind _ _ _ (setup_string-Ends ros _ topics.bth0) (λ b.
        Ends-bind _ _ _ (setup_string-Ends ros _ topics.aid0)
          (λ c. Ends-bind _ _ _ (setup_string-Ends ros _ topics.acoustic_image) (λ d. tt))))

  init_sonar-Safely :
      (params : Parameters fl)
      → SelectsSystem params
      → Safely (λ (s : Sonar). s.system_index < systems) (init_sonar ros params.sonar)
  unfolding init_sonar
  init_sonar-Safely params selects =
      let sonar = params.sonar in
      Safely-bind (λ i. i < systems) _
        (setup_int ros (text "sonar.system_index") sonar.system_index) _
        (setup_int-Safely ros (λ i. i < systems) (text "sonar.system_index") sonar.system_index
          selects)
        (λ i below. Ends-bind _ _ _ (setup_string-Ends ros _ sonar.head_serial) (λ a.
          Ends-bind _ _ _ (setup_string-Ends ros _ sonar.sim_serial) (λ b.
            Ends-bind _ _ _ (setup_ip-Ends ros _ sonar.interface_ip) (λ c.
              Ends-bind _ _ _ (setup_string-Ends ros _ sonar.tx_frame_id)
                (λ d. Ends-bind _ _ _ (setup_string-Ends ros _ sonar.rx_frame_id) (λ e. below))))))

  -- The tables of commands that can be sent.
  abbrev GoodSim : SimCmds → Type 0
  GoodSim cmds = All IsIntEntry cmds.int_params × All HasLetters cmds.ip_str_params

  abbrev GoodHead : HeadCmds fl → Type 0
  GoodHead cmds = All HasLetters cmds.float_params × All IsIntEntry cmds.int_params

  letters_only {ℓ} :
      {A : Type ℓ} (t : Table A)
      → All (λ (e : Entry A). HasLetters e × Unit {0}) t
      → All HasLetters t
  letters_only [] h = tt
  letters_only (e ∷ t) h = (h.0.0, letters_only t h.1)

  init_sim_cmds-Safely :
      (cmds : SimCmds)
      → All HasLetters cmds.int_params
      → All HasLetters cmds.ip_str_params
      → Safely GoodSim (init_sim_cmds ros cmds)
  unfolding init_sim_cmds
  init_sim_cmds-Safely cmds ints ips =
      Safely-bind (All IsIntEntry) GoodSim _ _
        (setup_table-Safely ros (λ n. n < 2 ^ 32) (setup_int ros) (text "sim_commands.")
          cmds.int_params (λ topic a. setup_int-narrow ros topic a) ints)
        (λ t h.
          Safely-bind (All (λ (e : Entry Bytes). HasLetters e × Unit {0})) GoodSim _ _
            (setup_table-Safely ros (λ s. Unit) (setup_string ros) (text "sim_commands.")
              cmds.ip_str_params (λ topic a. setup_string-Ends ros topic a) ips)
            (λ t' h'. (h, letters_only t' h')))

  init_head_cmds-Safely :
      (cmds : HeadCmds fl)
      → All HasLetters cmds.float_params
      → All HasLetters cmds.int_params
      → Safely GoodHead (init_head_cmds ros cmds)
  unfolding init_head_cmds
  init_head_cmds-Safely cmds floats ints =
      Safely-bind (All (λ (e : Entry fl.F32). HasLetters e × Unit {0})) GoodHead _ _
        (setup_table-Safely ros (λ x. Unit) (setup_float ros) (text "head_commands.")
          cmds.float_params (λ topic a. setup_float-Ends ros topic a) floats)
        (λ t h.
          Safely-bind (All IsIntEntry) GoodHead _ _
            (setup_table-Safely ros (λ n. n < 2 ^ 32) (setup_int ros) (text "head_commands.")
              cmds.int_params (λ topic a. setup_int-narrow ros topic a) ints)
            (λ t' h'. (letters_only t h, h')))

  log_selected-Ends :
      (params : Parameters fl)
      → params.sonar.system_index < systems
      → HasArrays params.network
      → Ends (log_selected ros params)
  unfolding log_selected get_head_ip get_head_baseport get_sim_ip get_sim_baseport
  log_selected-Ends params below full =
      let i = params.sonar.system_index in
      Ends-bind _ _ _
        (or_fault-Safely params.network.head_ips i (omega (arith, full.head_ips_full)))
        (λ a.
          Ends-bind _ _ _
            (or_fault-Safely params.network.head_baseports i
              (omega (arith, full.head_baseports_full)))
            (λ b.
              Ends-bind _ _ _
                (or_fault-Safely params.network.simbox_ips i (omega (arith, full.simbox_ips_full)))
                (λ c.
                  Ends-bind _ _ _
                    (or_fault-Safely params.network.simbox_baseports i
                      (omega (arith, full.simbox_baseports_full)))
                    (λ d. tt))))

  -- The control mode is on Ends-bind the test only with both serial numbers.
  unarmed :
      (control : Bool) (head sim : Bytes)
      → (control && (is_empty head || is_empty sim)) ≡ false
      → control ≡ true
      → (is_empty head ≡ false) × (is_empty sim ≡ false)
  unarmed false head sim h on = cc
  unarmed true [] sim h on = cc
  unarmed true (a ∷ head) [] h on = cc
  unarmed true (a ∷ head) (b ∷ sim) h on = (refl, refl)

  validate-IsValid :
      (params : Parameters fl)
      → params.sonar.system_index < systems
      → HasArrays params.network
      → GoodSim params.sim_commands
      → GoodHead params.head_commands
      → IsValid (validate params)
  unfolding validate
  validate-IsValid params below full sim head =
      elim (Bool-cases (
        params.driver.control_mode
        && (is_empty params.sonar.head_serial || is_empty params.sonar.sim_serial))) [
          | inl off ↦ rw off (record {
            selected = below;
            arrays = full;
            sim_ints = sim.0;
            sim_ips = sim.1;
            head_floats = head.0;
            head_ints = head.1;
            armed = λ on. cc;
          })
          | inr fine ↦ rw fine (record {
            selected = below;
            arrays = full;
            sim_ints = sim.0;
            sim_ips = sim.1;
            head_floats = head.0;
            head_ints = head.1;
            armed = λ on.
                unarmed params.driver.control_mode params.sonar.head_serial params.sonar.sim_serial
                  fine on;
          })
        ]

  -- Started with full arrays and commands of four letters, init has no undefined behaviour if the
  -- launch gives no system_index out of range, and where it returns, the parameters are valid: the
  -- selected system is there, every command can be sent, and the control mode is on only with both
  -- serial numbers.
  pub init-IsValid :
      (params : Parameters fl)
      → HasArrays params.network
      → HasCommands params
      → SelectsSystem params
      → Safely IsValid (init ros params)
  unfolding init
  init-IsValid params full commands selects =
      Ends-bind IsValid _ _ (init_topics-Ends params.topics) (λ topics.
        Ends-bind IsValid _ _ (setup_bool-Ends ros _ params.driver.control_mode) (λ mode.
          Safely-bind (λ (s : Sonar). s.system_index < systems) IsValid _ _
            (init_sonar-Safely params selects)
            (λ sonar below.
              Safely-bind HasArrays IsValid _ _ (init_network-Safely ros params.network full)
                (λ net full'.
                  Safely-bind GoodSim IsValid _ _
                    (init_sim_cmds-Safely params.sim_commands commands.sim_ints commands.sim_ips)
                    (λ sim goodsim.
                      Safely-bind GoodHead IsValid _ _
                        (init_head_cmds-Safely params.head_commands commands.head_floats
                          commands.head_ints)
                        (λ head goodhead.
                          Ends-bind IsValid _ _ (log_selected-Ends _ below full')
                            (λ u. validate-IsValid _ below full' goodsim goodhead)))))))
