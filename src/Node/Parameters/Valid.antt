-- ===== src/Node/Parameters/Valid.antt =====
-- What holds of the parameters from the end of `init` on.
use ros2sonic.Prelude.{ℕ, ◌^◌, ◌<◌, ◌≡◌, true, false, All, length}
use ros2sonic.Text.{c_str, is_empty}
use ros2sonic.Floats.{Floats}
use ros2sonic.Node.Table.{Entry}
use ros2sonic.Node.Parameters.{Network, Parameters, systems, daqs}

-- A command has four letters, and an integer is a 32-bit pattern.
abbrev pub HasLetters {ℓ} : {A : Type ℓ} → Entry A → Type 0
HasLetters e = length (c_str e.name) ≡ 4

abbrev pub IsIntEntry : Entry ℕ → Type 0
IsIntEntry e = HasLetters e × (e.value < 2 ^ 32)

-- The arrays have their lengths.
pub record HasArrays (net : Network) : Type 0 where
  pub head_ips_full : length net.head_ips ≡ systems
  pub head_baseports_full : length net.head_baseports ≡ systems
  pub simbox_ips_full : length net.simbox_ips ≡ systems
  pub simbox_baseports_full : length net.simbox_baseports ≡ systems
  pub daq_ips_full : length net.daq_ips ≡ daqs
  pub daq_baseports_full : length net.daq_baseports ≡ daqs

-- The selected system is in the arrays, every command can be sent, and the control mode is on only
-- with both serial numbers.
pub record IsValid {fl : Floats} (params : Parameters fl) : Type 0 where
  pub selected : params.sonar.system_index < systems
  pub arrays : HasArrays params.network
  pub sim_ints : All IsIntEntry params.sim_commands.int_params
  pub sim_ips : All HasLetters params.sim_commands.ip_str_params
  pub head_floats : All HasLetters params.head_commands.float_params
  pub head_ints : All IsIntEntry params.head_commands.int_params
  pub armed :
      params.driver.control_mode ≡ true
      → (is_empty params.sonar.head_serial ≡ false) × (is_empty params.sonar.sim_serial ≡ false)
