-- ===== src/Node/Parameters/Update.antt =====
-- R2SonicNode::onParameterUpdate of r2sonic/src/r2sonic_node.cpp.
pub mod Spec
pub mod Correct
pub mod Batch
pub mod Preserve
use ros2sonic.Prelude.{
  ℕ, Bool, true, false, Option, none, some, List, [], ◌∷◌, ◌++◌, length, drop, if◌then◌else◌,
}
use ros2sonic.Outcome.{Outcome, ok, throw, fault, hang, or_throw, catch, parameter_type, ◌>>=◌}
use ros2sonic.Memory.{Bytes}
use ros2sonic.Text.{text, starts_with}
use ros2sonic.Inet.{Inet, ip_str_to_u32}
use ros2sonic.Floats.{Floats}
use ros2sonic.Node.Table.{Entry, Table, find_entry, set_value}
use ros2sonic.Node.Ros.{Ros}
use ros2sonic.Node.Parameters.{SimCmds, HeadCmds, Parameters}
use ros2sonic.Node.Parameters.Init.{int_of_int64}

-- rcl_interfaces::msg::SetParametersResult
pub record SetResult : Type 0 where
  pub successful : Bool
  pub reason : Bytes

abbrev pub success : SetResult
success = record { successful = true; reason = text "Success" }

abbrev pub failed : Bytes → SetResult
failed why = record { successful = false; reason = why }

-- The writes to the tables.
module _ {fl : Floats} (params : Parameters fl) (key : Bytes) where
  abbrev pub with_sim_int : ℕ → Parameters fl
  with_sim_int v = record params {
    sim_commands = record (params.sim_commands) {
      int_params = set_value key v params.sim_commands.int_params;
    };
  }

  abbrev pub with_sim_ip : Bytes → Parameters fl
  with_sim_ip v = record params {
    sim_commands = record (params.sim_commands) {
      ip_str_params = set_value key v params.sim_commands.ip_str_params;
    };
  }

  abbrev pub with_head_float : fl.F32 → Parameters fl
  with_head_float v = record params {
    head_commands = record (params.head_commands) {
      float_params = set_value key v params.head_commands.float_params;
    };
  }

  abbrev pub with_head_int : ℕ → Parameters fl
  with_head_int v = record params {
    head_commands = record (params.head_commands) {
      int_params = set_value key v params.head_commands.int_params;
    };
  }

module _ {fl : Floats} (ros : Ros fl) (inet : Inet) where
  open fl use {float_of_double}

  -- rclcpp::Parameter: a name and a value.
  pub record Parameter : Type 0 where
    pub name : Bytes
    pub value : ros.Value

  abbrev pub State : Type 0
  State = Parameters fl × SetResult

  -- An IP string: it is kept if ip_str_to_u32 reads it. The inner `catch` takes what it raises.
  unfoldable pub update_sim_ip : Bytes → ros.Value → State → Outcome State
  update_sim_ip key value (params, result) = do
    ip_candidate ← or_throw parameter_type (ros.as_string value)
    catch
        (do ip ← ip_str_to_u32 inet ip_candidate; ok (with_sim_ip params key ip_candidate, result))
        (λ e. ok (
          params,
          failed (text "Invalid IP for sim_commands." ++ (key ++ (text ": " ++ ros.what e))),
        ))

  unfoldable pub update_sim : Bytes → ros.Value → State → Outcome State
  update_sim key value (params, result) = elim (find_entry key params.sim_commands.int_params) [
    | some e ↦ do
      v ← or_throw parameter_type (ros.as_int value)
      ok (with_sim_int params key (int_of_int64 v), result)
    | none ↦ elim (find_entry key params.sim_commands.ip_str_params) [
      | some e ↦ update_sim_ip key value (params, result)
      | none ↦ ok (params, failed (text "Unknown parameter in sim_commands: " ++ key))
    ]
  ]

  unfoldable pub update_head : Bytes → ros.Value → State → Outcome State
  update_head key value (params, result) = elim (find_entry key params.head_commands.float_params) [
    | some e ↦ do
      x ← or_throw parameter_type (ros.as_double value)
      ok (with_head_float params key (float_of_double x), result)
    | none ↦ elim (find_entry key params.head_commands.int_params) [
      | some e ↦ do
        v ← or_throw parameter_type (ros.as_int value)
        ok (with_head_int params key (int_of_int64 v), result)
      | none ↦ ok (params, failed (text "Unknown parameter in head_commands: " ++ key))
    ]
  ]

  -- The body of the loop. No branch raises after a write, so the handler finds the old parameters.
  unfoldable pub update_one : Parameter → State → Outcome State
  update_one param (params, result) =
      catch
        (if starts_with (text "sim_commands.") param.name
          then update_sim (drop (length (text "sim_commands.")) param.name) param.value
              (params, result)
          else if starts_with (text "head_commands.") param.name
          then update_head (drop (length (text "head_commands.")) param.name) param.value
              (params, result)
          else ok (params, failed (text "Unknown parameter: " ++ param.name)))
        (λ e. ok (params, failed (text "Failed to update parameter: " ++ ros.what e)))

  unfoldable pub update_all : List Parameter → State → Outcome State
  update_all [] state = ok state
  update_all (param ∷ rest) state = do state' ← update_one param state; update_all rest state'

  -- The result, and the parameters after the call.
  unfoldable pub on_parameter_update : List Parameter → Parameters fl → Outcome State
  on_parameter_update ps params = update_all ps (params, success)
