-- ===== src/Node/Ros.antt =====
-- What the driver uses of rclcpp's parameters. A value holds a Boolean, a 64-bit integer (given by
-- its bit pattern), a double or a text; `as_int` and the others give nothing where rclcpp raises,
-- since the value is of another type. `declared topic initial` is what declare_parameter(topic,
-- initial) and then get_parameter(topic).get_parameter_value() give: the value that the launch
-- gives to the parameter, or `initial`; nothing where rclcpp raises.
use ros2sonic.Prelude.{ℕ, Bool, Option}
use ros2sonic.Outcome.{Exception}
use ros2sonic.Memory.{Bytes}
use ros2sonic.Floats.{Floats}

pub record Ros (fl : Floats) : Type 1 where
  pub Value : Type 0
  pub of_bool : Bool → Value
  pub of_int : ℕ → Value
  pub of_double : fl.F64 → Value
  pub of_string : Bytes → Value
  pub as_bool : Value → Option Bool
  pub as_int : Value → Option ℕ
  pub as_double : Value → Option fl.F64
  pub as_string : Value → Option Bytes
  pub declared : Bytes → Value → Option Value
  -- The text of an exception.
  pub what : Exception → Bytes
