-- ===== src/Floats.antt =====
-- The floating-point arithmetic of the host, which the driver uses and does not implement.
-- `of_bits` is a float read from its 32-bit pattern, `of_ℕ` an integer converted to float.
-- Nothing is assumed of the operations: the theorems say which are made and on what.
use ros2sonic.Prelude.{ℕ}

pub record Floats : Type 1 where
  pub F32 : Type 0
  pub F64 : Type 0
  pub of_bits : ℕ → F32
  pub to_bits : F32 → ℕ
  pub of_ℕ : ℕ → F32
  pub add : F32 → F32 → F32
  pub sub : F32 → F32 → F32
  pub mul : F32 → F32 → F32
  pub div : F32 → F32 → F32
  pub double_of_ℕ : ℕ → F64
  pub double_of_float : F32 → F64
  pub double_mul : F64 → F64 → F64
  pub double_div : F64 → F64 → F64
  pub float_of_double : F64 → F32
