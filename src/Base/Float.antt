-- ===== src/Base/Float.antt =====
-- Amounts of money are `f64` in the program. There are no floats here: the types and the
-- operations that the code uses are a parameter. No law is part of it; a theorem that needs one
-- names it.
use Prim.Native.Nat.{ℕ}
use Prim.Native.String.{String}
use mathlib.Core.Bool.{Bool}
use frontkeep.Base.Json.{Json}

pub record Float : Type 1 where
  pub F64 : Type 0
  -- only carried along, as a sampling temperature
  pub F32 : Type 0
  pub zero : F64
  -- `n as f64`
  pub of_nat : ℕ → F64
  -- a literal with one decimal
  pub tenths : ℕ → F64
  pub add : F64 → F64 → F64
  pub sub : F64 → F64 → F64
  pub mul : F64 → F64 → F64
  pub div : F64 → F64 → F64
  pub lt : F64 → F64 → Bool
  pub le : F64 → F64 → Bool
  -- `format!("{:.4}")` and `format!("{:.2}")`
  pub text4 : F64 → String
  pub text2 : F64 → String
  -- `serde_json::Value::from`
  pub json : F64 → Json
