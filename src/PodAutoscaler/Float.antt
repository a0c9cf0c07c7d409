-- ===== src/PodAutoscaler/Float.antt =====
-- The `f64` operations that the autoscaler uses. They are the processor's, so a parameter.
use r_mini_k8s.Prelude.{ℕ, ◌<◌, Bool, I64, u32_mod}

pub record Float64 : Type 1 where
  pub F : Type 0
  -- `as f64` of a `u32`, `u64` or `usize`, and of an `i64`
  pub of_nat : ℕ → F
  pub of_i64 : I64 → F
  pub add : F → F → F
  pub sub : F → F → F
  pub mul : F → F → F
  pub div : F → F → F
  pub lt : F → F → Bool
  -- `.ceil() as u32`, which saturates
  pub ceil_u32 : F → ℕ
  pub ceil_u32_lt : (x : F) → ceil_u32 x < u32_mod
