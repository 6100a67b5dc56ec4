-- ===== src/Deque/Steal.antt =====
-- src/lib.rs, `Steal`: the outcome of a steal attempt.
use ws_deque.Base.{Bool, true, false, Option, none, some}

pub data Steal {ℓ} (A : Type ℓ) : Type ℓ where
  empty : Steal A
  retry : Steal A
  success : A → Steal A

module _ {ℓ} {A : Type ℓ} where
  -- `Steal::success`
  unfoldable pub value : Steal A → Option A
  value (success v) = some v
  value _ = none

  unfoldable pub is_empty : Steal A → Bool
  is_empty empty = true
  is_empty _ = false

  unfoldable pub is_success : Steal A → Bool
  is_success (success _) = true
  is_success _ = false

  unfoldable pub is_retry : Steal A → Bool
  is_retry retry = true
  is_retry _ = false
