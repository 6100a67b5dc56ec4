-- ===== src/Deque/Inner.antt =====
-- src/lib.rs, `Inner`: the state shared by the owner and the thieves. The list of retired buffers is
-- a list of buffers, its newest first.
use ws_deque.Base.{
  ℕ, zero, suc, ◌+◌, ◌^◌, none, some, List, [], ◌∷◌, if◌then◌else◌, ◌==◌, wrapping_add,
  wrapping_sub, max_zero,
}
use ws_deque.Deque.Buffer
use ws_deque.Deque.Buffer.{Buffer, read}

pub record Inner {ℓ} (A : Type ℓ) : Type ℓ where
  pub bottom : ℕ
  pub top : ℕ
  pub buffer : Buffer A
  pub retired : List (Buffer A)
  pub in_flight : ℕ

module _ {ℓ} {A : Type ℓ} where
  -- `Inner::new`
  unfoldable pub create : ℕ → Inner A
  unfolding Buffer.alloc
  create log_initial_cap = record {
    bottom = 0;
    top = 0;
    buffer = Buffer.alloc (2 ^ log_initial_cap);
    retired = [];
    in_flight = 0;
  }

  -- Retired buffers are freed only if no thief is in its critical section.
  unfoldable pub try_reclaim : Inner A → Inner A
  try_reclaim inner = if inner.in_flight == 0 then record inner { retired = [] } else inner

  unfoldable pub retire : Inner A → Buffer A → Inner A
  retire inner old = record inner { retired = old ∷ inner.retired }

  -- The boxes that `drop` frees in rounds `k, k + 1, …`, `n` of them; a null cell is skipped.
  unfoldable pub drop_cells : ℕ → ℕ → ℕ → Buffer A → List A
  drop_cells zero k top buf = []
  drop_cells (suc n) k top buf =
      let rest = drop_cells n (k + 1) top buf in
      elim (read buf (wrapping_add top k)) [ none ↦ rest | some x ↦ x ∷ rest ]

  -- `Drop for Inner`: the elements freed, in order. The buffers themselves are freed with the state.
  unfoldable pub drop_inner : Inner A → List A
  unfolding drop_cells
  drop_inner inner =
      drop_cells (max_zero (wrapping_sub inner.bottom inner.top)) 0 inner.top inner.buffer
