-- ===== src/Scheduler/Heartbeat.antt =====
-- src/scheduler.rs, the heartbeat: how many of a worker's spawns become tasks.
use native.Mathlib.Nat.{add-div_left, div-eq_of_lt}
use ws_deque.Base.{
  ℕ, zero, suc, ◌+◌, ◌/◌, ◌<◌, ◌≡◌, refl, ◌∙◌, ap, Bool-cases, inl, inr, if◌then◌else◌, leb, arith,
}
use ws_deque.Scheduler.{should_promote}

-- The promotions among `m` decisions, from a heartbeat on.
unfoldable pub promotions : ℕ → ℕ → ℕ → ℕ
promotions heartbeat_interval heartbeat zero = 0
promotions heartbeat_interval heartbeat (suc m) =
    let (promote, heartbeat') = should_promote heartbeat_interval heartbeat in
    let rest = promotions heartbeat_interval heartbeat' m in if promote then rest + 1 else rest

promotions-from :
    (heartbeat_interval heartbeat m : ℕ)
    → heartbeat < heartbeat_interval
    → promotions heartbeat_interval heartbeat m ≡ (heartbeat + m) / heartbeat_interval
unfolding promotions should_promote
promotions-from n h zero lt = let e : h + 0 ≡ h = omega arith in rw (e, div-eq_of_lt lt) refl
promotions-from n h (suc m) lt = elim (Bool-cases (leb n (h + 1))) [
  | inl t ↦
      let full : h + suc m ≡ n + m = ground arith in
      let start : 0 + m ≡ m = omega arith in
      let d : (n + m) / n ≡ m / n + 1 = add-div_left m (omega arith) in
      rw (t, full, d, promotions-from n 0 m (omega arith), start) refl
  | inr t ↦
      let next : h + suc m ≡ h + 1 + m = omega arith in
      rw (t, next, promotions-from n (h + 1) m (ground arith)) refl
]

-- Of `m` decisions of a worker, one in every `heartbeat_interval` is a promotion.
promotions-div :
    (heartbeat_interval m : ℕ)
    → 0 < heartbeat_interval
    → promotions heartbeat_interval 0 m ≡ m / heartbeat_interval
promotions-div n m pos =
    let e : 0 + m ≡ m = omega arith in promotions-from n 0 m pos ∙ ap (λ k. k / n) e
