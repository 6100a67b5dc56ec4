-- ===== src/Deque/Pow.antt =====
-- Capacities: powers of two up to `2 ^ 62`, doubled by growing and halved by shrinking.
use native.Mathlib.Nat.{add-zero, pow-suc, pow-le-pow_right, one-le-pow}
use native.Mathlib.Decide.{dec_le}
use ws_deque.Base.{
  ℕ, zero, suc, ◌+◌, ◌-◌, ◌*◌, ◌/◌, ◌^◌, ◌≤◌, ◌<◌, ◌∣◌, ◌≡◌, sym, ◌∙◌, ap, arith, word,
}

abbrev pub IsCapacity : ℕ → Type 0
IsCapacity c = (k : ℕ) × (c ≡ 2 ^ k) × (k ≤ 62)

pub pow2-add : (k m : ℕ) → 2 ^ (k + m) ≡ 2 ^ k * 2 ^ m
pow2-add k zero = rw add-zero (omega arith)
pow2-add k (suc m) =
    let e : k + suc m ≡ suc (k + m) = omega arith in
    rw (e, pow-suc, pow-suc) (omega (arith, ap (λ (t : ℕ). t * 2) (pow2-add k m)))

pub IsCapacity-dvd : {c : ℕ} → IsCapacity c → c ∣ word
IsCapacity-dvd {c} (k, e, h) = ∣ (
  2 ^ (64 - k),
  ap (λ n. 2 ^ n) split ∙ pow2-add k (64 - k) ∙ ap (λ n. n * 2 ^ (64 - k)) (sym e),
) ∣₁
  where
    split : 64 ≡ k + (64 - k)
    split = omega arith

pub IsCapacity-pos : {c : ℕ} → IsCapacity c → 0 < c
IsCapacity-pos (k, e, h) = omega (arith, one-le-pow k 2)

pub IsCapacity-le : {c : ℕ} → IsCapacity c → c ≤ 2 ^ 62
IsCapacity-le (k, e, h) = omega (arith, pow-le-pow_right {n = 2} (omega arith) {i = k} {j = 62} h)

pub IsCapacity-double : {c : ℕ} → IsCapacity c → c ≤ 2 ^ 61 → IsCapacity (c * 2)
IsCapacity-double (k, e, h) small = elim (dec_le k 61) [
  | yes p ↦ (suc k, omega (arith, e, pow-suc 2 k), omega arith)
  | no p ↦
      absurd
        (omega (arith, e, pow-le-pow_right {n = 2} (omega arith) {i = 62} {j = k} (omega arith)))
]

pub IsCapacity-half : {c : ℕ} → IsCapacity c → 16 < c → IsCapacity (c / 2) × (16 ≤ c / 2)
IsCapacity-half {c} (k, e, h) big = elim (dec_le k 4) [
  | yes p ↦ absurd (omega (arith, e, pow-le-pow_right {n = 2} (omega arith) {i = k} {j = 4} p))
  | no p ↦
      let e' : c ≡ 2 ^ suc (k - 1) = e ∙ ap (λ n. 2 ^ n) (omega arith) in
      let low : 2 ^ 5 ≤ c =
        rw e (pow-le-pow_right {n = 2} (omega arith) {i = 5} {j = k} (omega arith)) in
      ((k - 1, omega (arith, e', pow-suc 2 (k - 1)), omega arith), omega arith)
]
