-- ===== src/Scheduler/Degree.antt =====
-- src/scheduler.rs, `hypercube_neighbours`: its loop ends, what it finds, and how many lifelines that are.
use native.Mathlib.Nat.{pow-suc, pow-le-pow_right}
use ws_deque.Base.{
  ℕ, zero, suc, ◌*◌, ◌%◌, ◌^◌, ◌≤◌, ◌<◌, ◌≡◌, refl, sym, ◌∙◌, ap, true, false, Bool-cases, inl, inr,
  not, ◌&&◌, ltb, ◌==◌, some, List, [], ◌∷◌, if◌then◌else◌, length, word, arith,
}
use ws_deque.Scheduler.{flip, neighbours_from, hypercube_neighbours}

-- What the loop finds as long as no bit is dropped.
unfoldable pub bit_neighbours : ℕ → ℕ → ℕ → ℕ → List ℕ
bit_neighbours zero id n bit = []
bit_neighbours (suc fuel) id n bit =
    let rest = bit_neighbours fuel id n (bit * 2) in
    let neighbour = flip id bit in
    if ltb bit n
    then if ltb neighbour n && not (neighbour == id) then neighbour ∷ rest else rest
    else []

bit_neighbours-suc :
    (fuel id n bit : ℕ)
    → ltb bit n ≡ true
    → bit_neighbours (suc fuel) id n bit ≡ (
        if ltb (flip id bit) n && not (flip id bit == id)
        then flip id bit ∷ bit_neighbours fuel id n (bit * 2)
        else bit_neighbours fuel id n (bit * 2))
unfolding bit_neighbours
bit_neighbours-suc fuel id n bit t = rw t refl

doubled : (n bit k : ℕ) → n ≤ bit * 2 ^ suc k → n ≤ bit * 2 * 2 ^ k
doubled n bit k le =
    let e : 2 ^ suc k ≡ 2 ^ k * 2 = pow-suc 2 k in
    let e' : bit * 2 ^ suc k ≡ bit * 2 * 2 ^ k = rw e (omega arith) in omega arith

-- One round that does not end the loop.
neighbours_from-suc :
    (fuel id n bit : ℕ) (found : List ℕ)
    → bit < n
    → n ≤ 2 ^ 63
    → neighbours_from fuel id n (bit * 2) ≡ some found
    → neighbours_from (suc fuel) id n bit
      ≡ some (if ltb (flip id bit) n && not (flip id bit == id) then flip id bit ∷ found else found)
unfolding neighbours_from
neighbours_from-suc fuel id n bit found lt bound e =
    let t : ltb bit n ≡ true = ground arith in
    let kept : bit * 2 % word ≡ bit * 2 = omega arith in rw (t, kept, e) refl

-- The loop ends once `bit` is not below `n`, which is before a bit is dropped.
pub neighbours_from-ends :
    (fuel id n bit : ℕ)
    → n ≤ 2 ^ 63
    → n ≤ bit * 2 ^ fuel
    → neighbours_from (suc fuel) id n bit ≡ some (bit_neighbours (suc fuel) id n bit)
unfolding neighbours_from bit_neighbours
neighbours_from-ends zero id n bit bound le = let t : ltb bit n ≡ false = ground arith in rw t refl
neighbours_from-ends (suc fuel) id n bit bound le = elim (Bool-cases (ltb bit n)) [
  | inr t ↦ rw t refl
  | inl t ↦
      let later =
        neighbours_from-suc (suc fuel) id n bit (bit_neighbours (suc fuel) id n (bit * 2))
          (ground arith) bound
          (neighbours_from-ends fuel id n (bit * 2) bound (doubled n bit fuel le)) in
      later ∙ ap some (sym (bit_neighbours-suc (suc fuel) id n bit t))
]

pub hypercube_neighbours-some :
    (id n : ℕ) → n ≤ 2 ^ 63 → hypercube_neighbours id n ≡ some (bit_neighbours 64 id n 1)
unfolding hypercube_neighbours
hypercube_neighbours-some id n bound = neighbours_from-ends 63 id n 1 bound (omega arith)

length-bit_neighbours :
    (fuel id n bit k : ℕ) → n ≤ bit * 2 ^ k → length (bit_neighbours fuel id n bit) ≤ k
unfolding bit_neighbours
length-bit_neighbours zero id n bit k le = omega arith
length-bit_neighbours (suc fuel) id n bit zero le =
    let t : ltb bit n ≡ false = ground arith in rw t (omega arith)
length-bit_neighbours (suc fuel) id n bit (suc k) le =
    let h : length (bit_neighbours fuel id n (bit * 2)) ≤ k =
      length-bit_neighbours fuel id n (bit * 2) k (doubled n bit k le) in
    elim (Bool-cases (ltb bit n)) [
      | inr t ↦ rw t (omega arith)
      | inl t ↦ elim (Bool-cases (ltb (flip id bit) n && not (flip id bit == id))) [
        | inl s ↦ rw (t, s) (omega (arith, h))
        | inr s ↦ rw (t, s) (omega (arith, h))
      ]
    ]

-- Of at most `2 ^ k` workers, with `k` up to 63, the loop ends within 64 rounds, before `bit <<= 1` drops a
-- bit, and a worker has at most `k` lifelines.
pub hypercube_neighbours-ends :
    (id n k : ℕ)
    → n ≤ 2 ^ k
    → k ≤ 63
    → (found : List ℕ) × (hypercube_neighbours id n ≡ some found) × (length found ≤ k)
hypercube_neighbours-ends id n k le small =
    let wide : 2 ^ k ≤ 2 ^ 63 = pow-le-pow_right {n = 2} (omega arith) {i = k} {j = 63} small in
    (
      bit_neighbours 64 id n 1,
      hypercube_neighbours-some id n (omega arith),
      length-bit_neighbours 64 id n 1 k (omega arith),
    )
