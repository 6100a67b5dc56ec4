-- ===== src/Scheduler/Cube.antt =====
-- src/scheduler.rs, `hypercube_neighbours`: the lifelines are symmetric, and lead from every worker to every
-- other.
use native.Mathlib.Nat.{
  add-div_right, div-eq-sub-div, div-div-eq-div-mul, pow-suc, one-le-pow, le-mul_of_pos_right,
  div-eq_of_lt, div-one, pow-le-pow_right,
}
use native.Mathlib.Decide.{dec_lt, dec_le, ℕ_discrete}
use ws_deque.Base.{
  ℕ, zero, suc, ◌+◌, ◌-◌, ◌*◌, ◌/◌, ◌%◌, ◌^◌, ◌≤◌, ◌<◌, ◌≡◌, ◌⊎◌, inl, inr, refl, sym, ◌∙◌, ap,
  true, false, Bool-cases, not, ◌&&◌, some, List, [], ◌∷◌, ltb, ◌==◌, arith,
}
use mathlib.Core.Path.{subst}
use ws_deque.Scheduler.{flip, hypercube_neighbours}
use ws_deque.Scheduler.Degree.{bit_neighbours, hypercube_neighbours-some}

unfoldable pub Among : ℕ → List ℕ → Type 0
Among j [] = ⊥
Among j (k ∷ ks) = (k ≡ j) ⊎ Among j ks

bit_le : (id bit : ℕ) → ((id / bit) % 2 == 1) ≡ true → bit ≤ id
bit_le id bit e = elim (dec_le bit id) [
  | yes h ↦ h
  | no h ↦
      let z : id / bit ≡ 0 = div-eq_of_lt {n = id} {m = bit} (omega arith) in
      absurd (ground (arith, z))
]

-- Flipping a bit twice gives the number back.
pub flip-flip : (id bit : ℕ) → 0 < bit → flip (flip id bit) bit ≡ id
unfolding flip
flip-flip id bit pos = elim (Bool-cases ((id / bit) % 2 == 1)) [
  | inl e ↦
      let le : bit ≤ id = bit_le id bit e in
      let d : id / bit ≡ (id - bit) / bit + 1 = div-eq-sub-div pos le in
      rw e (ground (arith, d, le))
  | inr e ↦
      let d : (id + bit) / bit ≡ id / bit + 1 = add-div_right id pos in rw e (ground (arith, d))
]

flip-ne : (id bit : ℕ) → 0 < bit → (flip id bit == id) ≡ false
unfolding flip
flip-ne id bit pos = elim (Bool-cases ((id / bit) % 2 == 1)) [
  | inl e ↦ let le : bit ≤ id = bit_le id bit e in rw e (ground (arith, le, pos))
  | inr e ↦ rw e (ground (arith, pos))
]

twice : (bit k : ℕ) → bit * 2 ^ suc k ≡ bit * 2 * 2 ^ k
twice bit k = let e : 2 ^ suc k ≡ 2 ^ k * 2 = pow-suc 2 k in rw e (omega arith)

bit_le_shifted : (bit k : ℕ) → bit ≤ bit * 2 ^ k
bit_le_shifted bit k = le-mul_of_pos_right bit (one-le-pow k 2 (omega arith))

-- The loop finds every neighbour whose bit it reaches.
Among-bit_neighbours :
    (fuel id n bit k : ℕ)
    → 0 < bit
    → k < fuel
    → bit * 2 ^ k < n
    → flip id (bit * 2 ^ k) < n
    → Among (flip id (bit * 2 ^ k)) (bit_neighbours fuel id n bit)
unfolding bit_neighbours Among
Among-bit_neighbours zero id n bit k pos lt small inside = absurd (omega arith)
Among-bit_neighbours (suc fuel) id n bit zero pos lt small inside =
    let e : bit * 2 ^ 0 ≡ bit = omega arith in
    let t : ltb bit n ≡ true = ground arith in
    let inside' : flip id bit < n = subst (λ b. flip id b < n) e inside in
    let t' : ltb (flip id bit) n ≡ true = ground arith in
    rw (t, t', flip-ne id bit pos, e) (inl refl)
Among-bit_neighbours (suc fuel) id n bit (suc k) pos lt small inside =
    let e : bit * 2 ^ suc k ≡ bit * 2 * 2 ^ k = twice bit k in
    let t : ltb bit n ≡ true = ground (arith, bit_le_shifted bit (suc k)) in
    let later : Among (flip id (bit * 2 * 2 ^ k)) (bit_neighbours fuel id n (bit * 2)) =
      Among-bit_neighbours fuel id n (bit * 2) k (omega arith) (omega arith)
        (subst (λ b. b < n) e small) (subst (λ b. flip id b < n) e inside) in
    elim (Bool-cases (ltb (flip id bit) n && not (flip id bit == id))) [
      | inl h ↦ rw (t, e, h) (inr later)
      | inr h ↦ rw (t, e, h) later
    ]

-- What the loop finds is a number below `n` that differs in one bit.
Flipped : ℕ → ℕ → ℕ → ℕ → ℕ → Type 0
Flipped fuel id n bit j =
    (k : ℕ) × (k < fuel) × (j ≡ flip id (bit * 2 ^ k)) × (bit * 2 ^ k < n) × (j < n)

Flipped-suc : (fuel id n bit j : ℕ) → Flipped fuel id n (bit * 2) j → Flipped (suc fuel) id n bit j
unfolding Flipped
Flipped-suc fuel id n bit j (k, lt, q, small, inside) = (
  suc k,
  omega arith,
  q ∙ ap (flip id) (sym (twice bit k)),
  subst (λ b. b < n) (sym (twice bit k)) small,
  inside,
)

Flipped-first :
    (fuel id n bit j : ℕ)
    → flip id bit ≡ j
    → bit < n
    → flip id bit < n
    → Flipped (suc fuel) id n bit j
unfolding Flipped
Flipped-first fuel id n bit j q small inside =
    let e : bit * 2 ^ 0 ≡ bit = omega arith in
    (0, omega arith, sym q ∙ ap (flip id) (sym e), omega arith, omega (arith, q))

bit_neighbours-Flipped :
    (fuel id n bit j : ℕ) → Among j (bit_neighbours fuel id n bit) → Flipped fuel id n bit j
unfolding bit_neighbours Among
bit_neighbours-Flipped zero id n bit j a = absurd a
bit_neighbours-Flipped (suc fuel) id n bit j a = elim (Bool-cases (ltb bit n)) [
  | inr t ↦ absurd (rw t at a)
  | inl t ↦
      let later : Among j (bit_neighbours fuel id n (bit * 2)) → Flipped (suc fuel) id n bit j =
        λ b. Flipped-suc fuel id n bit j (bit_neighbours-Flipped fuel id n (bit * 2) j b) in
      elim (Bool-cases (ltb (flip id bit) n && not (flip id bit == id))) [
        | inr h ↦ later (rw (t, h) at a)
        | inl h ↦
            let b : (flip id bit ≡ j) ⊎ Among j (bit_neighbours fuel id n (bit * 2)) =
              rw (t, h) at a in
            elim b [
              | inr c ↦ later c
              | inl q ↦ Flipped-first fuel id n bit j q (ground arith) (ground arith)
            ]
      ]
]

-- `j` is a lifeline of worker `i`, whose loop ended.
pub record Lifeline (n i j : ℕ) : Type 0 where
  pub found : List ℕ
  pub ended : hypercube_neighbours i n ≡ some found
  pub among : Among j found

lifeline : (i j n : ℕ) → n ≤ 2 ^ 63 → Among j (bit_neighbours 64 i n 1) → Lifeline n i j
lifeline i j n bound a = record {
  found = bit_neighbours 64 i n 1;
  ended = hypercube_neighbours-some i n bound;
  among = a;
}

-- A worker is among the lifelines of its own lifelines.
bit_neighbours-symmetric :
    (id n j : ℕ) → id < n → Among j (bit_neighbours 64 id n 1) → Among id (bit_neighbours 64 j n 1)
unfolding Flipped
bit_neighbours-symmetric id n j lt a =
    let (k, fuel, q, small, inside) = bit_neighbours-Flipped 64 id n 1 j a in
    let pos : 0 < 1 * 2 ^ k = omega (arith, one-le-pow k 2 (omega arith)) in
    let back : flip j (1 * 2 ^ k) ≡ id =
      ap (λ i. flip i (1 * 2 ^ k)) q ∙ flip-flip id (1 * 2 ^ k) pos in
    subst (λ i. Among i (bit_neighbours 64 j n 1)) back
      (Among-bit_neighbours 64 j n 1 k (omega arith) fuel small (rw back lt))

-- A number above zero has a bit that is set.
set_bit : (m id : ℕ) → 0 < id → id ≤ m → (k : ℕ) × (((id / 2 ^ k) % 2 == 1) ≡ true)
set_bit zero id pos le = absurd (omega arith)
set_bit (suc m) id pos le = elim (ℕ_discrete (id % 2) 1) [
  | yes odd ↦ (0, ground (arith, div-one id))
  | no even ↦
      let (k, e) = set_bit m (id / 2) (omega arith) (omega arith) in
      let d : id / 2 ^ suc k ≡ id / 2 / 2 ^ k =
        ap (λ b. id / b) (pow-suc 2 k ∙ mul_swap (2 ^ k)) ∙ sym (div-div-eq-div-mul id 2 (2 ^ k)) in
      (suc k, rw d e)
]
  where
    mul_swap : (x : ℕ) → x * 2 ≡ 2 * x
    mul_swap x = omega arith

-- Two workers that a path of lifelines joins.
pub data Joined (n : ℕ) : ℕ → ℕ → Type 0 where
  here : {i : ℕ} → Joined n i i
  along : {i j k : ℕ} → Lifeline n i j → Joined n j k → Joined n i k

Joined-trans : {n i j k : ℕ} → Joined n i j → Joined n j k → Joined n i k
Joined-trans here q = q
Joined-trans (along a p) q = along a (Joined-trans p q)

-- A worker other than the first has a lifeline to one with a smaller index.
smaller_neighbour :
    (id n : ℕ)
    → 0 < id
    → id < n
    → n ≤ 2 ^ 63
    → (j : ℕ) × (j < id) × Among j (bit_neighbours 64 id n 1)
smaller_neighbour id n pos lt bound =
    let (k, e) = set_bit id id pos (omega arith) in
    let one : 1 ≤ 2 ^ k = one-le-pow k 2 (omega arith) in
    let unit : 1 * 2 ^ k ≡ 2 ^ k = omega arith in
    let le : 2 ^ k ≤ id = bit_le id (2 ^ k) e in
    let less : flip id (2 ^ k) < id = unfold flip in ground (arith, le, one) in
    let fuel : k < 64 = elim (dec_lt k 64) [
      | yes h ↦ h
      | no h ↦
          absurd (
            omega
              (arith, le, pow-le-pow_right {n = 2} (omega arith) {i = 64} {j = k} (omega arith)))
    ] in
    (
      flip id (2 ^ k),
      less,
      subst (λ b. Among (flip id b) (bit_neighbours 64 id n 1)) unit
          (Among-bit_neighbours 64 id n 1 k (omega arith) fuel (omega (arith, le, unit))
            (rw unit (omega (arith, less)))),
    )

Joined-first : (m id n : ℕ) → id ≤ m → id < n → n ≤ 2 ^ 63 → Joined n id 0 × Joined n 0 id
Joined-first m zero n le lt bound = (here, here)
Joined-first zero (suc i) n le lt bound = absurd (omega arith)
Joined-first (suc m) (suc i) n le lt bound =
    let (j, less, a) = smaller_neighbour (suc i) n (omega arith) lt bound in
    let (down, up) = Joined-first m j n (omega arith) (omega arith) bound in
    (
      along (lifeline (suc i) j n bound a) down,
      Joined-trans up
          (along (lifeline j (suc i) n bound (bit_neighbours-symmetric (suc i) n j lt a)) here),
    )

-- Of at most `2 ^ 63` workers, lifelines lead from each to each other.
pub hypercube_neighbours-Joined : (i j n : ℕ) → i < n → j < n → n ≤ 2 ^ 63 → Joined n i j
hypercube_neighbours-Joined i j n lt lt' bound =
    Joined-trans (Joined-first i i n (omega arith) lt bound).0
      (Joined-first j j n (omega arith) lt' bound).1
