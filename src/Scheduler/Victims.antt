-- ===== src/Scheduler/Victims.antt =====
-- src/scheduler.rs: the victims that a worker tries, in the order of `try_steal`. The generator is that of
-- src/distributed.rs.
use ws_deque.Base.{
  ℕ, zero, suc, ◌+◌, ◌-◌, ◌*◌, ◌/◌, ◌%◌, ◌^◌, ◌<◌, Bool-cases, inl, inr, ◌&&◌, not, Option,
  Option-cases, none, some, List, [], ◌∷◌, ◌++◌, if◌then◌else◌, ltb, ◌==◌, max, min, word, arith,
}
use native.Mathlib.Nat.{mod-lt}
use ws_deque.Distributed.{xorshift, seed_rng}
use ws_deque.Scheduler.{flip, neighbours_from, hypercube_neighbours}
use ws_deque.Scheduler.Requests.{AllBelow}

-- 32 less the leading zeros of a `u32`.
unfoldable pub bit_length : ℕ → ℕ → ℕ
bit_length zero x = 0
bit_length (suc fuel) x = let rest = bit_length fuel (x / 2) in if x == 0 then 0 else suc rest

-- The number of random victims: `usize::BITS` less the leading zeros of `n as u32`.
unfoldable pub random_tries : ℕ → ℕ
unfolding bit_length
random_tries n = max (32 + bit_length 32 (n % 2 ^ 32)) 1

-- The first worker of the group, and how many it has.
unfoldable pub group_low : ℕ → ℕ → ℕ
group_low me gsize = me / gsize * gsize

unfoldable pub group_span : ℕ → ℕ → ℕ → ℕ
unfolding group_low
group_span me gsize n = min (group_low me gsize + gsize) n - group_low me gsize

-- The victim of attempt `k` of `w`.
unfoldable pub pick : ℕ → ℕ → ℕ → ℕ → ℕ → ℕ → ℕ
unfolding group_low group_span
pick me gsize n w k rng =
    let span = group_span me gsize n in
    if ltb 1 gsize && (ltb 1 span && ltb k ((w + 1) / 2))
    then group_low me gsize + rng % span
    else rng % n

-- The attempts from the `k`-th on, `left` of them; the worker itself is passed over.
unfoldable pub random_victims : ℕ → ℕ → ℕ → ℕ → ℕ → ℕ → ℕ → List ℕ
unfolding pick
random_victims me gsize n w zero k rng = []
random_victims me gsize n w (suc left) k rng =
    let next = xorshift rng in
    let victim = pick me gsize n w k next in
    let rest = random_victims me gsize n w left (k + 1) next in
    if victim == me then rest else victim ∷ rest

-- No lifelines are known as long as their loop runs.
unfoldable listed : Option (List ℕ) → List ℕ
listed none = []
listed (some found) = found

-- The lifelines that `run_with_config` found for the worker.
unfoldable pub lifelines_of : ℕ → ℕ → List ℕ
unfolding listed
lifelines_of me n = listed (hypercube_neighbours me n)

-- Whom `try_steal` tries, as long as it gets no task; the lifelines come last.
unfoldable pub victims : ℕ → ℕ → ℕ → List ℕ
unfolding random_victims random_tries lifelines_of
victims me gsize n =
    let w = random_tries n in
    if ltb 1 n then random_victims me gsize n w w 0 (seed_rng me) ++ lifelines_of me n else []

AllBelow-append : (n : ℕ) (xs ys : List ℕ) → AllBelow n xs → AllBelow n ys → AllBelow n (xs ++ ys)
unfolding AllBelow
AllBelow-append n [] ys a b = b
AllBelow-append n (x ∷ xs) ys (lt, a) b = (lt, AllBelow-append n xs ys a b)

-- A victim in the worker's own group is a worker.
grouped-lt :
    (me gsize n rng : ℕ)
    → 1 < group_span me gsize n
    → group_low me gsize + rng % group_span me gsize n < n
unfolding group_span
grouped-lt me gsize n rng h =
    let some_span : 0 < group_span me gsize n = omega arith in omega (arith, mod-lt rng some_span)

pick-lt : (me gsize n w k rng : ℕ) → 0 < n → pick me gsize n w k rng < n
unfolding pick
pick-lt me gsize n w k rng h =
    elim (Bool-cases (ltb 1 gsize && (ltb 1 (group_span me gsize n) && ltb k ((w + 1) / 2)))) [
      | inl near ↦
          let wide : 1 < group_span me gsize n = ground arith in
          rw near (grouped-lt me gsize n rng wide)
      | inr far ↦ rw far (mod-lt rng h)
    ]

random_victims-AllBelow :
    (me gsize n w left k rng : ℕ) → 0 < n → AllBelow n (random_victims me gsize n w left k rng)
unfolding random_victims AllBelow
random_victims-AllBelow me gsize n w zero k rng h = tt
random_victims-AllBelow me gsize n w (suc left) k rng h =
    let rest = random_victims-AllBelow me gsize n w left (k + 1) (xorshift rng) h in
    elim (Bool-cases (pick me gsize n w k (xorshift rng) == me)) [
      | inl self ↦ rw self rest
      | inr other ↦ rw other (pick-lt me gsize n w k (xorshift rng) h, rest)
    ]

neighbours_from-AllBelow : (fuel id n bit : ℕ) → AllBelow n (listed (neighbours_from fuel id n bit))
unfolding neighbours_from listed AllBelow
neighbours_from-AllBelow zero id n bit = tt
neighbours_from-AllBelow (suc fuel) id n bit =
    let rec : AllBelow n (listed (neighbours_from fuel id n (bit * 2 % word))) =
      neighbours_from-AllBelow fuel id n (bit * 2 % word) in
    elim (Bool-cases (ltb bit n)) [
      | inr t ↦ rw t tt
      | inl t ↦ elim (Option-cases (neighbours_from fuel id n (bit * 2 % word))) [
        | inl r ↦ rw (t, r) tt
        | inr (later, r) ↦
            let below : AllBelow n later = rw r at rec in
            elim (Bool-cases (ltb (flip id bit) n && not (flip id bit == id))) [
              | inl s ↦ let near : flip id bit < n = ground arith in rw (t, r, s) (near, below)
              | inr s ↦ rw (t, r, s) below
            ]
      ]
    ]

lifelines_of-AllBelow : (me n : ℕ) → AllBelow n (lifelines_of me n)
unfolding lifelines_of hypercube_neighbours
lifelines_of-AllBelow me n = neighbours_from-AllBelow 64 me n 1

-- Every victim that a worker tries is a worker, at any group size.
pub victims-AllBelow : (me gsize n : ℕ) → AllBelow n (victims me gsize n)
unfolding victims
victims-AllBelow me gsize n = elim (Bool-cases (ltb 1 n)) [
  | inl more ↦
      let h : 0 < n = ground arith in
      rw more (
        AllBelow-append n _ _
          (random_victims-AllBelow me gsize n (random_tries n) (random_tries n) 0 (seed_rng me) h)
          (lifelines_of-AllBelow me n))
  | inr alone ↦ rw alone (unfold AllBelow in tt)
]
