-- ===== src/Race/Report.antt =====
-- `find_races` of src/race.rs: the races it reports, list a Boolean function of the strands.
use ws_deque.Base.{
  ℕ, ◌-◌, ◌<◌, ◌≡◌, refl, ap, ◌∙◌, Bool, true, false, not, ◌&&◌, ◌||◌, List, [], ◌∷◌, ◌++◌, none,
  some, arith, ltb, ◌==◌, get_elem?, Option-cases, inl, inr,
}
use native.Mathlib.Decide.{ℕ_discrete}
use ws_deque.Race.{
  Location, Nodes, StrandInfo, Race, Accessors, ByLoc, group, pair_races, races_with,
  races_at_location, races_of, find_races, detect_races, in_parallel, labels,
}
use ws_deque.Race.Labels.{among}
use ws_deque.Race.Walk.{english_all, labels-bound, label-ranks, in_parallel-lca}
use ws_deque.Race.Group.{
  same, any, accesses_at, all_from, lookup, has, before, has_key, distinct, lookup-group,
  before-all_from, distinct-group, accesses_at-none, accesses_at-labels,
}

-- What the race detector may say of the strands `i` and `j`: one of two accesses writes, and the labels
-- are in parallel.
abbrev pub conflict : List StrandInfo → ℕ → ℕ → Bool → Bool → Bool
conflict strands i j v w =
    let a = get_elem? strands i in
    let b = get_elem? strands j in
    elim a [
      | none ↦ false
      | some a ↦ elim b [ none ↦ false | some b ↦ not (i == j) && (v || w) && in_parallel a b ]
    ]

module _ (l : Location) (i j : ℕ) (v w : Bool) where
  -- Whether a report is of the accesses `v` of strand `i` and `w` of strand `j` to `l`.
  abbrev pub is_report : Race → Bool
  is_report r =
      r.location == l && r.strand_a == i && r.strand_b == j && same r.write_a v && same r.write_b w

  any-append :
      (xs ys : List Race) → any is_report (xs ++ ys) ≡ (any is_report xs || any is_report ys)
  any-append [] ys = refl
  any-append (x ∷ xs) ys = ground (arith, any-append xs ys)

  module _ (strands : List StrandInfo)
      (ranked : (k : ℕ) (s : StrandInfo) → get_elem? strands k ≡ some s → s.english ≡ k) where
    pair_races-any :
        (m : Location) (sa sb : ℕ) (wa wb : Bool)
        → any is_report (pair_races m strands (sa, wa) (sb, wb))
          ≡ (m == l && sa == i && same wa v && sb == j && same wb w && conflict strands i j v w)
    unfolding pair_races
    pair_races-any m sa sb wa wb = elim (Option-cases (get_elem? strands sa)) [
      | inl na ↦ ground (arith, ap (get_elem? strands))
      | inr (a, ea) ↦ elim (Option-cases (get_elem? strands sb)) [
        | inl nb ↦ ground (arith, ranked sa a ea)
        | inr (b, eb) ↦ ground (arith, ranked sa a ea, ranked sb b eb)
      ]
    ]

    races_with-any :
        (m : Location) (sa : ℕ) (wa : Bool) (ys : Accessors) (races : List Race)
        → any is_report (races_with m strands (sa, wa) ys races) ≡ (
            any is_report races
            || (m == l && sa == i && same wa v && has j w ys && conflict strands i j v w))
    unfolding races_with
    races_with-any m sa wa [] races = ground arith
    races_with-any m sa wa ((sb, wb) ∷ ys) races =
        let pushed = pair_races m strands (sa, wa) (sb, wb) in
        races_with-any m sa wa ys (races ++ pushed)
        ∙ ground (arith, any-append races pushed, pair_races-any m sa sb wa wb)

    races_at-any :
        (m : Location) (xs : Accessors) (races : List Race)
        → any is_report (races_at_location m xs strands races)
          ≡ (any is_report races || (m == l && before i j v w xs && conflict strands i j v w))
    unfolding races_at_location
    races_at-any m [] races = ground arith
    races_at-any m ((sa, wa) ∷ xs) races =
        races_at-any m xs (races_with m strands (sa, wa) xs races)
        ∙ ground (arith, races_with-any m sa wa xs races)

    -- Whether an entry of the map pairs the two accesses to `l`.
    abbrev pairs : Location × Accessors → Bool
    pairs (m, xs) = m == l && before i j v w xs

    races_of-any :
        (t : ByLoc) (races : List Race)
        → any is_report (races_of t strands races)
          ≡ (any is_report races || (any pairs t && conflict strands i j v w))
    unfolding races_of
    races_of-any [] races = ground arith
    races_of-any ((m, xs) ∷ t) races =
        races_of-any t (races_at_location m xs strands races)
        ∙ ground (arith, races_at-any m xs races)

    any-absent : (t : ByLoc) → has_key l t ≡ false → any pairs t ≡ false
    any-absent [] gone = refl
    any-absent ((m, xs) ∷ t) gone = ground (arith, any-absent t)

    any-lookup : (t : ByLoc) → distinct t ≡ true → any pairs t ≡ before i j v w (lookup t l)
    any-lookup [] d = refl
    any-lookup ((m, xs) ∷ t) d = ground (arith, any-lookup t, any-absent t, ap (λ k. has_key k t))

    find_races-any :
        (iteration : ByLoc → ByLoc)
        → ((p : Location × Accessors → Bool) (t : ByLoc) → any p (iteration t) ≡ any p t)
        → any is_report (find_races iteration strands)
          ≡ (before i j v w (all_from 0 strands l) && conflict strands i j v w)
    unfolding find_races
    find_races-any iteration visits =
        let t = group [] 0 strands in
        races_of-any (iteration t) []
        ∙ ground (
          arith,
          visits pairs t,
          any-lookup t (distinct-group [] 0 strands refl),
          ap (before i j v w) (lookup-group [] 0 strands l),
        )

-- For two accesses in the tree, the labels' verdict is that of the lowest common ancestor.
conflict-among :
    (dag : Nodes) (l : Location) (i j : ℕ) (v w : Bool)
    → i < j
    → (accesses_at (labels dag) i l v
        && accesses_at (labels dag) j l w
        && conflict (labels dag) i j v w)
      ≡ ((v || w)
          && accesses_at (labels dag) i l v
          && accesses_at (labels dag) j l w
          && among dag false i j)
conflict-among dag l i j v w h = elim (Option-cases (get_elem? (labels dag) i)) [
  | inl none_i ↦ ground (arith, accesses_at-none (labels dag) i l v)
  | inr (a, ea) ↦ elim (Option-cases (get_elem? (labels dag) j)) [
    | inl none_j ↦ ground (arith, accesses_at-none (labels dag) j l w)
    | inr (b, eb) ↦ ground (arith, in_parallel-lca dag i j a b, labels-bound dag j b)
  ]
]

module _ (iteration : ByLoc → ByLoc)
    (visits : (p : Location × Accessors → Bool) (t : ByLoc) → any p (iteration t) ≡ any p t) where
  -- The report is exact: whichever order the map is iterated in, a race between an access of strand `i`
  -- and one of strand `j` to the location `l` is reported exactly if `i` comes before `j` in the tree,
  -- both accesses are in it, one of them writes, and the lowest common ancestor of the two strands is a
  -- parallel node.
  pub detect_races-exact :
      (dag : Nodes) (l : Location) (i j : ℕ) (v w : Bool)
      → any (is_report l i j v w) (detect_races iteration dag) ≡ (
          ltb i j
          && (v || w)
          && accesses_at (english_all dag 0) i l v
          && accesses_at (english_all dag 0) j l w
          && among dag false i j)
  unfolding detect_races
  detect_races-exact dag l i j v w =
      let e =
        find_races-any l i j v w (labels dag) (λ k s f. (label-ranks dag k s f).0) iteration
          visits in
      e ∙ elim (ℕ_discrete i j) [
        | yes same_strand ↦ ground arith
        | no apart ↦
            let zi : i - 0 ≡ i = omega arith in
            let zj : j - 0 ≡ j = omega arith in
            ground (
              arith,
              before-all_from i j v w apart 0 (labels dag) l,
              ap (λ k. accesses_at (labels dag) k l v) zi,
              ap (λ k. accesses_at (labels dag) k l w) zj,
              accesses_at-labels dag i l v,
              accesses_at-labels dag j l w,
              conflict-among dag l i j v w,
            )
      ]
