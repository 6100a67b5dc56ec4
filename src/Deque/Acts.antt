-- ===== src/Deque/Acts.antt =====
-- src/lib.rs, threads at work at once: each step, of the owner or of a thief, keeps what holds of the threads
-- and of the deque.
use ws_deque.Base.{
  ℕ, ◌+◌, ◌^◌, ◌≤◌, ◌<◌, ◌≡◌, ◌≢◌, inl, inr, refl, sym, ◌∙◌, ap, true, Bool-cases, Option,
  Option-cases, none, some, List, [], ◌∷◌, ◌++◌, get_elem?, get_elem?-append_cases,
  get_elem?-set_self, set, length, arith, wrapping_sub, isize_le, if◌then◌else◌,
}
use mathlib.Core.Path.{subst}
use ws_deque.Distributed.Weight.{total, total-append}
use ws_deque.Deque.Worker.{push, pop_last, compare_exchange}
use ws_deque.Deque.Threads.{
  System, Owner, resting, lowered, racing, Thief, idle, saw, entered, loaded, holding, Action,
  pushes, pops, clones, steals, pop_begin, pop_look, grows, pop_step, push_step, thief_step,
  with_inner, steal_step, act, act_all,
}
use ws_deque.Deque.Shared.{Ticket, ThiefSound, inside, Sound}
use ws_deque.Deque.OwnerSteps.{push-Sound, begin-Sound}
use ws_deque.Deque.OwnerPop.{looked, look-Sound, settled, settle-Sound}
use ws_deque.Deque.ThiefSteps.{
  only_thief, reads_top, reads_bottom, reads_buffer, reads_cell, first_element, claims_first,
}

module _ {ℓ} {A : Type ℓ} where
  total-one : (xs : List A) → total (λ x. 1) xs ≡ length xs
  total-one [] = refl
  total-one (x ∷ xs) = omega (arith, total-one xs)

  -- As many elements were pushed as were returned or are held.
  Sound-lengths :
      {s : System A} {xs : List A} → Sound s xs → length s.pushed ≡ length s.returned + length xs
  Sound-lengths {s} {xs} o =
      omega (arith, o.flow (λ x. 1), total-one s.pushed, total-one s.returned, total-one xs)

  -- What holds of a step's outcome, whatever the deque holds then.
  abbrev pub IsSound : System A → Type ℓ
  IsSound s = (xs : List A) × Sound s xs

  -- A thief whose compare-exchange succeeds holds the oldest element.
  pub holds_first :
      {s : System A} {xs : List A} (i t : ℕ) (boxed : Option A)
      → get_elem? s.thieves i ≡ some (holding t boxed)
      → Sound s xs
      → length s.pushed ≤ 2 ^ 61
      → s.worker.inner.top ≡ t
      → (x : A) × (rest : List A) × (xs ≡ x ∷ rest) × (boxed ≡ some x)
  holds_first {s} {xs} i t boxed q o few at =
      let k : Ticket s.worker.inner (length s.returned) t
          ((0 < length xs) × (boxed ≡ get_elem? xs 0)) =
        o.each i (holding t boxed) q in
      let z : k.since ≡ 0 = omega (arith, k.few, k.now, k.in_word, at, few, Sound-lengths o) in
      let (more, same) = k.still z in
      let (x, rest, n) = first_element xs more in (x, rest, n, same ∙ ap (λ l. get_elem? l 0) n)

  claim-Sound :
      {s : System A} {xs : List A} (i t : ℕ) (boxed : Option A)
      → get_elem? s.thieves i ≡ some (holding t boxed)
      → Sound s xs
      → length s.pushed ≤ 2 ^ 61
      → let (p', s') = thief_step s (holding t boxed) in
        IsSound (record s' { thieves = set s'.thieves i p' })
  unfolding thief_step with_inner
  claim-Sound {s} {xs} i t boxed q o few =
      elim (Bool-cases (compare_exchange s.worker.inner.top t)) [
        | inl e ↦
            let at : s.worker.inner.top ≡ t = ground arith in
            let (x, rest, n, same) = holds_first i t boxed q o few at in
            rw (e, same)
              (
                rest,
                claims_first i t x rest (q ∙ ap (λ b. some (holding t b)) same)
                    (subst (λ l. Sound s l) n o) at,
              )
        | inr e ↦
            rw e (xs, only_thief i (holding t boxed) idle s.worker.inner.in_flight q o tt refl)
      ]

  thief_step-Sound :
      {s : System A} {xs : List A} (i : ℕ) (p : Thief A)
      → get_elem? s.thieves i ≡ some p
      → Sound s xs
      → length s.pushed ≤ 2 ^ 61
      → let (p', s') = thief_step s p in IsSound (record s' { thieves = set s'.thieves i p' })
  unfolding thief_step with_inner
  thief_step-Sound {s} {xs} i idle q o few = (xs, reads_top i q o)
  thief_step-Sound {s} {xs} i (saw t) q o few =
      elim (Bool-cases (isize_le (wrapping_sub s.worker.inner.bottom t) 0)) [
        | inl e ↦ rw e (xs, only_thief i (saw t) idle s.worker.inner.in_flight q o tt refl)
        | inr e ↦ rw e (xs, reads_bottom i t q o e)
      ]
  thief_step-Sound {s} {xs} i (entered t) q o few = (xs, reads_buffer i t q o)
  thief_step-Sound {s} {xs} i (loaded t j) q o few = (xs, reads_cell i t j q o)
  thief_step-Sound {s} {xs} i (holding t boxed) q o few = claim-Sound i t boxed q o few

  steal_step-some :
      (s : System A) (i : ℕ) (p : Thief A)
      → get_elem? s.thieves i ≡ some p
      → steal_step s i
        ≡ (let (p', s') = thief_step s p in record s' { thieves = set s'.thieves i p' })
  unfolding steal_step
  steal_step-some s i p q = ground arith

  steal_step-none : (s : System A) (i : ℕ) → get_elem? s.thieves i ≡ none → steal_step s i ≡ s
  unfolding steal_step
  steal_step-none s i q = ground arith

  -- What that thief's compare-exchange does.
  pub claim_returns :
      (s : System A) (i t : ℕ) (x : A)
      → get_elem? s.thieves i ≡ some (holding t (some x))
      → s.worker.inner.top ≡ t
      → ((steal_step s i).returned ≡ x ∷ s.returned)
        × (get_elem? (steal_step s i).thieves i ≡ some idle)
  unfolding thief_step with_inner
  claim_returns s i t x q at =
      let same = steal_step-some s i (holding t (some x)) q in
      let hit : compare_exchange s.worker.inner.top t ≡ true = ground arith in
      rw (same, hit) (refl, get_elem?-set_self s.thieves i (holding t (some x)) idle q)

  steal_step-Sound :
      {s : System A} {xs : List A} (i : ℕ)
      → Sound s xs
      → length s.pushed ≤ 2 ^ 61
      → IsSound (steal_step s i)
  steal_step-Sound {s} {xs} i o few = elim (Option-cases (get_elem? s.thieves i)) [
    | inl n ↦ (xs, subst (λ u. Sound u xs) (sym (steal_step-none s i n)) o)
    | inr (p, q) ↦
        let (xs', o') = thief_step-Sound i p q o few in
        (xs', subst (λ u. Sound u xs') (sym (steal_step-some s i p q)) o')
  ]

  pop_step-resting :
      (s : System A)
      → s.owner ≡ resting
      → pop_step s ≡ record s { worker = pop_begin s.worker; owner = lowered }
  unfolding pop_step
  pop_step-resting s e = ground arith

  pop_step-lowered : (s : System A) → s.owner ≡ lowered → pop_step s ≡ looked s (pop_look s.worker)
  unfolding pop_step
  pop_step-lowered s e = ground arith

  pop_step-racing :
      (s : System A) (t : ℕ) (boxed : Option A)
      → s.owner ≡ racing t boxed
      → pop_step s ≡ settled s (pop_last (λ i. i) s.worker.inner t boxed)
  unfolding pop_step
  pop_step-racing s t boxed e = ground arith

  pop_step-Sound :
      {s : System A} {xs : List A} (owner : Owner A)
      → s.owner ≡ owner
      → Sound s xs
      → IsSound (pop_step s)
  pop_step-Sound {s} {xs} resting e o =
      (xs, subst (λ u. Sound u xs) (sym (pop_step-resting s e)) (begin-Sound e o))
  pop_step-Sound {s} {xs} lowered e o =
      let (xs', o') = look-Sound xs e o in
      (xs', subst (λ u. Sound u xs') (sym (pop_step-lowered s e)) o')
  pop_step-Sound {s} {xs} (racing t boxed) e o = (
    [],
    subst (λ u. Sound u []) (sym (pop_step-racing s t boxed e)) (settle-Sound xs t boxed e o),
  )

  push_step-resting :
      (s : System A) (v : A)
      → s.owner ≡ resting
      → push_step s v ≡ record s {
        worker = push s.worker v;
        serial = if grows s.worker then s.serial + 1 else s.serial;
        pushed = v ∷ s.pushed;
      }
  unfolding push_step
  push_step-resting s v e = ground arith

  push_step-busy : (s : System A) (v : A) → s.owner ≢ resting → push_step s v ≡ s
  unfolding push_step
  push_step-busy s v n = ground arith

  push_step-Sound :
      {s : System A} {xs : List A} (v : A) (owner : Owner A)
      → s.owner ≡ owner
      → Sound s xs
      → length s.pushed < 2 ^ 61
      → IsSound (push_step s v)
  push_step-Sound {s} {xs} v resting e o few = (
    xs ++ v ∷ [],
    subst (λ u. Sound u (xs ++ v ∷ [])) (sym (push_step-resting s v e))
        (push-Sound v e o (omega (arith, Sound-lengths o))),
  )
  push_step-Sound {s} {xs} v lowered e o few =
      (xs, subst (λ u. Sound u xs) (sym (push_step-busy s v (λ f. cc))) o)
  push_step-Sound {s} {xs} v (racing t boxed) e o few =
      (xs, subst (λ u. Sound u xs) (sym (push_step-busy s v (λ f. cc))) o)

  clone-Sound :
      {s : System A} {xs : List A}
      → Sound s xs
      → Sound (record s { thieves = s.thieves ++ idle ∷ [] }) xs
  clone-Sound {s} {xs} o = record {
    owner = o.owner;
    flow = o.flow;
    counted = omega (arith, o.counted, total-append inside s.thieves (idle ∷ []));
    each = λ i p q. elim (get_elem?-append_cases s.thieves i idle p q) [
      | inl same ↦ subst (λ d. ThiefSound s.worker.inner s.serial (length s.returned) xs d) same tt
      | inr old ↦ o.each i p old
    ];
  }

  act-Sound :
      {s : System A} {xs : List A} (a : Action A)
      → Sound s xs
      → length s.pushed < 2 ^ 61
      → IsSound (act s a)
  unfolding act
  act-Sound {s} (pushes v) o few = push_step-Sound v s.owner refl o few
  act-Sound {s} pops o few = pop_step-Sound s.owner refl o
  act-Sound {xs = xs} clones o few = (xs, clone-Sound o)
  act-Sound (steals i) o few = steal_step-Sound i o (omega arith)

  pushed-thief_step : (s : System A) (p : Thief A) → (thief_step s p).1.pushed ≡ s.pushed
  unfolding thief_step with_inner
  pushed-thief_step s idle = refl
  pushed-thief_step s (saw t) = ground arith
  pushed-thief_step s (entered t) = refl
  pushed-thief_step s (loaded t j) = refl
  pushed-thief_step s (holding t boxed) = ground arith

  pushed-act : (s : System A) (a : Action A) → length (act s a).pushed ≤ length s.pushed + 1
  unfolding act push_step pop_step
  pushed-act s (pushes v) = ground arith
  pushed-act s pops = ground arith
  pushed-act s clones = omega arith
  pushed-act s (steals i) = elim (Option-cases (get_elem? s.thieves i)) [
    | inl n ↦ omega (arith, ap (λ (u : System A). length u.pushed) (steal_step-none s i n))
    | inr (p, q) ↦ omega (
      arith,
      ap (λ (u : System A). length u.pushed) (steal_step-some s i p q),
      ap length (pushed-thief_step s p),
    )
  ]

  pub pushed-act_all :
      (actions : List (Action A)) (s : System A)
      → length (act_all s actions).pushed ≤ length s.pushed + length actions
  unfolding act_all
  pushed-act_all [] s = omega arith
  pushed-act_all (a ∷ actions) s = omega (arith, pushed-act s a, pushed-act_all actions (act s a))

  pub act_all-Sound :
      (actions : List (Action A)) (s : System A) (xs : List A)
      → Sound s xs
      → length s.pushed + length actions ≤ 2 ^ 61
      → IsSound (act_all s actions)
  unfolding act_all
  act_all-Sound [] s xs o few = (xs, o)
  act_all-Sound (a ∷ actions) s xs o few =
      let (xs', o') = act-Sound a o (omega arith) in
      act_all-Sound actions (act s a) xs' o' (omega (arith, pushed-act s a))
