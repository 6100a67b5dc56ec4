-- ===== src/Scheduler/Alive.antt =====
-- src/scheduler.rs: in any order of the workers' steps no task is lost or run twice, the counter of
-- outstanding tasks counts those that wait or are being run, and the workers stop only when none does.
use ws_deque.Base.{
  ℕ, ◌+◌, ◌-◌, ◌%◌, ◌≤◌, ◌<◌, ◌≡◌, ◌≢◌, refl, sym, ◌∙◌, ap, Bool, true, false, Bool-cases, inl, inr,
  Option, Option-cases, none, some, List, [], ◌∷◌, ◌++◌, if◌then◌else◌, ◌==◌, arith, word,
  get_elem?, get_elem?-set_ne, set, take, drop, length, min,
}
use mathlib.Core.Path.{subst}
use native.Mathlib.Decide.{ℕ_discrete}
use ws_deque.Distributed.Weight.{total, total-append, total-take-drop, total-set, total-member, one}
use ws_deque.Scheduler.Workers.{
  Pc, draining, popping, running, returned, Worker, Shared, put_worker, signal_work, spawn,
  spawn_at, finish_task, steal_one,
}

module _ {ℓ} {A : Type ℓ} where
  -- The tasks that a worker has, whether it runs one, and whether it returned.
  abbrev pub held : (A → ℕ) → Worker A → ℕ
  held f w = total f w.deque + total f w.inbox

  abbrev pub busy_pc : Pc A → ℕ
  busy_pc (running _ _) = 1
  busy_pc _ = 0

  abbrev pub gone_pc : Pc A → ℕ
  gone_pc returned = 1
  gone_pc _ = 0

  abbrev pub busy : Worker A → ℕ
  busy w = busy_pc w.pc

  abbrev pub gone : Worker A → ℕ
  gone w = gone_pc w.pc

  -- The tasks that wait or are being run.
  abbrev pub alive : Shared A → ℕ
  alive s = total (held one) s.workers + total busy s.workers

  -- How many have stopped.
  abbrev pub stopped : Shared A → ℕ
  stopped s = (if s.terminated then 1 else 0) + total gone s.workers

  pub record Conserved (s : Shared A) : Type ℓ where
    pub flow : (f : A → ℕ) → total f s.spawned ≡ total f s.executed + total (held f) s.workers
    pub counted : s.outstanding ≡ alive s % word
    pub quiet : 0 < stopped s → alive s ≡ 0

  -- A step that writes one worker keeps the invariant, if the tasks balance and the worker did not stop.
  one-Conserved :
      {s s' : Shared A} (i : ℕ) {w : Worker A} (out : Worker A)
      → Conserved s
      → get_elem? s.workers i ≡ some w
      → s'.workers ≡ set s.workers i out
      → ((f : A → ℕ)
          → total f s'.spawned + total f s.executed + held f w
            ≡ total f s.spawned + total f s'.executed + held f out)
      → ((t t' : ℕ)
          → s.outstanding ≡ t % word
          → held one w + busy w ≤ t
          → t' + (held one w + busy w) ≡ t + (held one out + busy out)
          → s'.outstanding ≡ t' % word)
      → ((t t' : ℕ)
          → s.outstanding ≡ t % word
          → held one w + busy w ≤ t
          → t' + (held one w + busy w) ≡ t + (held one out + busy out)
          → t ≡ alive s
          → (0 < stopped s → t ≡ 0)
          → 0 < (if s'.terminated then 1 else 0) + gone out + (total gone s.workers - gone w)
          → t' ≡ 0)
      → Conserved s'
  one-Conserved {s} {s'} i {w} out c at e balance count stop =
      let hs = λ (f : A → ℕ). total-set (held f) s.workers i w out at in
      let h = λ (f : A → ℕ). ap (total (held f)) e in
      let bs = total-set busy s.workers i w out at in
      let gs = total-set gone s.workers i w out at in
      let le : held one w + busy w ≤ alive s =
        omega
          (arith, total-member (held one) s.workers i w at, total-member busy s.workers i w at) in
      let moved : alive s' + (held one w + busy w) ≡ alive s + (held one out + busy out) =
        omega (arith, h one, ap (total busy) e, hs one, bs) in
      record {
        flow = λ f. omega (arith, c.flow f, h f, hs f, balance f);
        counted = count (alive s) (alive s') c.counted le moved;
        quiet = λ z.
            stop (alive s) (alive s') c.counted le moved refl c.quiet
              (omega (arith, ap (total gone) e, gs, total-member gone s.workers i w at));
      }

  module _ (s : Shared A) (i : ℕ) (w : Worker A) (c : Conserved s)
      (at : get_elem? s.workers i ≡ some w) where
    -- A worker that goes on, with the tasks that it had.
    pub goes_on-Conserved :
        (out : Worker A)
        → ((f : A → ℕ) → held f out ≡ held f w)
        → busy out ≡ busy w
        → gone out ≡ 0
        → Conserved (put_worker s i out)
    unfolding put_worker
    goes_on-Conserved out same b g =
        one-Conserved i out c at refl (λ f. omega (arith, same f))
          (λ t t' e le m. omega (arith, same one))
          (λ t t' e le m n q z. omega (arith, same one, q (omega arith)))

    -- A worker that stops when no task is outstanding.
    pub stops-Conserved :
        (over : Bool)
        → busy w ≡ 0
        → alive s ≡ 0
        → Conserved (record (put_worker s i (record w { pc = returned })) { terminated = over })
    unfolding put_worker
    stops-Conserved over b none_alive =
        let hs = λ (f : A → ℕ). total-set (held f) s.workers i w (record w { pc = returned }) at in
        let bs = total-set busy s.workers i w (record w { pc = returned }) at in
        record {
          flow = λ f. omega (arith, c.flow f, hs f);
          counted = omega (arith, c.counted, hs one, bs);
          quiet = λ z. omega (arith, hs one, bs);
        }

    pub finish_task-Conserved :
        (own : Bool) (rest : List (A × Option ℕ))
        → alive s < word
        → busy w ≡ 1
        → Conserved (finish_task s i w own)
    unfolding finish_task put_worker
    finish_task-Conserved own rest small b =
        let out : Worker A = record w { pc = if own then popping true else draining } in
        let z : busy out ≡ 0 = ground arith in
        let g : gone out ≡ 0 = ground arith in
        one-Conserved i out c at refl (λ f. omega arith) (λ t t' e le m. omega (arith, b, z))
          (λ t t' e le m n q d. elim (Bool-cases (s.outstanding == 1)) [
            | inl last ↦ let k : s.outstanding ≡ 1 = ground arith in omega (arith, b, z, k)
            | inr more ↦ let k : 0 < stopped s = ground arith in omega (arith, q k, b)
          ])

    pub spawn-Conserved :
        (own : Bool) (task : A) (rest : List (A × Option ℕ))
        → busy w ≡ 1
        → gone w ≡ 0
        → Conserved (spawn s i w own task rest)
    unfolding spawn put_worker signal_work
    spawn-Conserved own task rest b g =
        let out : Worker A = record w { deque = w.deque ++ task ∷ []; pc = running own rest } in
        let more = λ (f : A → ℕ). total-append f w.deque (task ∷ []) in
        one-Conserved i out c at refl (λ f. omega (arith, more f))
          (λ t t' e le m. omega (arith, b, more one))
          (λ t t' e le m n q d. omega (arith, b, q (omega arith)))

    -- What a step that writes another worker first does to the sums.
    both :
        (g : Worker A → ℕ) (k : ℕ) (other : Worker A) (there out : Worker A)
        → get_elem? s.workers k ≡ some other
        → k ≢ i
        → total g (set (set s.workers k there) i out) + g other + g w
          ≡ total g s.workers + g there + g out
    both g k other there out q n = omega (
      arith,
      total-set g s.workers k other there q,
      total-set g (set s.workers k there) i w out (get_elem?-set_ne s.workers k i there n ∙ at),
    )

    -- A task that is deposited in the inbox of another worker.
    deposit-Conserved :
        (own : Bool) (task : A) (rest : List (A × Option ℕ)) (k : ℕ) (peer : Worker A)
        → busy w ≡ 1
        → gone w ≡ 0
        → get_elem? s.workers k ≡ some peer
        → k ≢ i
        → Conserved (
            signal_work
              (record (put_worker
                (put_worker s k (record peer { inbox = peer.inbox ++ task ∷ [] }))
                i
                (record w { pc = running own rest })) {
                  outstanding = (s.outstanding + 1) % word;
                  spawned = task ∷ s.spawned;
                }))
    unfolding put_worker signal_work
    deposit-Conserved own task rest k peer b g q n =
        let there : Worker A = record peer { inbox = peer.inbox ++ task ∷ [] } in
        let out : Worker A = record w { pc = running own rest } in
        let more = λ (f : A → ℕ). total-append f peer.inbox (task ∷ []) in
        let hs = λ (f : A → ℕ). both (held f) k peer there out q n in
        let bs = both busy k peer there out q n in
        let gs = both gone k peer there out q n in
        let le = total-member busy s.workers i w at in
        record {
          flow = λ f. omega (arith, c.flow f, hs f, more f);
          counted = omega (arith, c.counted, hs one, more one, bs, b);
          quiet = λ z. omega (arith, c.quiet (omega (arith, gs, g)), le, b);
        }

    module _ (own : Bool) (task : A) (worker : ℕ) (rest : List (A × Option ℕ)) where
      abbrev target : ℕ
      target = min worker (length s.workers - 1)

      spawn_at-own : target ≡ i → spawn_at s i w own task worker rest ≡ spawn s i w own task rest
      unfolding spawn_at
      spawn_at-own e = ground arith

      spawn_at-none :
          target ≢ i → get_elem? s.workers target ≡ none → spawn_at s i w own task worker rest ≡ s
      unfolding spawn_at
      spawn_at-none n q = ground arith

      spawn_at-other :
          (peer : Worker A)
          → target ≢ i
          → get_elem? s.workers target ≡ some peer
          → spawn_at s i w own task worker rest
            ≡ signal_work
                (record (put_worker
                  (put_worker s target (record peer { inbox = peer.inbox ++ task ∷ [] }))
                  i
                  (record w { pc = running own rest })) {
                    outstanding = (s.outstanding + 1) % word;
                    spawned = task ∷ s.spawned;
                  })
      unfolding spawn_at
      spawn_at-other peer n q = ground arith

      pub spawn_at-Conserved :
          busy w ≡ 1 → gone w ≡ 0 → Conserved (spawn_at s i w own task worker rest)
      spawn_at-Conserved b g = elim (ℕ_discrete target i) [
        | yes e ↦ subst Conserved (sym (spawn_at-own e)) (spawn-Conserved own task rest b g)
        | no n ↦ elim (Option-cases (get_elem? s.workers target)) [
          | inl q ↦ subst Conserved (sym (spawn_at-none n q)) c
          | inr (peer, q) ↦
              subst Conserved (sym (spawn_at-other peer n q))
                (deposit-Conserved own task rest target peer b g q n)
        ]
      ]

    -- A worker that takes a task of its own.
    pub pops-Conserved :
        (children : A → List (A × Option ℕ)) (task : A) (rest : List A)
        → w.deque ≡ rest ++ task ∷ []
        → busy w ≡ 0
        → gone w ≡ 0
        → Conserved
            (record (put_worker s i
              (record w { deque = rest; pc = running true (children task) })) {
                executed = task ∷ s.executed;
              })
    unfolding put_worker
    pops-Conserved children task rest e b g =
        let more = λ (f : A → ℕ). ap (total f) e ∙ total-append f rest (task ∷ []) in
        one-Conserved i (record w { deque = rest; pc = running true (children task) }) c at refl
          (λ f. omega (arith, more f)) (λ t t' o le m. omega (arith, b, more one))
          (λ t t' o le m n q d. omega (arith, b, more one, q (omega arith)))

    -- A thief that takes a task and moves others.
    steals-Conserved :
        (children : A → List (A × Option ℕ)) (task : A) (rest : List A) (k moved : ℕ)
        (victim : Worker A)
        → get_elem? s.workers k ≡ some victim
        → k ≢ i
        → victim.deque ≡ task ∷ rest
        → busy w ≡ 0
        → gone w ≡ 0
        → Conserved
            (record (put_worker
              (put_worker s k (record victim { deque = drop moved rest }))
              i
              (record w {
                deque = w.deque ++ take moved rest;
                pc = running false (children task);
              })) { executed = task ∷ s.executed })
    unfolding put_worker
    steals-Conserved children task rest k moved victim q n e b g =
        let there : Worker A = record victim { deque = drop moved rest } in
        let out : Worker A = record w {
          deque = w.deque ++ take moved rest;
          pc = running false (children task);
        } in
        let hs = λ (f : A → ℕ). both (held f) k victim there out q n in
        let more = λ (f : A → ℕ). total-append f w.deque (take moved rest) in
        let less = λ (f : A → ℕ). total-take-drop f moved rest in
        let was = λ (f : A → ℕ). ap (total f) e in
        let bs = both busy k victim there out q n in
        let gs = both gone k victim there out q n in
        let le = total-member (held one) s.workers k victim q in
        let balance : alive (record s { workers = set (set s.workers k there) i out }) ≡ alive s =
          omega (arith, hs one, more one, less one, was one, bs, b) in
        record {
          flow = λ f. omega (arith, c.flow f, hs f, more f, less f, was f);
          counted = c.counted ∙ ap (λ a. a % word) (sym balance);
          quiet = λ z. balance ∙ c.quiet (omega (arith, gs, g));
        }

  module _ (children : A → List (A × Option ℕ)) (s : Shared A) (i : ℕ) (w : Worker A)
      (c : Conserved s) (at : get_elem? s.workers i ≡ some w) where
    pub steal_one-Conserved :
        (k moved : ℕ) → busy w ≡ 0 → gone w ≡ 0 → Conserved (steal_one children s i w k moved)
    unfolding steal_one
    steal_one-Conserved k moved b g = elim (Bool-cases (k == i)) [
      | inl same ↦ rw same c
      | inr other ↦ elim (Option-cases (get_elem? s.workers k)) [
        | inl missing ↦ rw (other, missing) c
        | inr (victim, q) ↦ rw (other, q) (from_deque victim q (ground arith) victim.deque refl)
      ]
    ]
      where
        from_deque :
            (victim : Worker A)
            → get_elem? s.workers k ≡ some victim
            → k ≢ i
            → (deque : List A) → victim.deque ≡ deque
            → Conserved (elim deque [
              | [] ↦ s
              | task ∷ rest ↦
                  record (put_worker
                    (put_worker s k (record victim { deque = drop moved rest }))
                    i
                    (record w {
                      deque = w.deque ++ take moved rest;
                      pc = running false (children task);
                    })) { executed = task ∷ s.executed }
            ])
        from_deque victim q n [] e = c
        from_deque victim q n (task ∷ rest) e =
            steals-Conserved s i w c at children task rest k moved victim q n e b g
