-- ===== src/Idempotent/Deliver.antt =====
-- src/idempotent.rs: what the owner and the plain thieves are handed, however they follow one another.
use ws_deque.Base.{
  ℕ, zero, suc, ◌+◌, ◌≤◌, ◌<◌, ◌≡◌, refl, sym, ◌∙◌, ap, Bool, true, false, ◌&&◌, Bool-cases, inl,
  inr, Option-cases, none, some, List, [], ◌∷◌, ◌++◌, leb, get_or, get_elem?, set, arith,
  get_elem?-bound, get_elem?-append_left, get_elem?-set_self, get_elem?-set_ne,
}
use mathlib.Core.Path.{subst}
use native.Mathlib.Decide.{ℕ_discrete, dec_lt}
use ws_deque.Idempotent.{IdempotentWorker, create, create_bounded, make, put, fetch_max}
use ws_deque.Idempotent.Wrote.{Wrote, make-Wrote, full, put-refused, put-Stored}
use ws_deque.Idempotent.Takers.{
  At, resting, aimed, found, Taker, State, fresh_taker, plain_step, Visits, grows, is_bounded,
  accepts, joins, takes, Descends, Got, Given,
}

module _ {ℓ} {A : Type ℓ} where
  -- What holds of a consumer, in the place where it is.
  unfoldable pub Fits : List A → ℕ → List (ℕ × A) → At A → Type ℓ
  Fits ps head past resting = Descends ps head past
  Fits ps head past (aimed h) = (h ≤ head) × Descends ps h past
  Fits ps head past (found h v) = (h ≤ head) × (get_elem? ps h ≡ some v) × Descends ps h past

  pub record Sound (sys : State A) (ps : List A) : Type ℓ where
    pub wrote : Wrote sys.worker ps
    pub each :
        (i : ℕ) (t : Taker A)
        → get_elem? sys.takers i ≡ some t
        → Fits ps sys.worker.inner.head t.past t.place
    pub given : (j : ℕ) → j < sys.worker.inner.head → Given sys.takers j

  Descends-mono :
      (ps ps' : List A) (l : List (ℕ × A)) (b b' : ℕ)
      → ((j : ℕ) (v : A) → get_elem? ps j ≡ some v → get_elem? ps' j ≡ some v)
      → b ≤ b'
      → Descends ps b l
      → Descends ps' b' l
  unfolding Descends
  Descends-mono ps ps' [] b b' kept le f = tt
  Descends-mono ps ps' ((j, v) ∷ rest) b b' kept le (lt, q, f) =
      (omega arith, kept j v q, Descends-mono ps ps' rest j j kept (omega arith) f)

  Fits-mono :
      (ps ps' : List A) (l : List (ℕ × A)) (b b' : ℕ) (place : At A)
      → ((j : ℕ) (v : A) → get_elem? ps j ≡ some v → get_elem? ps' j ≡ some v)
      → b ≤ b'
      → Fits ps b l place
      → Fits ps' b' l place
  unfolding Fits
  Fits-mono ps ps' l b b' resting kept le f = Descends-mono ps ps' l b b' kept le f
  Fits-mono ps ps' l b b' (aimed h) kept le (low, f) =
      (omega arith, Descends-mono ps ps' l h h kept (omega arith) f)
  Fits-mono ps ps' l b b' (found h v) kept le (low, q, f) =
      (omega arith, kept h v q, Descends-mono ps ps' l h h kept (omega arith) f)

  -- One consumer changes, and the head may move on.
  set-each :
      (ps : List A) (ts : List (Taker A)) (i : ℕ) (t' : Taker A) (b b' : ℕ)
      → b ≤ b'
      → ((k : ℕ) (t : Taker A) → get_elem? ts k ≡ some t → Fits ps b t.past t.place)
      → Fits ps b' t'.past t'.place
      → (k : ℕ) (t : Taker A) → get_elem? (set ts i t') k ≡ some t
      → Fits ps b' t.past t.place
  set-each ps [] i t' b b' le old fresh k t e = absurd (cc)
  set-each ps (x ∷ ts) zero t' b b' le old fresh zero t e =
      let same : t' ≡ t = cc in subst (λ y. Fits ps b' y.past y.place) same fresh
  set-each ps (x ∷ ts) zero t' b b' le old fresh (suc k) t e =
      Fits-mono ps ps t.past b b' t.place (λ j v p. p) le (old (suc k) t e)
  set-each ps (x ∷ ts) (suc i) t' b b' le old fresh zero t e =
      Fits-mono ps ps t.past b b' t.place (λ j v p. p) le (old zero t e)
  set-each ps (x ∷ ts) (suc i) t' b b' le old fresh (suc k) t e =
      set-each ps ts i t' b b' le (λ k y p. old (suc k) y p) fresh k t e

  set-Given :
      {ts : List (Taker A)} {j : ℕ} (i : ℕ) (t t' : Taker A)
      → get_elem? ts i ≡ some t
      → (Got j t.past → Got j t'.past)
      → Given ts j
      → Given (set ts i t') j
  set-Given {ts} {j} i t t' q more g = elim (ℕ_discrete i g.who) [
    | yes same ↦
        let e : get_elem? ts i ≡ some g.taker = ap (get_elem? ts) same ∙ g.there in
        let value : g.taker ≡ t = cc in
        record {
          who = i;
          taker = t';
          there = get_elem?-set_self ts i t t' q;
          handed = more (subst (λ (x : Taker A). Got j x.past) value g.handed);
        }
    | no other ↦ record {
      who = g.who;
      taker = g.taker;
      there = get_elem?-set_ne ts i g.who t' other ∙ g.there;
      handed = g.handed;
    }
  ]

  -- A step that leaves the head alone.
  still-Sound :
      {sys : State A} {ps : List A} (i : ℕ) (t : Taker A) (place : At A)
      → Sound sys ps
      → get_elem? sys.takers i ≡ some t
      → Fits ps sys.worker.inner.head t.past place
      → Sound (record sys { takers = set sys.takers i (record t { place = place }) }) ps
  still-Sound {sys} {ps} i t place s q fits = record {
    wrote = s.wrote;
    each =
        set-each ps sys.takers i (record t { place = place }) sys.worker.inner.head
          sys.worker.inner.head (omega arith) s.each fits;
    given = λ j lt. set-Given i t (record t { place = place }) q (λ g. g) (s.given j lt);
  }

  -- The step that hands a task out.
  found-Sound :
      {sys : State A} {ps : List A} (i : ℕ) (t : Taker A) (h : ℕ) (v : A)
      → Sound sys ps
      → get_elem? sys.takers i ≡ some t
      → (h ≤ sys.worker.inner.head) × (get_elem? ps h ≡ some v) × Descends ps h t.past
      → Sound
          (record {
            worker = record sys.worker { inner = fetch_max sys.worker.inner (h + 1) };
            takers = set sys.takers i (record t { place = resting; past = (h, v) ∷ t.past });
          })
          ps
  unfolding fetch_max
  found-Sound {sys} {ps} i t h v s q (low, at_h, f) =
      let o = s.wrote in
      let t' : Taker A = record t { place = resting; past = (h, v) ∷ t.past } in
      let inside = get_elem?-bound ps h v at_h in
      record {
        wrote = record {
          tail_puts = o.tail_puts;
          head_tail = omega (arith, inside, o.tail_puts, o.head_tail);
          room = o.room;
          cells_len = o.cells_len;
          claimed_len = o.claimed_len;
          bound = o.bound;
          held = o.held;
          unclaimed = λ k a b. o.unclaimed k (omega arith) b;
        };
        each =
            set-each ps sys.takers i t' sys.worker.inner.head _ (omega arith) s.each
              (unfold Fits Descends in (omega arith, at_h, f));
        given = λ j lt. elim (dec_lt j sys.worker.inner.head) [
          | yes old ↦ set-Given i t t' q (λ g. unfold Got in inr g) (s.given j old)
          | no new ↦ record {
            who = i;
            taker = t';
            there = get_elem?-set_self sys.takers i t t' q;
            handed = unfold Got in inl (omega arith);
          }
        ];
      }

  taker-Sound :
      {sys : State A} {ps : List A} (i : ℕ) (owner : Bool) (place : At A) (past : List (ℕ × A))
      → Sound sys ps
      → get_elem? sys.takers i ≡ some (record { is_owner = owner; place = place; past = past })
      → Fits ps sys.worker.inner.head past place
      → Sound
          (record {
            worker = record sys.worker {
              inner =
                  (plain_step sys.worker
                    (record { is_owner = owner; place = place; past = past })).0;
            };
            takers =
                set sys.takers i
                  (plain_step sys.worker
                    (record { is_owner = owner; place = place; past = past })).1;
          })
          ps
  unfolding plain_step
  taker-Sound {sys} i owner resting past s q fits =
      elim (Bool-cases (owner && leb sys.worker.tail sys.worker.inner.head)) [
        | inl none_left ↦ rw (none_left, plain_step) (still-Sound i _ resting s q fits)
        | inr more ↦
            rw (more, plain_step)
              (still-Sound i _ (aimed sys.worker.inner.head) s q
                (unfold Fits in (omega arith, unfold Fits in fits)))
      ]
  taker-Sound {sys} {ps} i owner (aimed h) past s q fits =
      let (low, f) : (h ≤ sys.worker.inner.head) × Descends ps h past = unfold Fits in fits in
      elim (Option-cases (get_or sys.worker.inner.tasks.cells h none)) [
        | inl e ↦
            rw (e, plain_step)
              (still-Sound i _ resting s q
                (unfold Fits in Descends-mono ps ps past h _ (λ j v p. p) low f))
        | inr (v, e) ↦
            let at_h : get_elem? ps h ≡ some v = sym (s.wrote.held h) ∙ e in
            rw (e, plain_step) (still-Sound i _ (found h v) s q (unfold Fits in (low, at_h, f)))
      ]
  taker-Sound {sys} i owner (found h v) past s q fits =
      found-Sound i _ h v s q (unfold Fits in fits)

  fresh-Sound :
      (w : IdempotentWorker A)
      → Wrote w []
      → w.inner.head ≡ 0
      → Sound (record { worker = w; takers = fresh_taker true ∷ [] }) []
  fresh-Sound w o none_taken = record {
    wrote = o;
    each = only;
    given = λ j lt. absurd (omega (arith, none_taken));
  }
    where
      only :
          (i : ℕ) (t : Taker A)
          → get_elem? (fresh_taker true ∷ []) i ≡ some t
          → Fits [] w.inner.head t.past t.place
      only zero t e =
          let same : fresh_taker true ≡ t = cc in
          subst (λ y. Fits [] w.inner.head y.past y.place) same (unfold Fits Descends in tt)
      only (suc i) t e = absurd (cc)

  accept-Sound :
      {sys : State A} {ps : List A} (v : A)
      → Sound sys ps
      → (put sys.worker v).0 ≡ true
      → Sound (record sys { worker = (put sys.worker v).1 }) (ps ++ v ∷ [])
  accept-Sound {sys} {ps} v s done = elim (Bool-cases (full sys.worker)) [
    | inl f ↦
        let refused : (put sys.worker v).0 ≡ false =
          ap (λ o. o.0) (put-refused {w = sys.worker} v f) in
        absurd (cc)
    | inr f ↦
        let (_, k) = put-Stored v s.wrote f in
        record {
          wrote = k.wrote;
          each = λ i t e.
              Fits-mono ps (ps ++ v ∷ []) t.past _ _ t.place
                (λ j x p. get_elem?-append_left ps (v ∷ []) j (get_elem?-bound ps j x p) ∙ p)
                (omega (arith, k.same_head)) (s.each i t e);
          given = λ j lt. s.given j (omega (arith, k.same_head));
        }
  ]

  -- A thief joins.
  each-joined :
      (ps : List A) (b : ℕ) (ts : List (Taker A))
      → ((k : ℕ) (t : Taker A) → get_elem? ts k ≡ some t → Fits ps b t.past t.place)
      → (k : ℕ) (t : Taker A) → get_elem? (ts ++ fresh_taker false ∷ []) k ≡ some t
      → Fits ps b t.past t.place
  each-joined ps b [] old zero t e =
      let same : fresh_taker false ≡ t = cc in
      subst (λ y. Fits ps b y.past y.place) same (unfold Fits Descends in tt)
  each-joined ps b [] old (suc k) t e = absurd (cc)
  each-joined ps b (x ∷ ts) old zero t e = old zero t e
  each-joined ps b (x ∷ ts) old (suc k) t e = each-joined ps b ts (λ j y p. old (suc j) y p) k t e

  visits-Sound : {sys : State A} {ps : List A} → Visits sys ps → Sound sys ps
  unfolding create create_bounded make
  visits-Sound grows = fresh-Sound _ (make-Wrote 16 false _ (omega arith) (λ b. absurd (cc))) refl
  visits-Sound (is_bounded limit) =
      fresh-Sound _ (make-Wrote (limit + 2) true limit (omega arith) (λ _. omega arith)) refl
  visits-Sound (accepts v r done) = accept-Sound v (visits-Sound r) done
  visits-Sound {ps = ps} (joins {sys = sys} r) =
      let s = visits-Sound r in
      record {
        wrote = s.wrote;
        each = each-joined ps sys.worker.inner.head sys.takers s.each;
        given = λ j lt.
            let g = s.given j lt in
            record {
              who = g.who;
              taker = g.taker;
              there =
                  get_elem?-append_left sys.takers (fresh_taker false ∷ []) g.who
                    (get_elem?-bound sys.takers g.who g.taker g.there)
                  ∙ g.there;
              handed = g.handed;
            };
      }
  visits-Sound (takes i t r q) =
      let s = visits-Sound r in taker-Sound i t.is_owner t.place t.past s q (s.each i t q)

  past-Fits :
      (ps : List A) (b : ℕ) (l : List (ℕ × A)) (place : At A) → Fits ps b l place → Descends ps b l
  unfolding Fits
  past-Fits ps b l resting f = f
  past-Fits ps b l (aimed h) (low, f) = Descends-mono ps ps l h b (λ j v p. p) low f
  past-Fits ps b l (found h v) (low, q, f) = Descends-mono ps ps l h b (λ j v p. p) low f

  -- In every state that the owner and any number of plain thieves reach, with any interleaving of the loads of
  -- the head and of the cells, the updates of the head, and puts that may grow the array, each task whose index
  -- is before the head was returned by at least one of them, and what that one returned are tasks that were
  -- put, each at an index before the head, in the order in which they were put and none of them twice.
  pub visits-Given :
      {sys : State A} {ps : List A} (j : ℕ)
      → Visits sys ps
      → j < sys.worker.inner.head
      → (g : Given sys.takers j) × Descends ps sys.worker.inner.head g.taker.past
  visits-Given {sys} {ps} j r lt =
      let s = visits-Sound r in
      let g = s.given j lt in
      (
        g,
        past-Fits ps sys.worker.inner.head g.taker.past g.taker.place
            (s.each g.who g.taker g.there),
      )
