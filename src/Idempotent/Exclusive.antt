-- ===== src/Idempotent/Exclusive.antt =====
-- src/idempotent.rs: the claims of exclusive thieves on a bounded queue, however their steps follow one
-- another.
use ws_deque.Base.{
  ℕ, zero, suc, ◌+◌, ◌≤◌, ◌≡◌, refl, sym, ap, ◌∙◌, Bool, true, false, Bool-cases, inl, inr,
  Option-cases, none, some, List, [], ◌∷◌, if◌then◌else◌, ◌==◌, leb, length, get_or, get_elem?, set,
  arith, get_or-set_ne,
}
use mathlib.Core.Path.{subst}
use ws_deque.Distributed.Weight.{total-set}
use ws_deque.Idempotent.{
  Inner, IdempotentWorker, make, with_len, create_bounded, put, claim_flag, fetch_max,
}
use ws_deque.Idempotent.Copy.{get_or-replicate}
use ws_deque.Idempotent.Calls.{claim_flag-current}
use ws_deque.Idempotent.Threads.{
  Pc, idle, loaded, holding, moving, Thief, System, fresh_thief, returns, exclusive_step, Reach,
  start, puts, moves, clones, steps, times_in, times_pc, times_by, times,
}

abbrev flag : Bool → ℕ
flag b = if b then 1 else 0

-- A slot whose claim is won is there, and was not claimed.
set-claimed :
    (claimed : List Bool) (h : ℕ)
    → get_or claimed h true ≡ false
    → (get_or claimed h false ≡ false) × (get_or (set claimed h true) h false ≡ true)
set-claimed [] h won = absurd (cc)
set-claimed (c ∷ claimed) zero won = (won, refl)
set-claimed (c ∷ claimed) (suc h) won = set-claimed claimed h won

-- A won claim counts once.
claimed-counts :
    (claimed : List Bool) (h j : ℕ)
    → get_or claimed h true ≡ false
    → (if h == j then 1 else 0) + flag (get_or claimed j false)
      ≡ flag (get_or (set claimed h true) j false)
claimed-counts claimed h j won = elim (Bool-cases (h == j)) [
  | inl t ↦
      let same : h ≡ j = ground arith in
      let (old, now) =
        subst (λ k. (get_or claimed k false ≡ false) × (get_or (set claimed h true) k false ≡ true))
          same (set-claimed claimed h won) in
      rw (t, old, now) refl
  | inr f ↦
      let other : get_or (set claimed h true) j false ≡ get_or claimed j false =
        get_or-set_ne claimed h j true false (λ e. absurd (ground arith)) in
      rw (f, other) (omega arith)
]

module _ {ℓ} {A : Type ℓ} where
  -- A bounded queue never grows.
  pub record Fixed (w : IdempotentWorker A) : Type ℓ where
    pub bounded : w.inner.bounded ≡ true
    pub retired : w.inner.retired ≡ []
    pub wide : w.cap + 2 ≤ w.inner.tasks.tasks_len

  put-Fixed :
      (w : IdempotentWorker A) (v : A)
      → Fixed w
      → Fixed (put w v).1 × ((put w v).1.inner.tasks.claimed ≡ w.inner.tasks.claimed)
  unfolding put
  put-Fixed w v f = elim (Bool-cases (leb w.cap w.tail)) [
    | inl full ↦ let e : put w v ≡ (false, w) = let b = f.bounded in ground arith in rw e (f, refl)
    | inr more ↦
        let b = f.bounded in
        let n : leb w.inner.tasks.tasks_len (w.tail + 1) ≡ false = let q = f.wide in ground arith in
        let e : put w v ≡ (
          true,
          record w {
            inner = record w.inner {
              tasks = record w.inner.tasks {
                cells = set (set w.inner.tasks.cells w.tail (some v)) (w.tail + 1) none;
              };
            };
            tail = w.tail + 1;
          },
        ) =
          ground arith in
        rw e (record { bounded = f.bounded; retired = f.retired; wide = f.wide }, refl)
  ]

  -- A thief that holds a task loaded the array that is still the one in use.
  unfoldable pub First : Pc A → Type 0
  First idle = Unit
  First (loaded h) = Unit
  First (holding h k v) = k ≡ 0
  First (moving h r) = Unit

  pub record Sound (sys : System A) : Type ℓ where
    pub fixed : Fixed sys.worker
    pub first : (i : ℕ) (t : Thief A) → get_elem? sys.thieves i ≡ some t → First t.pc
    pub once : (h : ℕ) → times h sys.thieves ≡ flag (get_or sys.worker.inner.tasks.claimed h false)

  first-set :
      (ts : List (Thief A)) (i : ℕ) (t' : Thief A)
      → First t'.pc
      → ((j : ℕ) (t : Thief A) → get_elem? ts j ≡ some t → First t.pc)
      → (j : ℕ) (t : Thief A) → get_elem? (set ts i t') j ≡ some t
      → First t.pc
  first-set [] i t' f all j t e = absurd (cc)
  first-set (x ∷ ts) zero t' f all zero t e =
      let same : t' ≡ t = cc in subst (λ y. First y.pc) same f
  first-set (x ∷ ts) zero t' f all (suc j) t e = all (suc j) t e
  first-set (x ∷ ts) (suc i) t' f all zero t e = all zero t e
  first-set (x ∷ ts) (suc i) t' f all (suc j) t e =
      first-set ts i t' f (λ k y p. all (suc k) y p) j t e

  -- A step that claims a flag for each task that it wins.
  step-Sound :
      {sys : System A} (i : ℕ) (t t' : Thief A) (inner' : Inner A)
      → Sound sys
      → get_elem? sys.thieves i ≡ some t
      → Fixed (record sys.worker { inner = inner' })
      → First t'.pc
      → ((h : ℕ)
          → times_by h t' + flag (get_or sys.worker.inner.tasks.claimed h false)
            ≡ times_by h t + flag (get_or inner'.tasks.claimed h false))
      → Sound
          (record { worker = record sys.worker { inner = inner' }; thieves = set sys.thieves i t' })
  unfolding times
  step-Sound {sys} i t t' inner' s q f first more = record {
    fixed = f;
    first = first-set sys.thieves i t' first s.first;
    once = λ h. omega (arith, more h, s.once h, total-set (times_by h) sys.thieves i t t' q);
  }

  claimed-Sound :
      {sys : System A} (i : ℕ) (h k : ℕ) (v : A) (past : List (ℕ × A))
      → Sound sys
      → get_elem? sys.thieves i ≡ some (record { pc = holding h k v; returned = past })
      → k ≡ length sys.worker.inner.retired
      → Sound (record {
        worker = record sys.worker { inner = (claim_flag sys.worker.inner k h).1 };
        thieves = set sys.thieves i (record {
          pc = moving h (if (claim_flag sys.worker.inner k h).0 then some v else none);
          returned = past;
        });
      })
  claimed-Sound {sys} i h k v past s q same =
      let inner = sys.worker.inner in
      let c = ap (λ n. claim_flag inner n h) same ∙ claim_flag-current inner h in
      elim (Bool-cases (get_or inner.tasks.claimed h true)) [
        | inl lost ↦
            rw (c, lost)
              (step-Sound i _ (record { pc = moving h none; returned = past }) inner s q s.fixed
                (unfold First in tt) (λ j. unfold times_by times_pc in omega arith))
        | inr won ↦
            rw (c, won)
              (step-Sound i _ (record { pc = moving h (some v); returned = past }) _ s q
                (record {
                  bounded = s.fixed.bounded;
                  retired = s.fixed.retired;
                  wide = s.fixed.wide;
                })
                (unfold First in tt)
                (λ j.
                  unfold times_by times_pc in
                  omega (arith, claimed-counts inner.tasks.claimed h j won)))
      ]

  exclusive-Sound :
      {sys : System A} (i : ℕ) (pc : Pc A) (past : List (ℕ × A))
      → Sound sys
      → get_elem? sys.thieves i ≡ some (record { pc = pc; returned = past })
      → Sound (record {
        worker = record sys.worker {
          inner = (exclusive_step sys.worker.inner (record { pc = pc; returned = past })).0;
        };
        thieves =
            set sys.thieves i
              (exclusive_step sys.worker.inner (record { pc = pc; returned = past })).1;
      })
  unfolding exclusive_step
  exclusive-Sound {sys} i idle past s q =
      step-Sound i _ _ sys.worker.inner s q s.fixed (unfold First in tt)
        (λ j. unfold times_by times_pc in omega arith)
  exclusive-Sound {sys} i (loaded h) past s q =
      elim (Option-cases (get_or sys.worker.inner.tasks.cells h none)) [
        | inl e ↦
            rw (e, exclusive_step)
              (step-Sound i _ (record { pc = idle; returned = past }) sys.worker.inner s q s.fixed
                (unfold First in tt) (λ j. unfold times_by times_pc in omega arith))
        | inr (v, e) ↦
            rw (e, exclusive_step)
              (step-Sound i _
                (record { pc = holding h (length sys.worker.inner.retired) v; returned = past })
                sys.worker.inner s q s.fixed (unfold First in ap length s.fixed.retired)
                (λ j. unfold times_by times_pc in omega arith))
      ]
  exclusive-Sound {sys} i (holding h k v) past s q =
      let f : k ≡ 0 = unfold First in s.first i _ q in
      claimed-Sound i h k v past s q (f ∙ sym (ap length s.fixed.retired))
  exclusive-Sound {sys} i (moving h none) past s q =
      step-Sound i _ _ (fetch_max sys.worker.inner (h + 1)) s q
        (unfold fetch_max in
          record { bounded = s.fixed.bounded; retired = s.fixed.retired; wide = s.fixed.wide })
        (unfold First in tt) (λ j. unfold fetch_max returns times_by times_pc in omega arith)
  exclusive-Sound {sys} i (moving h (some v)) past s q =
      step-Sound i _ _ (fetch_max sys.worker.inner (h + 1)) s q
        (unfold fetch_max in
          record { bounded = s.fixed.bounded; retired = s.fixed.retired; wide = s.fixed.wide })
        (unfold First in tt)
        (λ j. unfold fetch_max returns times_by times_pc times_in in omega arith)

  start-Sound : (limit : ℕ) → Sound (record { worker = create_bounded limit; thieves = [] })
  unfolding create_bounded make times
  start-Sound limit = record {
    fixed = record { bounded = refl; retired = refl; wide = unfold with_len in omega arith };
    first = λ i t e. absurd (cc);
    once = λ h. sym (ap flag (get_or-replicate (limit + 2) h false));
  }

  first-cons :
      (ts : List (Thief A))
      → ((j : ℕ) (t : Thief A) → get_elem? ts j ≡ some t → First t.pc)
      → (j : ℕ) (t : Thief A) → get_elem? (fresh_thief ∷ ts) j ≡ some t
      → First t.pc
  first-cons ts all zero t e =
      let same : fresh_thief ≡ t = cc in subst (λ y. First y.pc) same (unfold First in tt)
  first-cons ts all (suc j) t e = all j t e

  times-fresh : (h : ℕ) (ts : List (Thief A)) → times h (fresh_thief ∷ ts) ≡ times h ts
  unfolding times times_by times_pc times_in
  times-fresh h ts = omega arith

  reach-Sound : (limit : ℕ) {sys : System A} → Reach limit sys → Sound sys
  reach-Sound limit start = start-Sound limit
  reach-Sound limit (puts {sys = sys} v r) =
      let s = reach-Sound limit r in
      let (f, same) = put-Fixed sys.worker v s.fixed in
      record { fixed = f; first = s.first; once = λ h. rw same (s.once h) }
  reach-Sound limit (moves h r) =
      let s = reach-Sound limit r in
      record {
        fixed = record {
          bounded = s.fixed.bounded;
          retired = s.fixed.retired;
          wide = s.fixed.wide;
        };
        first = s.first;
        once = s.once;
      }
  reach-Sound limit (clones {sys = sys} r) =
      let s = reach-Sound limit r in
      record {
        fixed = s.fixed;
        first = first-cons sys.thieves s.first;
        once = λ h. times-fresh h sys.thieves ∙ s.once h;
      }
  reach-Sound limit (steps i t r q) = exclusive-Sound i t.pc t.returned (reach-Sound limit r) q

  -- In every state that a bounded queue reaches, however the thieves' steps in steal_exclusive, the owner's
  -- puts and moves of the head follow one another, the task at an index whose flag is set was won by exactly
  -- one thief, and one whose flag is not set by none.
  pub reach-once :
      (limit : ℕ) {sys : System A}
      → Reach limit sys
      → (h : ℕ)
      → times h sys.thieves ≡ (if get_or sys.worker.inner.tasks.claimed h false then 1 else 0)
  reach-once limit r = (reach-Sound limit r).once
