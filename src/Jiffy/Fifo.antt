-- ===== src/Jiffy/Fifo.antt =====
-- Producers and the consumer of src/jiffy.rs in any order: the values come out in the order in which their
-- indices were claimed, none is lost or handed out twice, and no null pointer is followed.
use ws_deque.Base.{
  ℕ, zero, suc, ◌+◌, ◌≤◌, ◌<◌, ◌≡◌, ◌≢◌, ◌⊎◌, refl, sym, ap, ◌∙◌, Option, none, some, List, [], ◌∷◌,
  ◌++◌, arith, ltb, ◌==◌, length, get_elem?, set, take, replicate, inl, inr, Bool-cases,
  Option-cases, get_elem?_of_ge,
}
use mathlib.Core.Path.{subst}
use native.Mathlib.Decide.{dec_lt}
use ws_deque.Jiffy.{
  vacant, Slot, Buffer, Inner, Pc, idle, claimed, linking, advancing, walking, storing, stored,
  lost, buffer_at, locate_tail_buffer, locate_from_head, producer_step, dequeue_round, dequeue,
  channel,
}
use ws_deque.Jiffy.Flat.{start_of, start_of_mono, start_of_suc, flat-linked, Shape-linked}
use ws_deque.Jiffy.Order.{Queue, state_at, claim_of, Slots, Pending, Works, Team}
use ws_deque.Jiffy.Steps.{
  Slots-Alike, Team-Alike, Team-same, Alike-same, base-buffer, link-Alike, advance_tail-Alike,
  claim-Slots, claim-Team, Pending-Alike,
}
use ws_deque.Jiffy.Fill.{fill-Slots, fill-Team, take-Slots, take-Team}
use ws_deque.Jiffy.Dequeue.{
  Round, at_end, waits, next_buffer, hands_out, dequeue_round-Round, next_buffer-Alike,
}

module _ {ℓ} {A : Type ℓ} (n : ℕ) where
  -- The claims after a step of a producer: an idle one claims the next index for `v`.
  abbrev pub claims_after : Pc A → A → List A → List A
  claims_after idle v claims = claims ++ v ∷ []
  claims_after _ v claims = claims

  unfoldable pub produce : Queue A → ℕ → A → Queue A
  produce q i v = elim (get_elem? q.producers i) [
    | none ↦ q
    | some p ↦
        let (inner, p') = producer_step n v q.inner p in
        record q {
          inner = inner;
          producers = set q.producers i p';
          claims = claims_after p v q.claims;
        }
  ]

  -- A round of the consumer's `dequeue`.
  unfoldable pub consume : Queue A → Queue A
  consume q =
      let (out, inner) = dequeue_round n q.inner in
      let kept = record q { inner = inner } in
      elim out [
        | none ↦ kept
        | some reply ↦ elim reply [
          | none ↦ kept
          | some x ↦ record kept { taken = q.taken ++ x ∷ [] }
        ]
      ]

  pub record Sound (q : Queue A) : Type ℓ where
    pub slots : Slots n q.inner q.claims q.taken
    pub team : Team n q.inner q.claims q.producers

  module _ (i : ℕ) (v : A) {inner : Inner A} {claims taken : List A} {producers : List (Pc A)}
      (s : Slots n inner claims taken) (t : Team n inner claims producers) where
    -- A producer looks at `tail_buf`.
    locate-Works :
        (g : ℕ) (u : A)
        → Pending n inner claims g u
        → Works n inner claims (locate_tail_buffer n inner g u)
          × (claim_of (locate_tail_buffer n inner g u) ≡ some g)
    unfolding locate_tail_buffer
    locate-Works g u w =
        let base = (buffer_at n inner inner.tail_buf).base in
        let e : base ≡ start_of n inner.tail_buf = base-buffer n inner.tail_buf s s.tail_in in
        elim (Bool-cases (ltb g base)) [
          | inl before ↦
              let less : g < base = ground arith in
              let past_head : inner.head ≤ g = not-handled g w.untouched in
              let m =
                start_of_mono n inner.tail_buf (length inner.buffers) (omega (arith, s.tail_in)) in
              rw before (
                (w, s.head_in, omega (arith, s.head_base, past_head), omega (arith, less, e, m)),
                refl,
              )
          | inr not_before ↦ elim (Bool-cases (ltb g (base + n))) [
            | inl inside ↦
                let lo : base ≤ g = ground arith in
                let hi : g < base + n = ground arith in
                rw (not_before, inside)
                  ((w, s.tail_in, omega (arith, lo, e), omega (arith, hi, e)), refl)
            | inr beyond ↦ rw (not_before, beyond) ((w, s.tail_in), refl)
          ]
        ]
      where
        not-handled : (g : ℕ) → state_at n inner g ≡ vacant → inner.head ≤ g
        not-handled g e = elim (dec_lt g inner.head) [
          | yes less ↦ let f = s.behind g less in absurd (cc)
          | no more ↦ omega (arith, more)
        ]

    walk-Works :
        (g : ℕ) (u : A) (b : ℕ)
        → Works n inner claims (walking g u b)
        → Works n inner claims (locate_from_head n inner g u b)
          × (claim_of (locate_from_head n inner g u b) ≡ some g)
    unfolding locate_from_head
    walk-Works g u b w =
        let base = (buffer_at n inner b).base in
        let e : base ≡ start_of n b = base-buffer n b s w.1 in
        elim (Bool-cases (ltb g (base + n))) [
          | inl inside ↦
              let hi : g < base + n = ground arith in
              rw inside ((w.0, w.1, w.2, omega (arith, hi, e)), refl)
          | inr beyond ↦
              let past_it : base + n ≤ g = ground arith in
              elim (Bool-cases (ltb (b + 1) (length inner.buffers))) [
                | inl more ↦
                    let h : b + 1 < length inner.buffers = ground arith in
                    let next_base : start_of n (b + 1) ≤ g =
                      omega (arith, start_of_suc n b, past_it, e) in
                    rw (beyond, more) ((w.0, h, next_base, w.3), refl)
                | inr last ↦
                    let all : length inner.buffers ≤ suc b = ground arith in
                    let m = start_of_mono n (length inner.buffers) (suc b) all in
                    absurd (omega (arith, m, w.3, past_it, e))
              ]
        ]

    -- One step of one producer keeps the invariant.
    step-Sound :
        (p : Pc A)
        → get_elem? producers i ≡ some p
        → let (inner', p') = producer_step n v inner p in
          Slots n inner' (claims_after p v claims) taken
          × Team n inner' (claims_after p v claims) (set producers i p')
    unfolding producer_step
    step-Sound idle at = (claim-Slots n v s, claim-Team n i v s t at)
    step-Sound (claimed g u) at =
        let w = t.works i (claimed g u) at in
        (
          s,
          Team-Alike n i (claimed g u) (locate_tail_buffer n inner g u) t at (Alike-same n s)
              (locate-Works g u w).1 (locate-Works g u w).0,
        )
    step-Sound (linking g u b) at =
        let w = t.works i (linking g u b) at in
        let a = link-Alike n b s w.1 in
        (
          Slots-Alike n s a,
          Team-Alike n i (linking g u b) (advancing g u b) t at a refl (Pending-Alike n w.0 a),
        )
    step-Sound (advancing g u b) at =
        let w = t.works i (advancing g u b) at in
        let a = advance_tail-Alike n b s in
        (
          Slots-Alike n s a,
          Team-Alike n i (advancing g u b) (claimed g u) t at a refl (Pending-Alike n w a),
        )
    step-Sound (walking g u b) at =
        let w = t.works i (walking g u b) at in
        (
          s,
          Team-Alike n i (walking g u b) (locate_from_head n inner g u b) t at (Alike-same n s)
              (walk-Works g u b w).1 (walk-Works g u b w).0,
        )
    step-Sound (storing g u b) at = (fill-Slots n i g b u s t at, fill-Team n i g b u s t at)
    step-Sound (stored b offset) at =
        let w = t.works i (stored b offset) at in
        let a = link-Alike n b s w.0 in
        elim (Bool-cases (offset + 2 == n)) [
          | inl e ↦ rw e (Slots-Alike n s a, Team-Alike n i (stored b offset) idle t at a refl tt)
          | inr e ↦ rw e (s, Team-Alike n i (stored b offset) idle t at (Alike-same n s) refl tt)
        ]
    step-Sound (lost g u) at = absurd (t.works i (lost g u) at).0

  produce-Sound : {q : Queue A} (i : ℕ) (v : A) → Sound q → Sound (produce q i v)
  unfolding produce
  produce-Sound {q} i v sound = elim (Option-cases (get_elem? q.producers i)) [
    | inl e ↦ let same : produce q i v ≡ q = ground arith in rw same sound
    | inr (p, e) ↦
        let (s, t) = step-Sound i v sound.slots sound.team p e in
        let (inner, p') = producer_step n v q.inner p in
        let same : produce q i v ≡ record q {
          inner = inner;
          producers = set q.producers i p';
          claims = claims_after p v q.claims;
        } =
          ground arith in
        rw same (record { slots = s; team = t })
  ]

  consume-Sound : {q : Queue A} → Sound q → Sound (consume q)
  unfolding consume
  consume-Sound {q} sound =
      by_round (dequeue_round n q.inner) refl (dequeue_round-Round n sound.slots)
    where
      by_round :
          (r : Option (Option A) × Inner A)
          → dequeue_round n q.inner ≡ r
          → Round n q.inner q.claims r
          → Sound (consume q)
      by_round r e (at_end h) = let same : consume q ≡ q = ground arith in rw same sound
      by_round r e (waits more v) = let same : consume q ≡ q = ground arith in rw same sound
      by_round r e (next_buffer {inner' = inner'} at h at_next) =
          let same : consume q ≡ record q { inner = inner' } = ground arith in
          let a = next_buffer-Alike n sound.slots h at_next in
          rw (same, at)
            (record { slots = Slots-Alike n sound.slots a; team = Team-same n sound.team a })
      by_round r e (hands_out {inner' = inner'} x brings more room here at) =
          let same : consume q ≡ record q { inner = inner'; taken = q.taken ++ x ∷ [] } =
            ground arith in
          rw (same, at)
            (record {
              slots = take-Slots n x sound.slots sound.team more here room;
              team = take-Team n x sound.slots sound.team more here room;
            })

  -- What producers and the consumer may have done since the start; `k` producers, and each step is that of
  -- one of them, with the value for its next `enqueue`, or a round of the consumer.
  pub data Reach (k : ℕ) : Queue A → Type ℓ where
    start :
        {q : Queue A}
        → q ≡ record { inner = channel n; producers = replicate k idle; claims = []; taken = [] }
        → Reach k q
    produces : {q r : Queue A} (i : ℕ) (v : A) → Reach k q → r ≡ produce q i v → Reach k r
    consumes : {q r : Queue A} → Reach k q → r ≡ consume q → Reach k r

  replicate-idle : (k i : ℕ) (p : Pc A) → get_elem? (replicate k idle) i ≡ some p → p ≡ idle
  replicate-idle zero i p e = absurd (cc)
  replicate-idle (suc k) zero p e = cc
  replicate-idle (suc k) (suc i) p e = replicate-idle k i p e

  start-Sound :
      (k : ℕ)
      → Sound (record { inner = channel n; producers = replicate k idle; claims = []; taken = [] })
  unfolding channel
  start-Sound k =
      let no_buffers : List (Buffer A) = [] in
      let empty = λ (g : ℕ). flat-linked n no_buffers 0 g in
      record {
        slots = record {
          shape = Shape-linked n 0 no_buffers 0 tt refl;
          tail_in = omega arith;
          head_in = omega arith;
          head_base = omega arith;
          near = omega arith;
          head_tail = omega arith;
          all_claims = refl;
          in_order = refl;
          fresh = λ g _. empty g;
          full = λ g e. let f = ap (λ (c : Slot A). c.state) (empty g) in absurd (cc);
          ahead = λ g e. let f = ap (λ (c : Slot A). c.state) (empty g) in absurd (cc);
          behind = λ g h. absurd (omega arith);
        };
        team = record {
          works = λ i p e. subst (Works n (channel n) []) (sym (replicate-idle k i p e)) tt;
          apart = λ i j p q g e f c d. let h = ap claim_of (replicate-idle k i p e) in absurd (cc);
          owned = λ g lo hi e. absurd (omega arith);
        };
      }

  Reach-Sound : {k : ℕ} {q : Queue A} → Reach k q → Sound q
  Reach-Sound {k} (start e) = rw e (start-Sound k)
  Reach-Sound (produces i v r e) = rw e (produce-Sound i v (Reach-Sound r))
  Reach-Sound (consumes r e) = rw e (consume-Sound (Reach-Sound r))

  -- In every state that producers and the consumer reach, in whatever order they step, the consumer was
  -- handed exactly the first `head` of the values, in the order in which their indices were claimed:
  -- none is lost, repeated or reordered.
  pub reach_in_order :
      {k : ℕ} {q : Queue A}
      → Reach k q
      → (q.taken ≡ take q.inner.head q.claims)
        × (length q.claims ≡ q.inner.tail)
        × (q.inner.head ≤ q.inner.tail)
  reach_in_order r = let s = (Reach-Sound r).slots in (s.in_order, s.all_claims, s.head_tail)

  -- No producer ever follows a null pointer: in every state that is reached none is lost.
  pub never_lost :
      {k : ℕ} {q : Queue A} (i : ℕ) (p : Pc A) (g : ℕ) (v : A)
      → Reach k q
      → get_elem? q.producers i ≡ some p
      → p ≢ lost g v
  never_lost i p g v r at same = ((Reach-Sound r).team.works i (lost g v) (at ∙ ap some same)).0

  -- A round that goes on to the next buffer is followed by one that returns.
  module _ {q : Queue A} (room : 0 < n) (sound : Sound q) where
    moved-Slots :
        q.inner.head_buf + 1 < length q.inner.buffers
        → q.inner.head ≡ start_of n (q.inner.head_buf + 1)
        → Slots n (record q.inner { head_buf = q.inner.head_buf + 1 }) q.claims q.taken
    moved-Slots h at_next = Slots-Alike n sound.slots (next_buffer-Alike n sound.slots h at_next)

    -- What a call of `dequeue` finds.
    abbrev pub Found : Option (Option A) → Type ℓ
    Found out =
        (out ≡ some (get_elem? q.claims q.inner.head))
        ⊎ ((out ≡ some none)
            × (q.inner.head < q.inner.tail)
            × (state_at n q.inner q.inner.head ≡ vacant))

    none-Found :
        (out : Option (Option A)) → out ≡ some none → q.inner.tail ≤ q.inner.head → Found out
    none-Found out e h =
        let gone : get_elem? q.claims q.inner.head ≡ none =
          get_elem?_of_ge q.claims q.inner.head (omega (arith, h, sound.slots.all_claims)) in
        inl (e ∙ ap some (sym gone))

    second-Found :
        {inner : Inner A}
        → inner ≡ record q.inner { head_buf = q.inner.head_buf + 1 }
        → q.inner.head ≡ start_of n (q.inner.head_buf + 1)
        → (r : Option (Option A) × Inner A)
        → Round n (record q.inner { head_buf = q.inner.head_buf + 1 }) q.claims r
        → Found r.0
    second-Found e at_next r (at_end h) = none-Found (some none) refl h
    second-Found e at_next r (waits more v) = inr (refl, more, v)
    second-Found e at_next r (next_buffer _ h at) =
        absurd (omega (arith, at_next, at, room, start_of_suc n (q.inner.head_buf + 1)))
    second-Found e at_next r (hands_out x brings more small here _) = inl (ap some (sym brings))

    dequeue-Found : Found (dequeue n 2 q.inner).0
    unfolding dequeue
    dequeue-Found = first (dequeue_round n q.inner) refl (dequeue_round-Round n sound.slots)
      where
        first :
            (r : Option (Option A) × Inner A)
            → dequeue_round n q.inner ≡ r
            → Round n q.inner q.claims r
            → Found (dequeue n 2 q.inner).0
        first r e (at_end h) =
            let same : (dequeue n 2 q.inner).0 ≡ some none = ground arith in
            none-Found (dequeue n 2 q.inner).0 same h
        first r e (waits more v) =
            let same : (dequeue n 2 q.inner).0 ≡ some none = ground arith in inr (same, more, v)
        first r e (next_buffer {inner' = inner'} at h at_next) =
            let second = dequeue_round n (record q.inner { head_buf = q.inner.head_buf + 1 }) in
            let found =
              second-Found at at_next second (dequeue_round-Round n (moved-Slots h at_next)) in
            let moved : dequeue_round n (dequeue_round n q.inner).1 ≡ second =
              ap (λ (p : Option (Option A) × Inner A). dequeue_round n p.1) e
              ∙ ap (dequeue_round n) at in
            elim found [
              | inl f ↦
                  let same : (dequeue n 2 q.inner).0 ≡ some (get_elem? q.claims q.inner.head) =
                    ground arith in
                  inl same
              | inr (f, more, v) ↦
                  let same : (dequeue n 2 q.inner).0 ≡ some none = ground arith in
                  inr (same, more, v)
            ]
        first r e (hands_out x brings more small here at) =
            let same : (dequeue n 2 q.inner).0 ≡ some (some x) = ground arith in
            inl (same ∙ ap some (sym brings))

  -- `dequeue` returns after at most two rounds of its loop, in every state that is reached: it hands out
  -- the value at the head if there is one, and otherwise reports nothing. It reports nothing for a claimed
  -- head only while a producer has that index and has not filled its slot yet.
  pub dequeue_returns :
      {k : ℕ} {q : Queue A}
      → 0 < n
      → Reach k q
      → ((dequeue n 2 q.inner).0 ≡ some (get_elem? q.claims q.inner.head))
        ⊎ (((dequeue n 2 q.inner).0 ≡ some none)
            × ((i : ℕ) × (p : Pc A) × (get_elem? q.producers i ≡ some p)
                × (claim_of p ≡ some q.inner.head)))
  dequeue_returns {q = q} room r =
      let sound = Reach-Sound r in
      elim (dequeue-Found room sound) [
        | inl e ↦ inl e
        | inr (e, more, v) ↦ inr (e, sound.team.owned q.inner.head (omega arith) more v)
      ]
