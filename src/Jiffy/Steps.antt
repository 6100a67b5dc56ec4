-- ===== src/Jiffy/Steps.antt =====
-- The steps of src/jiffy.rs that fill no slot and hand out none keep the invariant: those that link a
-- buffer or move one of the two buffer pointers, and the claim of an index.
use ws_deque.Base.{
  ℕ, zero, suc, ◌+◌, ◌≤◌, ◌<◌, ◌≡◌, ◌≢◌, refl, sym, ap, ◌∙◌, some, List, [], ◌∷◌, ◌++◌, arith, ltb,
  ◌==◌, length, get_elem?, set, take, inl, inr, length-append, get_elem?-append_left,
  get_elem?-append_end, get_elem?-bound, Bool-cases,
}
use native.Mathlib.Decide.{ℕ_discrete, dec_lt}
use ws_deque.Jiffy.{
  vacant, filled, Slot, Inner, Pc, idle, claimed, linking, advancing, walking, storing, stored,
  lost, new_buffer, buffer_at, link_next_buffer, advance_tail,
}
use ws_deque.Jiffy.Flat.{Shape, Shape-at, Shape-linked, flat-linked, start_of, start_of_mono}
use ws_deque.Jiffy.Order.{cell, state_at, claim_of, Slots, Pending, Works, Team, Team-step}

vacant-filled : vacant ≢ filled
vacant-filled e = cc

pub take-append_left {ℓ} :
    {A : Type ℓ} (k : ℕ) (xs ys : List A) → k ≤ length xs → take k (xs ++ ys) ≡ take k xs
take-append_left zero xs ys h = refl
take-append_left (suc k) [] ys h = absurd (omega arith)
take-append_left (suc k) (x ∷ xs) ys h = ap (λ l. x ∷ l) (take-append_left k xs ys (omega arith))

module _ {ℓ} {A : Type ℓ} (n : ℕ) where
  -- A change of the chain or of a pointer into it that leaves every slot as it is.
  pub record Alike (inner inner' : Inner A) : Type ℓ where
    pub same_cell : (g : ℕ) → cell n inner' g ≡ cell n inner g
    pub longer : length inner.buffers ≤ length inner'.buffers
    pub shape : Shape n 0 inner'.buffers
    pub tail_in : inner'.tail_buf < length inner'.buffers
    pub head_in : inner'.head_buf < length inner'.buffers
    pub head_base : start_of n inner'.head_buf ≤ inner'.head
    pub near : inner'.head ≤ start_of n inner'.head_buf + n
    pub same_tail : inner'.tail ≡ inner.tail
    pub same_head : inner'.head ≡ inner.head

  pub Slots-Alike :
      {inner inner' : Inner A} {claims taken : List A}
      → Slots n inner claims taken
      → Alike inner inner'
      → Slots n inner' claims taken
  Slots-Alike {inner} {inner'} {claims} {taken} s a =
      let same = λ (g : ℕ). ap (λ (c : Slot A). c.state) (a.same_cell g) in
      record {
        shape = a.shape;
        tail_in = a.tail_in;
        head_in = a.head_in;
        head_base = a.head_base;
        near = a.near;
        head_tail = omega (arith, s.head_tail, a.same_tail, a.same_head);
        all_claims = s.all_claims ∙ sym a.same_tail;
        in_order = s.in_order ∙ ap (λ h. take h claims) (sym a.same_head);
        fresh = λ g h. a.same_cell g ∙ s.fresh g (omega (arith, a.same_tail, h));
        full = λ g e. ap (λ (c : Slot A). c.value) (a.same_cell g) ∙ s.full g (sym (same g) ∙ e);
        ahead = λ g e. omega (arith, s.ahead g (sym (same g) ∙ e), a.same_head);
        behind = λ g h. same g ∙ s.behind g (omega (arith, h, a.same_head));
      }

  pub Pending-keep :
      {inner inner' : Inner A} {claims claims' : List A} {g : ℕ} {v : A}
      → Pending n inner claims g v
      → inner.tail ≤ inner'.tail
      → (get_elem? claims g ≡ some v → get_elem? claims' g ≡ some v)
      → (state_at n inner g ≡ vacant → state_at n inner' g ≡ vacant)
      → Pending n inner' claims' g v
  Pending-keep w more kept still = record {
    below = omega (arith, w.below);
    untouched = still w.untouched;
    brings = kept w.brings;
  }

  pub Pending-Alike :
      {inner inner' : Inner A} {claims : List A} {g : ℕ} {v : A}
      → Pending n inner claims g v
      → Alike inner inner'
      → Pending n inner' claims g v
  Pending-Alike {g = g} w a =
      Pending-keep w (omega (arith, a.same_tail)) (λ e. e)
        (λ e. ap (λ (c : Slot A). c.state) (a.same_cell g) ∙ e)

  -- A producer stays at work as long as the chain and the claims only grow and its slot stays vacant.
  pub Works-keep :
      (inner inner' : Inner A) (claims claims' : List A) (q : Pc A)
      → inner.tail ≤ inner'.tail
      → length inner.buffers ≤ length inner'.buffers
      → ((g : ℕ) (v : A) → get_elem? claims g ≡ some v → get_elem? claims' g ≡ some v)
      → ((g : ℕ) → claim_of q ≡ some g → state_at n inner g ≡ vacant → state_at n inner' g ≡ vacant)
      → Works n inner claims q
      → Works n inner' claims' q
  Works-keep inner inner' claims claims' idle more longer kept still w = tt
  Works-keep inner inner' claims claims' (claimed g v) more longer kept still w =
      Pending-keep w more (kept g v) (still g refl)
  Works-keep inner inner' claims claims' (linking g v b) more longer kept still w =
      (Pending-keep w.0 more (kept g v) (still g refl), omega (arith, w.1))
  Works-keep inner inner' claims claims' (advancing g v b) more longer kept still w =
      Pending-keep w more (kept g v) (still g refl)
  Works-keep inner inner' claims claims' (walking g v b) more longer kept still w = (
    Pending-keep w.0 more (kept g v) (still g refl),
    omega (arith, w.1),
    w.2,
    omega (arith, w.3, start_of_mono n (length inner.buffers) (length inner'.buffers) longer),
  )
  Works-keep inner inner' claims claims' (storing g v b) more longer kept still w =
      (Pending-keep w.0 more (kept g v) (still g refl), omega (arith, w.1), w.2, w.3)
  Works-keep inner inner' claims claims' (stored b offset) more longer kept still w =
      (omega (arith, w.0), tt)
  Works-keep inner inner' claims claims' (lost g v) more longer kept still w = w

  -- A producer's step that claims and fills nothing.
  pub Team-Alike :
      {inner inner' : Inner A} {claims : List A} {producers : List (Pc A)} (i : ℕ) (p p' : Pc A)
      → Team n inner claims producers
      → get_elem? producers i ≡ some p
      → Alike inner inner'
      → claim_of p' ≡ claim_of p
      → Works n inner' claims p'
      → Team n inner' claims (set producers i p')
  Team-Alike {inner} {inner'} {claims} i p p' t at a same now =
      let state = λ (g : ℕ). ap (λ (c : Slot A). c.state) (a.same_cell g) in
      Team-step n i p p' t at now
        (λ q other w.
          Works-keep inner inner' claims claims q (omega (arith, a.same_tail)) a.longer (λ g v e. e)
            (λ g _ e. state g ∙ e) w)
        (λ g e. inl (sym same ∙ e))
        (λ g h b e.
          inr (omega (arith, h, a.same_head), omega (arith, b, a.same_tail), sym (state g) ∙ e))
        (λ g e _. same ∙ e)

  -- A step of the consumer that hands out nothing.
  pub Team-same :
      {inner inner' : Inner A} {claims : List A} {producers : List (Pc A)}
      → Team n inner claims producers
      → Alike inner inner'
      → Team n inner' claims producers
  Team-same {inner} {inner'} {claims} t a =
      let state = λ (g : ℕ). ap (λ (c : Slot A). c.state) (a.same_cell g) in
      record {
        works = λ i p e.
            Works-keep inner inner' claims claims p (omega (arith, a.same_tail)) a.longer
              (λ g v f. f) (λ g _ f. state g ∙ f) (t.works i p e);
        apart = t.apart;
        owned = λ g h b e.
            t.owned g (omega (arith, h, a.same_head)) (omega (arith, b, a.same_tail))
              (sym (state g) ∙ e);
      }

  pub Alike-same :
      {inner : Inner A} {claims taken : List A} → Slots n inner claims taken → Alike inner inner
  Alike-same s = record {
    same_cell = λ g. refl;
    longer = omega arith;
    shape = s.shape;
    tail_in = s.tail_in;
    head_in = s.head_in;
    head_base = s.head_base;
    near = s.near;
    same_tail = refl;
    same_head = refl;
  }

  pub base-buffer :
      {inner : Inner A} {claims taken : List A} (b : ℕ)
      → Slots n inner claims taken
      → b < length inner.buffers
      → (buffer_at n inner b).base ≡ start_of n b
  unfolding buffer_at
  base-buffer {inner} b s h =
      (Shape-at n 0 inner.buffers b (new_buffer n 0) s.shape h).0 ∙ omega arith

  pub link-Alike :
      {inner : Inner A} {claims taken : List A} (b : ℕ)
      → Slots n inner claims taken
      → b < length inner.buffers
      → Alike inner (link_next_buffer n inner b)
  unfolding link_next_buffer
  link-Alike {inner} b s h = elim (Bool-cases (ltb (b + 1) (length inner.buffers))) [
    | inl e ↦ let q : link_next_buffer n inner b ≡ inner = ground arith in rw q (Alike-same s)
    | inr e ↦
        let end = (buffer_at n inner b).base + n in
        let q : link_next_buffer n inner b
            ≡ record inner { buffers = inner.buffers ++ new_buffer n end ∷ [] } =
          ground arith in
        let last : length inner.buffers ≡ suc b = ground arith in
        let l = length-append inner.buffers (new_buffer n end ∷ []) in
        let at_end : end ≡ 0 + start_of n (length inner.buffers) =
          omega (arith, base-buffer b s h, ap (start_of n) last) in
        rw q (record {
          same_cell = λ g. flat-linked n inner.buffers end g;
          longer = omega (arith, l);
          shape = Shape-linked n 0 inner.buffers end s.shape at_end;
          tail_in = omega (arith, l, s.tail_in);
          head_in = omega (arith, l, s.head_in);
          head_base = s.head_base;
          near = s.near;
          same_tail = refl;
          same_head = refl;
        })
  ]

  pub advance_tail-Alike :
      {inner : Inner A} {claims taken : List A} (b : ℕ)
      → Slots n inner claims taken
      → Alike inner (advance_tail n inner b)
  unfolding advance_tail
  advance_tail-Alike {inner} b s = elim (Bool-cases (ltb (b + 1) (length inner.buffers))) [
    | inr e ↦ let q : advance_tail n inner b ≡ inner = ground arith in rw q (Alike-same s)
    | inl e ↦ elim (Bool-cases (inner.tail_buf == b)) [
      | inr f ↦ let q : advance_tail n inner b ≡ inner = ground arith in rw q (Alike-same s)
      | inl f ↦
          let q : advance_tail n inner b ≡ record inner { tail_buf = b + 1 } = ground arith in
          let h : b + 1 < length inner.buffers = ground arith in
          rw q (record {
            same_cell = λ g. refl;
            longer = omega arith;
            shape = s.shape;
            tail_in = h;
            head_in = s.head_in;
            head_base = s.head_base;
            near = s.near;
            same_tail = refl;
            same_head = refl;
          })
    ]
  ]

  -- The claim of the next index, for the value `v`.
  pub claim-Slots :
      {inner : Inner A} {claims taken : List A} (v : A)
      → Slots n inner claims taken
      → Slots n (record inner { tail = inner.tail + 1 }) (claims ++ v ∷ []) taken
  claim-Slots {inner} {claims} v s = record {
    shape = s.shape;
    tail_in = s.tail_in;
    head_in = s.head_in;
    head_base = s.head_base;
    near = s.near;
    head_tail = omega (arith, s.head_tail);
    all_claims = omega (arith, length-append claims (v ∷ []), s.all_claims);
    in_order =
        s.in_order
        ∙ sym (
            take-append_left inner.head claims (v ∷ []) (omega (arith, s.head_tail, s.all_claims)));
    fresh = λ g h. s.fresh g (omega (arith, h));
    full = λ g e. elim (dec_lt g (length claims)) [
      | yes h ↦ s.full g e ∙ sym (get_elem?-append_left claims (v ∷ []) g h)
      | no h ↦
          let c : state_at n inner g ≡ vacant =
            ap (λ (c : Slot A). c.state) (s.fresh g (omega (arith, h, s.all_claims))) in
          absurd (vacant-filled (sym c ∙ e))
    ];
    ahead = s.ahead;
    behind = s.behind;
  }

  pub claim-Team :
      {inner : Inner A} {claims taken : List A} {producers : List (Pc A)} (i : ℕ) (v : A)
      → Slots n inner claims taken
      → Team n inner claims producers
      → get_elem? producers i ≡ some idle
      → Team n
          (record inner { tail = inner.tail + 1 })
          (claims ++ v ∷ [])
          (set producers i (claimed inner.tail v))
  claim-Team {inner} {claims} i v s t at =
      let inner' = record inner { tail = inner.tail + 1 } in
      let kept = λ (g : ℕ) (u : A) (e : get_elem? claims g ≡ some u).
        get_elem?-append_left claims (v ∷ []) g (get_elem?-bound claims g u e) ∙ e in
      Team-step n i idle (claimed inner.tail v) t at
        (record {
          below = omega arith;
          untouched = ap (λ (c : Slot A). c.state) (s.fresh inner.tail (omega arith));
          brings =
              ap (get_elem? (claims ++ v ∷ [])) (sym s.all_claims) ∙ get_elem?-append_end claims v;
        })
        (λ q other w.
          Works-keep inner inner' claims (claims ++ v ∷ []) q (omega arith) (omega arith) kept
            (λ g _ e. e) w)
        (λ g e. let same : inner.tail ≡ g = cc in inr (omega (arith, same)))
        (λ g h b e. elim (ℕ_discrete inner.tail g) [
          | yes same ↦ inl (ap some same)
          | no apart ↦ inr (h, omega (arith, b, apart), e)
        ])
        (λ g e _. absurd (cc))
