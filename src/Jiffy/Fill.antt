-- ===== src/Jiffy/Fill.antt =====
-- The steps of src/jiffy.rs that write a slot: a producer fills the one it claimed, and the consumer hands
-- out the value at the head.
use ws_deque.Base.{
  ℕ, zero, suc, ◌+◌, ◌-◌, ◌<◌, ◌≡◌, ◌≢◌, sym, ap, ◌∙◌, some, List, [], ◌∷◌, ◌++◌, arith, length,
  get_elem?, get_or, set, length-set, take, inr, get_or-set_self, get_or-set_ne,
}
use native.Mathlib.Decide.{ℕ_discrete}
use ws_deque.Jiffy.{
  vacant, filled, handled, Slot, Inner, Pc, storing, stored, empty_slot, new_buffer, buffer_at,
  set_slot,
}
use ws_deque.Jiffy.Flat.{flat, Shape, flat-set, length-flat, start_of, start_of_mono}
use ws_deque.Jiffy.Order.{cell, state_at, Slots, Works, Team, Team-step}
use ws_deque.Jiffy.Steps.{Works-keep, base-buffer}

take-snoc {ℓ} :
    {A : Type ℓ} (k : ℕ) (xs : List A) (x : A)
    → get_elem? xs k ≡ some x
    → take (suc k) xs ≡ take k xs ++ x ∷ []
take-snoc zero [] x e = absurd (cc)
take-snoc zero (y ∷ xs) x e = let same : y ≡ x = cc in ap (λ z. z ∷ []) same
take-snoc (suc k) [] x e = absurd (cc)
take-snoc (suc k) (y ∷ xs) x e = ap (λ l. y ∷ l) (take-snoc k xs x e)

vacant-filled : vacant ≢ filled
vacant-filled e = cc

module _ {ℓ} {A : Type ℓ} (n : ℕ) where
  -- The slots after a write to the one of index `g`.
  record Written (inner inner' : Inner A) (g : ℕ) (slot : Slot A) : Type ℓ where
    here : cell n inner' g ≡ slot
    there : (h : ℕ) → g ≢ h → cell n inner' h ≡ cell n inner h
    shape : Shape n 0 inner'.buffers
    same_length : length inner'.buffers ≡ length inner.buffers

  set_slot-Written :
      (inner : Inner A) (b offset g : ℕ) (slot : Slot A)
      → Shape n 0 inner.buffers
      → b < length inner.buffers
      → offset < n
      → g ≡ start_of n b + offset
      → Written inner (set_slot n inner b offset slot) g slot
  unfolding set_slot buffer_at
  set_slot-Written inner b offset g slot s h o at =
      let (e, t) = flat-set n 0 inner.buffers b offset (new_buffer n 0) slot s h o in
      let inside : g < length (flat n inner.buffers) = omega (
        arith,
        length-flat n 0 inner.buffers s,
        start_of_mono n (suc b) (length inner.buffers) h,
      ) in
      let e' = e ∙ ap (λ k. set (flat n inner.buffers) k slot) (sym at) in
      record {
        here =
            ap (λ l. get_or l g empty_slot) e'
            ∙ get_or-set_self (flat n inner.buffers) g slot empty_slot inside;
        there = λ k apart.
            ap (λ l. get_or l k empty_slot) e'
            ∙ get_or-set_ne (flat n inner.buffers) g k slot empty_slot apart;
        shape = t;
        same_length = length-set inner.buffers b (record (get_or inner.buffers b (new_buffer n 0)) {
          slots = set (get_or inner.buffers b (new_buffer n 0)).slots offset slot;
        });
      }

  module _ {inner : Inner A} {claims taken : List A} {producers : List (Pc A)} (i g b : ℕ) (v : A)
      (s : Slots n inner claims taken) (t : Team n inner claims producers)
      (at : get_elem? producers i ≡ some (storing g v b)) where
    abbrev offset : ℕ
    offset = g - (buffer_at n inner b).base

    abbrev slot : Slot A
    slot = record { state = filled; value = some v }

    abbrev after : Inner A
    after = set_slot n inner b offset slot

    works : Works n inner claims (storing g v b)
    works = t.works i (storing g v b) at

    written : Written inner after g slot
    written =
        let e = base-buffer n b s works.1 in
        set_slot-Written inner b offset g slot s.shape works.1 (omega (arith, e, works.2, works.3))
          (omega (arith, e, works.2))

    -- The slot that is not the one written has the state it had.
    other_state : (h : ℕ) → g ≢ h → state_at n after h ≡ state_at n inner h
    other_state h apart = ap (λ (c : Slot A). c.state) (written.there h apart)

    own_state : state_at n after g ≡ filled
    own_state = ap (λ (c : Slot A). c.state) written.here

    not_before : (h : ℕ) → h < inner.head → g ≢ h
    not_before h small same =
        let e : state_at n inner g ≡ handled = ap (state_at n inner) same ∙ s.behind h small in
        cc_false (sym (works.0).untouched ∙ e)
      where
        cc_false : vacant ≢ handled
        cc_false e = cc

    pub fill-Slots : Slots n after claims taken
    unfolding set_slot
    fill-Slots = record {
      shape = written.shape;
      tail_in = omega (arith, s.tail_in, written.same_length);
      head_in = omega (arith, s.head_in, written.same_length);
      head_base = s.head_base;
      near = s.near;
      head_tail = s.head_tail;
      all_claims = s.all_claims;
      in_order = s.in_order;
      fresh = λ h e.
          let apart : g ≢ h = λ same. omega (arith, same, e, (works.0).below) in
          written.there h apart ∙ s.fresh h e;
      full = λ h e. elim (ℕ_discrete g h) [
        | yes same ↦
            ap (λ k. (cell n after k).value) (sym same)
            ∙ ap (λ (c : Slot A). c.value) written.here
            ∙ sym (works.0).brings
            ∙ ap (get_elem? claims) same
        | no apart ↦
            ap (λ (c : Slot A). c.value) (written.there h apart)
            ∙ s.full h (sym (other_state h apart) ∙ e)
      ];
      ahead = λ h e. elim (ℕ_discrete g h) [
        | yes same ↦ let f = ap (state_at n after) same in let o = own_state in absurd (cc)
        | no apart ↦ s.ahead h (sym (other_state h apart) ∙ e)
      ];
      behind = λ h e. other_state h (not_before h e) ∙ s.behind h e;
    }

    pub fill-Team : Team n after claims (set producers i (stored b offset))
    unfolding set_slot
    fill-Team =
        Team-step n i (storing g v b) (stored b offset) t at
          (omega (arith, works.1, written.same_length), tt)
          (λ q other w.
            Works-keep n inner after claims claims q (omega arith)
              (omega (arith, written.same_length)) (λ h u e. e)
              (λ h cq e. other_state h (λ same. other h cq (ap some same)) ∙ e) w)
          (λ h e. absurd (cc))
          (λ h lo hi e. elim (ℕ_discrete g h) [
            | yes same ↦ let f = ap (state_at n after) same in let o = own_state in absurd (cc)
            | no apart ↦ inr (lo, hi, sym (other_state h apart) ∙ e)
          ])
          (λ h e f.
            let same : g ≡ h = cc in
            let k = ap (state_at n after) same in let o = own_state in absurd (cc))

  -- The consumer takes the value at the head.
  module _ {inner : Inner A} {claims taken : List A} {producers : List (Pc A)} (x : A)
      (s : Slots n inner claims taken) (t : Team n inner claims producers)
      (more : inner.head < inner.tail)
      (here : cell n inner inner.head ≡ record { state = filled; value = some x })
      (room : inner.head < start_of n inner.head_buf + n) where
    abbrev head_offset : ℕ
    head_offset = inner.head - (buffer_at n inner inner.head_buf).base

    abbrev spent : Slot A
    spent = record { state = handled; value = some x }

    abbrev advanced : Inner A
    advanced = set_slot n (record inner { head = inner.head + 1 }) inner.head_buf head_offset spent

    spent-Written : Written (record inner { head = inner.head + 1 }) advanced inner.head spent
    unfolding buffer_at
    spent-Written =
        let e = base-buffer n inner.head_buf s s.head_in in
        set_slot-Written (record inner { head = inner.head + 1 }) inner.head_buf head_offset
          inner.head spent s.shape s.head_in (omega (arith, e, room, s.head_base))
          (omega (arith, e, s.head_base))

    left_state : (h : ℕ) → inner.head ≢ h → state_at n advanced h ≡ state_at n inner h
    left_state h apart = ap (λ (c : Slot A). c.state) (spent-Written.there h apart)

    spent_state : state_at n advanced inner.head ≡ handled
    spent_state = ap (λ (c : Slot A). c.state) spent-Written.here

    head_state : state_at n inner inner.head ≡ filled
    head_state = ap (λ (c : Slot A). c.state) here

    pub take-Slots : Slots n advanced claims (taken ++ x ∷ [])
    unfolding set_slot
    take-Slots = record {
      shape = spent-Written.shape;
      tail_in = omega (arith, s.tail_in, spent-Written.same_length);
      head_in = omega (arith, s.head_in, spent-Written.same_length);
      head_base = omega (arith, s.head_base);
      near = omega (arith, room);
      head_tail = omega (arith, more);
      all_claims = s.all_claims;
      in_order =
          let brings : get_elem? claims inner.head ≡ some x =
            sym (s.full inner.head head_state) ∙ ap (λ (c : Slot A). c.value) here in
          let one_more : inner.head + 1 ≡ suc inner.head = omega arith in
          ap (λ l. l ++ x ∷ []) s.in_order
          ∙ sym (take-snoc inner.head claims x brings)
          ∙ sym (ap (λ k. take k claims) one_more);
      fresh = λ h e.
          let apart : inner.head ≢ h = λ same. omega (arith, same, e, more) in
          spent-Written.there h apart ∙ s.fresh h e;
      full = λ h e. elim (ℕ_discrete inner.head h) [
        | yes same ↦ let f = ap (state_at n advanced) same in let o = spent_state in absurd (cc)
        | no apart ↦
            ap (λ (c : Slot A). c.value) (spent-Written.there h apart)
            ∙ s.full h (sym (left_state h apart) ∙ e)
      ];
      ahead = λ h e. elim (ℕ_discrete inner.head h) [
        | yes same ↦ omega (arith, same)
        | no apart ↦ omega (arith, s.ahead h (sym (left_state h apart) ∙ e))
      ];
      behind = λ h e. elim (ℕ_discrete inner.head h) [
        | yes same ↦ sym (ap (state_at n advanced) same) ∙ spent_state
        | no apart ↦ left_state h apart ∙ s.behind h (omega (arith, e, apart))
      ];
    }

    pub take-Team : Team n advanced claims producers
    unfolding set_slot
    take-Team = record {
      works = λ i p e.
          Works-keep n inner advanced claims claims p (omega arith)
            (omega (arith, spent-Written.same_length)) (λ h u f. f)
            (λ h _ f.
              let apart : inner.head ≢ h =
                λ same. vacant-filled (sym f ∙ ap (state_at n inner) (sym same) ∙ head_state) in
              left_state h apart ∙ f)
            (t.works i p e);
      apart = t.apart;
      owned = λ h lo hi e.
          let apart : inner.head ≢ h = λ same. omega (arith, same, lo) in
          t.owned h (omega (arith, lo)) hi (sym (left_state h apart) ∙ e);
    }
