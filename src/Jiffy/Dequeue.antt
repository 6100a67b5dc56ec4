-- ===== src/Jiffy/Dequeue.antt =====
-- A round of `dequeue` of src/jiffy.rs where the invariant holds: what it returns, and what it finds.
use ws_deque.Base.{
  ℕ, ◌+◌, ◌-◌, ◌≤◌, ◌<◌, ◌≡◌, refl, sym, ap, ◌∙◌, Option, none, some, List, arith, ltb, leb, length,
  get_elem?, get_or, inl, inr, Bool-cases, Option-cases, get_elem?-none,
}
use ws_deque.Jiffy.{
  SlotState, vacant, filled, handled, Slot, Inner, empty_slot, new_buffer, buffer_at, set_slot,
  dequeue_slot, dequeue_round,
}
use ws_deque.Jiffy.Flat.{
  flat, flat-at, get_or-end, length-flat, start_of, start_of_mono, start_of_suc,
}
use ws_deque.Jiffy.Order.{cell, state_at, Slots}
use ws_deque.Jiffy.Steps.{Alike, base-buffer}

module _ {ℓ} {A : Type ℓ} (n : ℕ) where
  -- What a round of `dequeue` does where the invariant holds.
  pub data Round (inner : Inner A) (claims : List A) : Option (Option A) × Inner A → Type ℓ where
    at_end : inner.tail ≤ inner.head → Round inner claims (some none, inner)
    waits :
        inner.head < inner.tail
        → state_at n inner inner.head ≡ vacant
        → Round inner claims (some none, inner)
    next_buffer :
        {inner' : Inner A}
        → inner' ≡ record inner { head_buf = inner.head_buf + 1 }
        → inner.head_buf + 1 < length inner.buffers
        → inner.head ≡ start_of n (inner.head_buf + 1)
        → Round inner claims (none, inner')
    hands_out :
        {inner' : Inner A} (x : A)
        → get_elem? claims inner.head ≡ some x
        → inner.head < inner.tail
        → inner.head < start_of n inner.head_buf + n
        → cell n inner inner.head ≡ record { state = filled; value = some x }
        → inner'
          ≡ set_slot n
              (record inner { head = inner.head + 1 })
              inner.head_buf
              (inner.head - (buffer_at n inner inner.head_buf).base)
              (record { state = handled; value = some x })
        → Round inner claims (some (some x), inner')

  module _ {inner : Inner A} {claims taken : List A} (s : Slots n inner claims taken) where
    abbrev head_slot : ℕ
    head_slot = inner.head - (buffer_at n inner inner.head_buf).base

    -- The slot that the consumer looks at is the one at the head.
    head_cell :
        head_slot < n
        → get_or (buffer_at n inner inner.head_buf).slots head_slot empty_slot
          ≡ cell n inner inner.head
    unfolding buffer_at
    head_cell small =
        let e = base-buffer n inner.head_buf s s.head_in in
        let same : start_of n inner.head_buf + head_slot ≡ inner.head =
          omega (arith, e, s.head_base) in
        flat-at n 0 inner.buffers inner.head_buf head_slot (new_buffer n 0) s.shape s.head_in small
        ∙ ap (cell n inner) same

    dequeue_slot-Round :
        (slot : Slot A)
        → cell n inner inner.head ≡ slot
        → inner.head < inner.tail
        → inner.head < start_of n inner.head_buf + n
        → Round inner claims (dequeue_slot n inner head_slot slot)
    unfolding dequeue_slot
    dequeue_slot-Round slot e more room = by_state slot.state refl
      where
        by_state :
            (st : SlotState)
            → slot.state ≡ st
            → Round inner claims (dequeue_slot n inner head_slot slot)
        by_state vacant f =
            let same : dequeue_slot n inner head_slot slot ≡ (some none, inner) = ground arith in
            rw same (waits more (ap (λ (c : Slot A). c.state) e ∙ f))
        by_state handled f =
            absurd (omega (arith, s.ahead inner.head (ap (λ (c : Slot A). c.state) e ∙ f)))
        by_state filled f = elim (Option-cases (get_elem? claims inner.head)) [
          | inl gone ↦
              absurd (omega (arith, get_elem?-none claims inner.head gone, s.all_claims, more))
          | inr (x, brings) ↦
              let held : slot.value ≡ some x =
                sym (ap (λ (c : Slot A). c.value) e)
                ∙ s.full inner.head (ap (λ (c : Slot A). c.state) e ∙ f)
                ∙ brings in
              let out : Slot A → Inner A = λ slot.
                set_slot n (record inner { head = inner.head + 1 }) inner.head_buf head_slot slot in
              let same : dequeue_slot n inner head_slot slot
                  ≡ (some slot.value, out (record slot { state = handled })) =
                ground arith in
              let same' : dequeue_slot n inner head_slot slot
                  ≡ (some (some x), out (record { state = handled; value = some x })) =
                same ∙ (λ i. (some (held i), out (record { state = handled; value = held i }))) in
              rw same' (
                hands_out x brings more room (e ∙ (λ i. record { state = f i; value = held i }))
                  refl)
        ]

    pub dequeue_round-Round : Round inner claims (dequeue_round n inner)
    unfolding dequeue_round
    dequeue_round-Round = elim (Bool-cases (leb inner.tail inner.head)) [
      | inl e ↦ rw e (at_end (ground arith))
      | inr e ↦
          let more : inner.head < inner.tail = ground arith in
          let b = base-buffer n inner.head_buf s s.head_in in
          elim (Bool-cases (leb n head_slot)) [
            | inr inside ↦
                let small : head_slot < n = ground arith in
                rw (e, inside)
                  (dequeue_slot-Round
                    (get_or (buffer_at n inner inner.head_buf).slots head_slot empty_slot)
                    (sym (head_cell small)) more (omega (arith, b, small, s.head_base)))
            | inl past_it ↦
                let large : n ≤ head_slot = ground arith in
                let at_next : inner.head ≡ start_of n (inner.head_buf + 1) =
                  omega (arith, s.near, b, large, s.head_base, start_of_suc n inner.head_buf) in
                elim (Bool-cases (ltb (inner.head_buf + 1) (length inner.buffers))) [
                  | inl linked ↦ rw (e, past_it, linked) (next_buffer refl (ground arith) at_next)
                  | inr last ↦
                      rw (e, past_it, last)
                        (waits more (
                          let short : length inner.buffers ≤ inner.head_buf + 1 = ground arith in
                          let m =
                            start_of_mono n (length inner.buffers) (inner.head_buf + 1) short in
                          ap (λ (c : Slot A). c.state)
                            (get_or-end (flat n inner.buffers) inner.head empty_slot
                              (omega (arith, length-flat n 0 inner.buffers s.shape, m, at_next)))))
                ]
          ]
    ]

  pub next_buffer-Alike :
      {inner : Inner A} {claims taken : List A}
      → Slots n inner claims taken
      → inner.head_buf + 1 < length inner.buffers
      → inner.head ≡ start_of n (inner.head_buf + 1)
      → Alike n inner (record inner { head_buf = inner.head_buf + 1 })
  next_buffer-Alike s h at_next = record {
    same_cell = λ g. refl;
    longer = omega arith;
    shape = s.shape;
    tail_in = s.tail_in;
    head_in = h;
    head_base = omega (arith, at_next);
    near = omega (arith, at_next);
    same_tail = refl;
    same_head = refl;
  }
