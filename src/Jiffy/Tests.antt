-- ===== src/Jiffy/Tests.antt =====
-- The theorems on the queue of many producers at one producer and buffers of two slots.
use ws_deque.Base.{ℕ, ◌≤◌, ◌≡◌, ◌≢◌, ◌⊎◌, refl, some, none, [], ◌∷◌, arith, get_elem?, length, take}
use ws_deque.Jiffy.{
  Pc, idle, lost, dequeue, producer_step, link_next_buffer, set_slot, dequeue_round, channel,
  locate_tail_buffer, dequeue_slot,
}
use ws_deque.Jiffy.Order.{Queue, claim_of}
use ws_deque.Jiffy.Fifo.{
  Reach, start, produces, consumes, produce, consume, reach_in_order, never_lost, dequeue_returns,
}

abbrev fresh : Queue ℕ
fresh = record { inner = channel 2; producers = idle ∷ []; claims = []; taken = [] }

-- The producer puts 5: it claims, locates and fills its slot, and links the next buffer; then the consumer
-- takes it.
abbrev filled_one : Queue ℕ
filled_one = produce 2 (produce 2 (produce 2 (produce 2 fresh 0 5) 0 5) 0 5) 0 5

filled_one-Reach : Reach 2 1 filled_one
filled_one-Reach =
    produces 0 5 (produces 0 5 (produces 0 5 (produces 0 5 (start refl) refl) refl) refl) refl

reach_in_order_example :
    ((consume 2 filled_one).taken
      ≡ take (consume 2 filled_one).inner.head (consume 2 filled_one).claims)
    × (length (consume 2 filled_one).claims ≡ (consume 2 filled_one).inner.tail)
    × ((consume 2 filled_one).inner.head ≤ (consume 2 filled_one).inner.tail)
reach_in_order_example = reach_in_order 2 (consumes filled_one-Reach refl)

taken_one : (consume 2 filled_one).taken ≡ 5 ∷ []
unfolding consume produce dequeue_round producer_step locate_tail_buffer channel link_next_buffer
    set_slot dequeue_slot
taken_one = refl

never_lost_example : ◌≢◌ {A = Pc ℕ} idle (lost 0 5)
never_lost_example = never_lost 2 {k = 1} 0 idle 0 5 (start refl) refl

dequeue_returns_example :
    ((dequeue 2 2 filled_one.inner).0 ≡ some (get_elem? filled_one.claims filled_one.inner.head))
    ⊎ (((dequeue 2 2 filled_one.inner).0 ≡ some none)
        × ((i : ℕ) × (p : Pc ℕ) × (get_elem? filled_one.producers i ≡ some p)
            × (claim_of p ≡ some filled_one.inner.head)))
dequeue_returns_example = dequeue_returns 2 (omega arith) filled_one-Reach
