-- ===== src/Idempotent/TakerTests.antt =====
-- The owner and the plain thieves of src/idempotent.rs at a concrete run.
use ws_deque.Base.{
  ℕ, ◌≡◌, refl, true, false, Bool-cases, inl, inr, none, some, Option-cases, List, [], ◌∷◌, ◌++◌,
  get_elem?, set, if◌then◌else◌, arith,
}
use ws_deque.Idempotent.{create, make, with_len, put, grow, retire, copy_tasks, fetch_max}
use ws_deque.Idempotent.Takers.{
  State, fresh_taker, resting, plain_step, Visits, grows, accepts, joins, takes, Descends, Given,
}
use ws_deque.Idempotent.Deliver.{visits-Given}

data Event : Type 0 where
  put_in : ℕ → Event
  join_in : Event
  step_of : ℕ → Event

-- A state with the tasks accepted so far.
record Run : Type 0 where
  sys : State ℕ
  ps : List ℕ

unfoldable happens : Run → Event → Run
unfolding plain_step
happens r (put_in v) =
    if (put r.sys.worker v).0
    then record { sys = record r.sys { worker = (put r.sys.worker v).1 }; ps = r.ps ++ v ∷ [] }
    else r
happens r join_in = record r {
  sys = record r.sys { takers = r.sys.takers ++ fresh_taker false ∷ [] };
}
happens r (step_of i) = elim (get_elem? r.sys.takers i) [
  | none ↦ r
  | some t ↦ record r {
    sys = record {
      worker = record r.sys.worker { inner = (plain_step r.sys.worker t).0 };
      takers = set r.sys.takers i (plain_step r.sys.worker t).1;
    };
  }
]

happens-Visits :
    (r : Run) (e : Event) → Visits r.sys r.ps → Visits (happens r e).sys (happens r e).ps
unfolding happens
happens-Visits r (put_in v) k = elim (Bool-cases (put r.sys.worker v).0) [
  | inl done ↦ rw (done, happens) (accepts v k done)
  | inr refused ↦ rw (refused, happens) k
]
happens-Visits r join_in k = joins k
happens-Visits r (step_of i) k = elim (Option-cases (get_elem? r.sys.takers i)) [
  | inl e ↦ rw (e, happens) k
  | inr (t, e) ↦ rw (e, happens) (takes i t k e)
]

unfoldable happen : Run → List Event → Run
happen r [] = r
happen r (e ∷ es) = happen (happens r e) es

happen-Visits :
    (es : List Event) (r : Run) → Visits r.sys r.ps → Visits (happen r es).sys (happen r es).ps
unfolding happen
happen-Visits [] r k = k
happen-Visits (e ∷ es) r k = happen-Visits es (happens r e) (happens-Visits r e k)

abbrev begun : Run
begun = record { sys = record { worker = create; takers = fresh_taker true ∷ [] }; ps = [] }

-- The owner and a thief load the head, the array grows under them, and both read the same task.
abbrev events : List Event
events =
    put_in 7
    ∷ join_in
    ∷ step_of 0
    ∷ step_of 1
    ∷ put_in 1
    ∷ put_in 2
    ∷ put_in 3
    ∷ put_in 4
    ∷ put_in 5
    ∷ put_in 6
    ∷ put_in 7
    ∷ put_in 8
    ∷ put_in 9
    ∷ put_in 10
    ∷ put_in 11
    ∷ put_in 12
    ∷ put_in 13
    ∷ put_in 14
    ∷ put_in 15
    ∷ step_of 0
    ∷ step_of 1
    ∷ step_of 1
    ∷ step_of 0
    ∷ []

abbrev finished : Run
finished = happen begun events

-- Both returned it.
both_returned :
    finished.sys.takers
    ≡ record { is_owner = true; place = resting; past = (0, 7) ∷ [] }
      ∷ record { is_owner = false; place = resting; past = (0, 7) ∷ [] }
      ∷ []
unfolding happen happens plain_step create make with_len put grow retire copy_tasks fetch_max
both_returned = refl

grown : finished.sys.worker.inner.tasks.tasks_len ≡ 32
unfolding happen happens plain_step create make with_len put grow retire copy_tasks fetch_max
grown = refl

past_first : finished.sys.worker.inner.head ≡ 1
unfolding happen happens plain_step create make with_len put grow retire copy_tasks fetch_max
past_first = refl

visits-Given_example :
    (g : Given finished.sys.takers 0) × Descends finished.ps finished.sys.worker.inner.head
      g.taker.past
visits-Given_example = visits-Given 0 (happen-Visits events begun grows) (omega (arith, past_first))
