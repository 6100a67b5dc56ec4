-- ===== src/Deque/Shared.antt =====
-- src/lib.rs, threads at work at once: what holds of the shared state, of the owner and of each thief
-- between any two steps, and which changes of the shared state a thief does not notice.
use ws_deque.Base.{
  ℕ, zero, suc, ◌+◌, ◌-◌, ◌≤◌, ◌<◌, ◌≡◌, ◌⊎◌, refl, sym, ◌∙◌, ap, Option, some, List, ◌∷◌,
  get_elem?, length, arith, word, wrapping_add,
}
use ws_deque.Distributed.Weight.{total, total-member}
use ws_deque.Deque.Buffer.{Buffer, read}
use ws_deque.Deque.Inner
use ws_deque.Deque.Inner.{Inner}
use ws_deque.Deque.Worker.{Worker, replace_buffer}
use ws_deque.Deque.Rep.{Owns}
use ws_deque.Deque.Threads.{
  System, Owner, resting, lowered, racing, Thief, idle, saw, entered, loaded, holding, pointed,
}

module _ {ℓ} {A : Type ℓ} where
  -- The deque before its owner lowered `bottom`.
  unfoldable pub raised : Worker A → Worker A
  raised w = record w { inner = record w.inner { bottom = wrapping_add w.inner.bottom 1 } }

  -- The element that the owner races for is the last one, unless a thief took it since.
  abbrev pub Raced : Inner A → ℕ → Option A → List A → Type ℓ
  Raced inner t boxed xs =
      ((inner.top ≡ t) × (length xs ≡ 1) × (boxed ≡ get_elem? xs 0))
      ⊎ ((inner.top ≡ wrapping_add t 1) × (length xs ≡ 0))

  -- The deque holds `xs`, as far as its owner is.
  abbrev pub OwnerSound : Worker A → Owner A → List A → Type ℓ
  OwnerSound w resting xs = Owns w xs
  OwnerSound w lowered xs = (w.inner.bottom < word) × Owns (raised w) xs
  OwnerSound w (racing t boxed) xs =
      (w.inner.bottom ≡ t) × (t < word) × Owns (raised w) xs × Raced w.inner t boxed xs

  -- A thief read `t` from `top`, which `n` elements have left since, at most `moves`; if none has, `Q`.
  pub record Ticket (inner : Inner A) (moves t : ℕ) (Q : Type ℓ) : Type ℓ where
    pub since : ℕ
    pub few : since ≤ moves
    pub in_word : t < word
    pub now : inner.top ≡ wrapping_add t since
    pub still : since ≡ 0 → Q

  -- What a thief has read holds, unless `top` moved on; and its buffer was not freed.
  abbrev pub ThiefSound : Inner A → ℕ → ℕ → List A → Thief A → Type ℓ
  ThiefSound inner serial moves xs idle = Unit
  ThiefSound inner serial moves xs (saw t) = Ticket inner moves t Unit
  ThiefSound inner serial moves xs (entered t) = Ticket inner moves t ((0 < length xs) × Unit {ℓ})
  ThiefSound inner serial moves xs (loaded t j) =
      (j ≤ serial)
      × ((buf : Buffer A) × (pointed inner (serial - j) ≡ some buf)
          × Ticket inner moves t ((0 < length xs) × (read buf inner.top ≡ get_elem? xs 0)))
  ThiefSound inner serial moves xs (holding t boxed) =
      Ticket inner moves t ((0 < length xs) × (boxed ≡ get_elem? xs 0))

  -- A thief that counts in `in_flight`.
  abbrev pub inside : Thief A → ℕ
  inside (entered t) = 1
  inside (loaded t j) = 1
  inside _ = 0

  pub record Sound (s : System A) (xs : List A) : Type ℓ where
    pub owner : OwnerSound s.worker s.owner xs
    pub flow : (f : A → ℕ) → total f s.pushed ≡ total f s.returned + total f xs
    pub counted : s.worker.inner.in_flight ≡ total inside s.thieves
    pub each :
        (i : ℕ) (p : Thief A)
        → get_elem? s.thieves i ≡ some p
        → ThiefSound s.worker.inner s.serial (length s.returned) xs p

  -- The shared state before and after a step that does not move `top`: while a thief is inside, each
  -- buffer stays allocated, and the oldest element in its cell.
  pub record Kept (before : Inner A) (serial : ℕ) (later : Inner A) (serial' : ℕ) (xs xs' : List A)
      : Type ℓ where
    pub same_top : later.top ≡ before.top
    pub longer : serial ≤ serial'
    pub front : 0 < length xs → (0 < length xs') × (get_elem? xs' 0 ≡ get_elem? xs 0)
    pub buffers :
        (j : ℕ) (buf : Buffer A)
        → j ≤ serial
        → 0 < before.in_flight
        → pointed before (serial - j) ≡ some buf
        → (buf' : Buffer A) × (pointed later (serial' - j) ≡ some buf')
          × (0 < length xs → read buf' later.top ≡ read buf before.top)

  Ticket-later :
      {before later : Inner A} {moves moves' t : ℕ} {P Q : Type ℓ}
      → later.top ≡ before.top
      → moves ≤ moves'
      → (P → Q)
      → Ticket before moves t P
      → Ticket later moves' t Q
  Ticket-later e le f k = record {
    since = k.since;
    few = omega (arith, k.few);
    in_word = k.in_word;
    now = e ∙ k.now;
    still = λ z. f (k.still z);
  }

  -- A thief does not notice such a step.
  pub Kept-ThiefSound :
      {before later : Inner A} {serial serial' moves moves' : ℕ} {xs xs' : List A}
      → Kept before serial later serial' xs xs'
      → moves ≤ moves'
      → (p : Thief A) → inside p ≤ before.in_flight
      → ThiefSound before serial moves xs p
      → ThiefSound later serial' moves' xs' p
  Kept-ThiefSound k le idle n h = h
  Kept-ThiefSound k le (saw t) n h = Ticket-later k.same_top le (λ u. u) h
  Kept-ThiefSound k le (entered t) n h = Ticket-later k.same_top le (λ q. ((k.front q.0).0, tt)) h
  Kept-ThiefSound {before} {later} {serial} {serial'} k le (loaded t j) n (lt, (buf, q, h)) =
      let (buf', q', same) = k.buffers j buf lt (omega arith) q in
      (
        omega (arith, k.longer),
        (
          buf',
          q',
          Ticket-later k.same_top le (λ r. ((k.front r.0).0, same r.0 ∙ r.1 ∙ sym (k.front r.0).1))
              h,
        ),
      )
  Kept-ThiefSound k le (holding t boxed) n h =
      Ticket-later k.same_top le (λ q. ((k.front q.0).0, q.1 ∙ sym (k.front q.0).1)) h

  Ticket-moved :
      {before later : Inner A} {moves t : ℕ} {P Q : Type ℓ}
      → later.top ≡ wrapping_add before.top 1
      → Ticket before moves t P
      → Ticket later (suc moves) t Q
  Ticket-moved e k = record {
    since = suc k.since;
    few = omega (arith, k.few);
    in_word = k.in_word;
    now = omega (arith, e, k.now);
    still = λ z. absurd (omega arith);
  }

  pointed_same :
      (before later : Inner A)
      → later.buffer ≡ before.buffer
      → later.retired ≡ before.retired
      → (age : ℕ) → pointed later age ≡ pointed before age
  unfolding pointed
  pointed_same before later eb er zero = ap some eb
  pointed_same before later eb er (suc age) = ap (λ l. get_elem? l age) er

  -- Once `top` has moved on, no thief can claim what it read before.
  pub moved-ThiefSound :
      (before later : Inner A) (serial moves : ℕ) (xs xs' : List A)
      → later.top ≡ wrapping_add before.top 1
      → later.buffer ≡ before.buffer
      → later.retired ≡ before.retired
      → (p : Thief A) → ThiefSound before serial moves xs p
      → ThiefSound later serial (suc moves) xs' p
  moved-ThiefSound before later serial moves xs xs' e eb er idle h = h
  moved-ThiefSound before later serial moves xs xs' e eb er (saw t) h = Ticket-moved e h
  moved-ThiefSound before later serial moves xs xs' e eb er (entered t) h = Ticket-moved e h
  moved-ThiefSound before later serial moves xs xs' e eb er (loaded t j) (lt, (buf, q, h)) =
      (lt, (buf, pointed_same before later eb er (serial - j) ∙ q, Ticket-moved e h))
  moved-ThiefSound before later serial moves xs xs' e eb er (holding t boxed) h = Ticket-moved e h

  pub inside-le :
      (thieves : List (Thief A)) (i : ℕ) (p : Thief A)
      → get_elem? thieves i ≡ some p
      → inside p ≤ total inside thieves
  inside-le thieves i p q = total-member inside thieves i p q

  kept_pointer :
      (before later : Inner A) (xs : List A)
      → later.top ≡ before.top
      → later.retired ≡ before.retired
      → (0 < length xs → read later.buffer before.top ≡ read before.buffer before.top)
      → (age : ℕ) (buf : Buffer A) → pointed before age ≡ some buf
      → (buf' : Buffer A) × (pointed later age ≡ some buf')
        × (0 < length xs → read buf' later.top ≡ read buf before.top)
  unfolding pointed
  kept_pointer before later xs et er same zero buf q =
      let e : before.buffer ≡ buf = cc in
      (
        later.buffer,
        refl,
        λ more. ap (read later.buffer) et ∙ same more ∙ ap (λ b. read b before.top) e,
      )
  kept_pointer before later xs et er same (suc age) buf q =
      (buf, ap (λ l. get_elem? l age) er ∙ q, λ more. ap (read buf) et)

  -- How a step that keeps the buffer, or installs a fresh one, is seen.
  pub Kept-same :
      {before later : Inner A} {serial : ℕ} {xs xs' : List A}
      → later.top ≡ before.top
      → later.retired ≡ before.retired
      → (0 < length xs → (0 < length xs') × (get_elem? xs' 0 ≡ get_elem? xs 0))
      → (0 < length xs → read later.buffer before.top ≡ read before.buffer before.top)
      → Kept before serial later serial xs xs'
  Kept-same {before} {later} {serial} {xs} et er front same = record {
    same_top = et;
    longer = omega arith;
    front = front;
    buffers = λ j buf lt busy q. kept_pointer before later xs et er same (serial - j) buf q;
  }

  retired_first :
      (inner : Inner A) (age : ℕ) → get_elem? (inner.buffer ∷ inner.retired) age ≡ pointed inner age
  unfolding pointed
  retired_first inner zero = refl
  retired_first inner (suc age) = refl

  -- While a thief is inside, the buffer that is replaced is the newest retired one, and none is freed.
  retired_pointer :
      (before fresh later : Inner A) (buf : Buffer A)
      → fresh ≡ replace_buffer before buf
      → later.retired ≡ fresh.retired
      → 0 < before.in_flight
      → (age : ℕ) → pointed later (suc age) ≡ pointed before age
  unfolding pointed replace_buffer Inner.retire Inner.try_reclaim
  retired_pointer before fresh later buf e er busy age =
      let r : later.retired ≡ before.buffer ∷ before.retired =
        er ∙ ap (λ (i : Inner A). i.retired) e ∙ ground (arith, busy) in
      ap (λ l. get_elem? l age) r ∙ retired_first before age

  pub Kept-replaced :
      {before fresh later : Inner A} {serial : ℕ} {xs xs' : List A} (buf : Buffer A)
      → fresh ≡ replace_buffer before buf
      → later.top ≡ before.top
      → later.retired ≡ fresh.retired
      → (0 < length xs → (0 < length xs') × (get_elem? xs' 0 ≡ get_elem? xs 0))
      → Kept before serial later (serial + 1) xs xs'
  Kept-replaced {before} {fresh} {later} {serial} {xs} buf e et er front = record {
    same_top = et;
    longer = omega arith;
    front = front;
    buffers = λ j b lt busy q.
        let age : serial + 1 - j ≡ suc (serial - j) = omega arith in
        (
          b,
          ap (pointed later) age
              ∙ retired_pointer before fresh later buf e er busy (serial - j)
              ∙ q,
          λ more. ap (read b) et,
        );
  }

  -- A thief does not read `in_flight`.
  pub counted-ThiefSound :
      (d : Inner A) (n serial moves : ℕ) (xs : List A) (p : Thief A)
      → ThiefSound d serial moves xs p
      → ThiefSound (record d { in_flight = n }) serial moves xs p
  counted-ThiefSound d n serial moves xs idle h = h
  counted-ThiefSound d n serial moves xs (saw t) h = Ticket-later refl (omega arith) (λ u. u) h
  counted-ThiefSound d n serial moves xs (entered t) h = Ticket-later refl (omega arith) (λ u. u) h
  counted-ThiefSound d n serial moves xs (loaded t j) (lt, (buf, q, h)) = (
    lt,
    (
      buf,
      pointed_same d (record d { in_flight = n }) refl refl (serial - j) ∙ q,
      Ticket-later refl (omega arith) (λ u. u) h,
    ),
  )
  counted-ThiefSound d n serial moves xs (holding t boxed) h =
      Ticket-later refl (omega arith) (λ u. u) h
