-- ===== src/Jiffy/Order.antt =====
-- The state of src/jiffy.rs with its threads, and the invariant: which slots are handled, filled or
-- vacant, and what a producer in `enqueue` holds.
use ws_deque.Base.{
  ℕ, ◌+◌, ◌≤◌, ◌<◌, ◌≡◌, ◌≢◌, ◌⊎◌, sym, ap, ◌∙◌, Option, none, some, List, arith, length, get_elem?,
  get_or, set, take, inl, inr, get_elem?-set_ne, get_elem?-set_self,
}
use mathlib.Core.Path.{subst}
use native.Mathlib.Decide.{ℕ_discrete}
use ws_deque.Jiffy.{
  SlotState, vacant, filled, handled, Slot, Inner, Pc, idle, claimed, linking, advancing, walking,
  storing, stored, lost, empty_slot,
}
use ws_deque.Jiffy.Flat.{flat, Shape, start_of}

-- `claims` lists the values in the order of the indices that their producers claimed, and `taken` what
-- the consumer was handed; the program keeps neither.
pub record Queue {ℓ} (A : Type ℓ) : Type ℓ where
  pub inner : Inner A
  pub producers : List (Pc A)
  pub claims : List A
  pub taken : List A

module _ {ℓ} {A : Type ℓ} where
  -- The claimed index whose slot a producer has yet to fill.
  abbrev pub claim_of : Pc A → Option ℕ
  claim_of idle = none
  claim_of (claimed g v) = some g
  claim_of (linking g v b) = some g
  claim_of (advancing g v b) = some g
  claim_of (walking g v b) = some g
  claim_of (storing g v b) = some g
  claim_of (stored b offset) = none
  claim_of (lost g v) = some g

  module _ (n : ℕ) where
    abbrev pub cell : Inner A → ℕ → Slot A
    cell inner g = get_or (flat n inner.buffers) g empty_slot

    abbrev pub state_at : Inner A → ℕ → SlotState
    state_at inner g = (cell inner g).state

    -- What the slots hold: the values before `head` are handed out, those from `tail` on are untouched.
    pub record Slots (inner : Inner A) (claims taken : List A) : Type ℓ where
      pub shape : Shape n 0 inner.buffers
      pub tail_in : inner.tail_buf < length inner.buffers
      pub head_in : inner.head_buf < length inner.buffers
      pub head_base : start_of n inner.head_buf ≤ inner.head
      pub near : inner.head ≤ start_of n inner.head_buf + n
      pub head_tail : inner.head ≤ inner.tail
      pub all_claims : length claims ≡ inner.tail
      pub in_order : taken ≡ take inner.head claims
      pub fresh : (g : ℕ) → inner.tail ≤ g → cell inner g ≡ empty_slot
      pub full : (g : ℕ) → state_at inner g ≡ filled → (cell inner g).value ≡ get_elem? claims g
      pub ahead : (g : ℕ) → state_at inner g ≡ handled → g < inner.head
      pub behind : (g : ℕ) → g < inner.head → state_at inner g ≡ handled

    pub record Pending (inner : Inner A) (claims : List A) (g : ℕ) (v : A) : Type ℓ where
      pub below : g < inner.tail
      pub untouched : state_at inner g ≡ vacant
      pub brings : get_elem? claims g ≡ some v

    -- What holds of a producer that has claimed an index; the buffer that it looks at is in the chain, and
    -- the one that it writes to has its slot. None follows a null pointer.
    abbrev pub Works : Inner A → List A → Pc A → Type ℓ
    Works inner claims idle = Unit
    Works inner claims (claimed g v) = Pending inner claims g v
    Works inner claims (linking g v b) = Pending inner claims g v × (b < length inner.buffers)
    Works inner claims (advancing g v b) = Pending inner claims g v
    Works inner claims (walking g v b) =
        Pending inner claims g v
        × (b < length inner.buffers)
        × (start_of n b ≤ g)
        × (g < start_of n (length inner.buffers))
    Works inner claims (storing g v b) =
        Pending inner claims g v
        × (b < length inner.buffers)
        × (start_of n b ≤ g)
        × (g < start_of n b + n)
    Works inner claims (stored b offset) = (b < length inner.buffers) × Unit {ℓ}
    Works inner claims (lost g v) = ⊥ × Unit {ℓ}

    -- The producers: each holds its own index, and each claimed slot that is not filled yet has one.
    pub record Team (inner : Inner A) (claims : List A) (producers : List (Pc A)) : Type ℓ where
      pub works : (i : ℕ) (p : Pc A) → get_elem? producers i ≡ some p → Works inner claims p
      pub apart :
          (i j : ℕ) (p q : Pc A) (g : ℕ)
          → get_elem? producers i ≡ some p
          → get_elem? producers j ≡ some q
          → claim_of p ≡ some g
          → claim_of q ≡ some g
          → i ≡ j
      pub owned :
          (g : ℕ)
          → inner.head ≤ g
          → g < inner.tail
          → state_at inner g ≡ vacant
          → (i : ℕ) × (p : Pc A) × (get_elem? producers i ≡ some p) × (claim_of p ≡ some g)

    below_at :
        {inner : Inner A} {claims : List A} {g h : ℕ} {v : A}
        → Pending inner claims h v
        → ◌≡◌ {A = Option ℕ} (some h) (some g)
        → g < inner.tail
    below_at {inner} {g = g} {h = h} w e = let same : h ≡ g = cc in omega (arith, w.below, same)

    pub Works-below :
        (inner : Inner A) (claims : List A) (q : Pc A) (g : ℕ)
        → Works inner claims q
        → claim_of q ≡ some g
        → g < inner.tail
    Works-below inner claims idle g w e = absurd (cc)
    Works-below inner claims (claimed h v) g w e = below_at w e
    Works-below inner claims (linking h v b) g w e = below_at w.0 e
    Works-below inner claims (advancing h v b) g w e = below_at w e
    Works-below inner claims (walking h v b) g w e = below_at w.0 e
    Works-below inner claims (storing h v b) g w e = below_at w.0 e
    Works-below inner claims (stored b offset) g w e = absurd (cc)
    Works-below inner claims (lost h v) g w e = absurd w.0

    -- The producers after one of them changes.
    set-cases :
        (producers : List (Pc A)) (i j : ℕ) (p p' q : Pc A)
        → get_elem? producers i ≡ some p
        → get_elem? (set producers i p') j ≡ some q
        → ((i ≡ j) × (q ≡ p')) ⊎ ((i ≢ j) × (get_elem? producers j ≡ some q))
    set-cases producers i j p p' q at e = elim (ℕ_discrete i j) [
      | yes same ↦
          let f = get_elem?-set_self producers i p p' at in
          let h : get_elem? (set producers i p') i ≡ some q =
            ap (get_elem? (set producers i p')) same ∙ e in
          inl (same, cc)
      | no apart ↦ inr (apart, sym (get_elem?-set_ne producers i j p' apart) ∙ e)
    ]

    -- A step of producer `i` from `p` to `p'`: it keeps its index or claims a new one, what it does keeps
    -- the others at work, and a slot that is claimed and vacant after it was so before or is its own.
    pub Team-step :
        {inner inner' : Inner A} {claims claims' : List A} {producers : List (Pc A)} (i : ℕ)
        (p p' : Pc A)
        → Team inner claims producers
        → get_elem? producers i ≡ some p
        → Works inner' claims' p'
        → ((q : Pc A)
            → ((g : ℕ) → claim_of q ≡ some g → claim_of p ≢ some g)
            → Works inner claims q
            → Works inner' claims' q)
        → ((g : ℕ) → claim_of p' ≡ some g → (claim_of p ≡ some g) ⊎ (inner.tail ≤ g))
        → ((g : ℕ)
            → inner'.head ≤ g
            → g < inner'.tail
            → state_at inner' g ≡ vacant
            → (claim_of p' ≡ some g)
              ⊎ ((inner.head ≤ g) × (g < inner.tail) × (state_at inner g ≡ vacant)))
        → ((g : ℕ) → claim_of p ≡ some g → state_at inner' g ≡ vacant → claim_of p' ≡ some g)
        → Team inner' claims' (set producers i p')
    Team-step {inner} {inner'} {claims} {claims'} {producers} i p p' t at now others keeps vacated
          holds =
        record {
          works = λ j q e. elim (set-cases producers i j p p' q at e) [
            | inl (_, same) ↦ subst (Works inner' claims') (sym same) now
            | inr (ne, f) ↦ others q (λ g cq cp. ne (t.apart i j p q g at f cp cq)) (t.works j q f)
          ];
          apart = λ j k q r g ej ek cq cr. elim (set-cases producers i j p p' q at ej) [
            | inl (ij, same_q) ↦ elim (set-cases producers i k p p' r at ek) [
              | inl (ik, _) ↦ sym ij ∙ ik
              | inr (_, fk) ↦ ij_apart ij (own_apart k r g fk cr (ap claim_of (sym same_q) ∙ cq))
            ]
            | inr (_, fj) ↦ elim (set-cases producers i k p p' r at ek) [
              | inl (ik, same_r) ↦
                  sym (ij_apart ik (own_apart j q g fj cq (ap claim_of (sym same_r) ∙ cr)))
              | inr (_, fk) ↦ t.apart j k q r g fj fk cq cr
            ]
          ];
          owned = λ g h b e. elim (vacated g h b e) [
            | inl mine ↦ (i, p', get_elem?-set_self producers i p p' at, mine)
            | inr (h', b', e') ↦ owner g e (t.owned g h' b' e')
          ];
        }
      where
        own_apart :
            (k : ℕ) (r : Pc A) (g : ℕ)
            → get_elem? producers k ≡ some r
            → claim_of r ≡ some g
            → claim_of p' ≡ some g
            → i ≡ k
        own_apart k r g fk cr cp = elim (keeps g cp) [
          | inl old ↦ t.apart i k p r g at fk old cr
          | inr new ↦ absurd (omega (arith, Works-below inner claims r g (t.works k r fk) cr, new))
        ]

        ij_apart : {j k : ℕ} → i ≡ j → i ≡ k → j ≡ k
        ij_apart a b = sym a ∙ b

        owner :
            (g : ℕ)
            → state_at inner' g ≡ vacant
            → (j : ℕ) × (q : Pc A) × (get_elem? producers j ≡ some q) × (claim_of q ≡ some g)
            → (j : ℕ) × (q : Pc A) × (get_elem? (set producers i p') j ≡ some q)
              × (claim_of q ≡ some g)
        owner g e (j, q, f, cq) = elim (ℕ_discrete i j) [
          | yes same ↦
              let fi : get_elem? producers i ≡ some q = ap (get_elem? producers) same ∙ f in
              let same_pc : q ≡ p = cc in
              (
                i,
                p',
                get_elem?-set_self producers i p p' at,
                holds g (ap claim_of (sym same_pc) ∙ cq) e,
              )
          | no apart ↦ (j, q, get_elem?-set_ne producers i j p' apart ∙ f, cq)
        ]
