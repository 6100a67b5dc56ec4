-- ===== src/Race/Group.antt =====
-- `find_races` of src/race.rs: the races it reports, list a Boolean function of the strands.
use ws_deque.Base.{
  ℕ, zero, suc, ◌+◌, ◌-◌, ◌≡◌, ◌≢◌, refl, sym, ap, ◌∙◌, Bool, true, false, not, ◌&&◌, ◌||◌, List,
  [], ◌∷◌, ◌++◌, none, some, arith, if◌then◌else◌, ltb, leb, ◌==◌, get_elem?, append-nil,
  append_assoc, Option-cases, inl, inr,
}
use ws_deque.Race.{
  Location, Access, Nodes, StrandInfo, Accessors, ByLoc, push_access, group_strand, group, labels,
}
use ws_deque.Race.Labels.{rank_series}
use ws_deque.Race.Walk.{english_all, relabel, labels-at}

-- Equality of two flags.
abbrev pub same : Bool → Bool → Bool
same true b = b
same false b = not b

-- Whether some element passes a test.
abbrev pub any {ℓ} : {A : Type ℓ} → (A → Bool) → List A → Bool
any p [] = false
any p (x ∷ xs) = p x || any p xs

-- Whether strand `i` accesses location `l`, writing it or not.
abbrev pub records : List Access → Location → Bool → Bool
records [] l w = false
records (a ∷ rest) l w = (a.location == l && same a.is_write w) || records rest l w

abbrev pub accesses_at : List StrandInfo → ℕ → Location → Bool → Bool
accesses_at [] i l w = false
accesses_at (s ∷ strands) zero l w = records s.accesses l w
accesses_at (s ∷ strands) (suc i) l w = accesses_at strands i l w

-- The accesses that a list of strands, the first of index `n`, records for `l`, in order.
abbrev pub mine : ℕ → List Access → Location → Accessors
mine n [] l = []
mine n (a ∷ rest) l = if a.location == l then (n, a.is_write) ∷ mine n rest l else mine n rest l

abbrev pub all_from : ℕ → List StrandInfo → Location → Accessors
all_from n [] l = []
all_from n (s ∷ strands) l = mine n s.accesses l ++ all_from (n + 1) strands l

abbrev pub lookup : ByLoc → Location → Accessors
lookup [] l = []
lookup ((k, xs) ∷ t) l = if k == l then xs else lookup t l

lookup-push :
    (t : ByLoc) (k l : Location) (x : ℕ × Bool)
    → lookup (push_access t k x) l ≡ (if k == l then lookup t l ++ x ∷ [] else lookup t l)
unfolding push_access
lookup-push [] k l x = ground arith
lookup-push ((m, xs) ∷ t) k l x = ground (arith, lookup-push t k l x)

lookup-group_strand :
    (t : ByLoc) (n : ℕ) (list : List Access) (l : Location)
    → lookup (group_strand t n list) l ≡ lookup t l ++ mine n list l
unfolding group_strand
lookup-group_strand t n [] l = sym (append-nil (lookup t l))
lookup-group_strand t n (a ∷ rest) l = ground (
  arith,
  lookup-group_strand (push_access t a.location (n, a.is_write)) n rest l,
  lookup-push t a.location l (n, a.is_write),
  append_assoc (lookup t l) ((n, a.is_write) ∷ []) (mine n rest l),
)

pub lookup-group :
    (t : ByLoc) (n : ℕ) (strands : List StrandInfo) (l : Location)
    → lookup (group t n strands) l ≡ lookup t l ++ all_from n strands l
unfolding group
lookup-group t n [] l = sym (append-nil (lookup t l))
lookup-group t n (s ∷ strands) l =
    lookup-group (group_strand t n s.accesses) (n + 1) strands l
    ∙ ap (λ xs. xs ++ all_from (n + 1) strands l) (lookup-group_strand t n s.accesses l)
    ∙ append_assoc (lookup t l) (mine n s.accesses l) (all_from (n + 1) strands l)

abbrev pub has : ℕ → Bool → Accessors → Bool
has i w [] = false
has i w ((k, v) ∷ xs) = (k == i && same v w) || has i w xs

-- Whether `(i, v)` comes before `(j, w)`.
abbrev pub before : ℕ → ℕ → Bool → Bool → Accessors → Bool
before i j v w [] = false
before i j v w ((k, u) ∷ xs) = (k == i && same u v && has j w xs) || before i j v w xs

module _ (i j : ℕ) (v w : Bool) where
  pub has-append : (xs ys : Accessors) → has i v (xs ++ ys) ≡ (has i v xs || has i v ys)
  has-append [] ys = refl
  has-append ((k, u) ∷ xs) ys = ground (arith, has-append xs ys)

has-mine :
    (n i : ℕ) (w : Bool) (list : List Access) (l : Location)
    → has i w (mine n list l) ≡ (n == i && records list l w)
has-mine n i w [] l = ground arith
has-mine n i w (a ∷ rest) l = ground (arith, has-mine n i w rest l)

accesses_at-cons :
    (s : StrandInfo) (strands : List StrandInfo) (i : ℕ) (l : Location) (w : Bool)
    → accesses_at (s ∷ strands) i l w
      ≡ (if i == 0 then records s.accesses l w else accesses_at strands (i - 1) l w)
accesses_at-cons s strands zero l w = refl
accesses_at-cons s strands (suc i) l w =
    let e : suc i - 1 ≡ i = omega arith in ground (arith, ap (λ k. accesses_at strands k l w) e)

has-all_from :
    (n i : ℕ) (w : Bool) (strands : List StrandInfo) (l : Location)
    → has i w (all_from n strands l) ≡ (leb n i && accesses_at strands (i - n) l w)
has-all_from n i w [] l = ground arith
has-all_from n i w (s ∷ strands) l =
    let e : i - n - 1 ≡ i - (n + 1) = omega arith in
    has-append i i w w (mine n s.accesses l) (all_from (n + 1) strands l)
    ∙ ground (
      arith,
      has-mine n i w s.accesses l,
      has-all_from (n + 1) i w strands l,
      accesses_at-cons s strands (i - n) l w,
      ap (λ k. accesses_at strands k l w) e,
    )

module _ (i j : ℕ) (v w : Bool) where
  before-append :
      (xs ys : Accessors)
      → before i j v w (xs ++ ys)
        ≡ (before i j v w xs || (has i v xs && has j w ys) || before i j v w ys)
  before-append [] ys = refl
  before-append ((k, u) ∷ xs) ys =
      ground (arith, before-append xs ys, has-append i j v w xs ys, has-append j j w w xs ys)

  before-mine :
      i ≢ j → (n : ℕ) (list : List Access) (l : Location) → before i j v w (mine n list l) ≡ false
  before-mine apart n [] l = refl
  before-mine apart n (a ∷ rest) l =
      ground (arith, before-mine apart n rest l, has-mine n j w rest l)

  pub before-all_from :
      i ≢ j
      → (n : ℕ) (strands : List StrandInfo) (l : Location)
      → before i j v w (all_from n strands l)
        ≡ (leb n i && ltb i j && accesses_at strands (i - n) l v && accesses_at strands (j - n) l w)
  before-all_from apart n [] l = ground arith
  before-all_from apart n (s ∷ strands) l =
      let ei : i - n - 1 ≡ i - (n + 1) = omega arith in
      let ej : j - n - 1 ≡ j - (n + 1) = omega arith in
      before-append (mine n s.accesses l) (all_from (n + 1) strands l)
      ∙ ground (
        arith,
        before-mine apart n s.accesses l,
        has-mine n i v s.accesses l,
        has-all_from (n + 1) j w strands l,
        before-all_from apart (n + 1) strands l,
        accesses_at-cons s strands (i - n) l v,
        accesses_at-cons s strands (j - n) l w,
        ap (λ k. accesses_at strands k l v) ei,
        ap (λ k. accesses_at strands k l w) ej,
      )

-- Whether the map has an entry for a location, and whether its keys differ.
abbrev pub has_key : Location → ByLoc → Bool
has_key l [] = false
has_key l ((k, xs) ∷ t) = k == l || has_key l t

abbrev pub distinct : ByLoc → Bool
distinct [] = true
distinct ((k, xs) ∷ t) = not (has_key k t) && distinct t

has_key-push :
    (t : ByLoc) (k l : Location) (x : ℕ × Bool)
    → has_key l (push_access t k x) ≡ (has_key l t || k == l)
unfolding push_access
has_key-push [] k l x = ground arith
has_key-push ((m, xs) ∷ t) k l x = ground (arith, has_key-push t k l x)

distinct-push :
    (t : ByLoc) (k : Location) (x : ℕ × Bool)
    → distinct t ≡ true
    → distinct (push_access t k x) ≡ true
unfolding push_access
distinct-push [] k x d = refl
distinct-push ((m, xs) ∷ t) k x d = ground (arith, distinct-push t k x, has_key-push t k m x)

distinct-group_strand :
    (t : ByLoc) (n : ℕ) (list : List Access)
    → distinct t ≡ true
    → distinct (group_strand t n list) ≡ true
unfolding group_strand
distinct-group_strand t n [] d = d
distinct-group_strand t n (a ∷ rest) d =
    distinct-group_strand (push_access t a.location (n, a.is_write)) n rest
      (distinct-push t a.location (n, a.is_write) d)

pub distinct-group :
    (t : ByLoc) (n : ℕ) (strands : List StrandInfo)
    → distinct t ≡ true
    → distinct (group t n strands) ≡ true
unfolding group
distinct-group t n [] d = d
distinct-group t n (s ∷ strands) d =
    distinct-group (group_strand t n s.accesses) (n + 1) strands
      (distinct-group_strand t n s.accesses d)

accesses_at-some :
    (strands : List StrandInfo) (i : ℕ) (l : Location) (w : Bool) (s : StrandInfo)
    → get_elem? strands i ≡ some s
    → accesses_at strands i l w ≡ records s.accesses l w
accesses_at-some [] i l w s e = absurd (cc)
accesses_at-some (t ∷ strands) zero l w s e = ground arith
accesses_at-some (t ∷ strands) (suc i) l w s e = accesses_at-some strands i l w s e

pub accesses_at-none :
    (strands : List StrandInfo) (i : ℕ) (l : Location) (w : Bool)
    → get_elem? strands i ≡ none
    → accesses_at strands i l w ≡ false
accesses_at-none [] i l w e = refl
accesses_at-none (t ∷ strands) zero l w e = absurd (cc)
accesses_at-none (t ∷ strands) (suc i) l w e = accesses_at-none strands i l w e

-- Both passes leave the accesses as the tree has them.
pub accesses_at-labels :
    (dag : Nodes) (i : ℕ) (l : Location) (w : Bool)
    → accesses_at (labels dag) i l w ≡ accesses_at (english_all dag 0) i l w
accesses_at-labels dag i l w = elim (Option-cases (get_elem? (english_all dag 0) i)) [
  | inl n ↦ ground (
    arith,
    labels-at dag i,
    accesses_at-none (english_all dag 0) i l w,
    accesses_at-none (labels dag) i l w,
  )
  | inr (s, e) ↦
      let f = labels-at dag i ∙ ap (λ o. relabel o (rank_series dag i)) e in
      accesses_at-some (labels dag) i l w (record s { hebrew = rank_series dag i }) f
      ∙ sym (accesses_at-some (english_all dag 0) i l w s e)
]
