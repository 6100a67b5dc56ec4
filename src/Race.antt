-- ===== src/Race.antt =====
-- src/race.rs: determinacy-race detection on a series-parallel tree. `StrandBuilder` and `Dag` build
-- the tree; `assign_english` and `hebrew_walk` label its strands; `find_races` compares accesses.
pub mod Labels
pub mod Walk
pub mod Group
pub mod Report
mod Tests
use ws_deque.Base.{
  ℕ, zero, suc, ◌+◌, ◌-◌, ◌^◌, Bool, true, false, not, ◌||◌, ◌&&◌, List, [], ◌∷◌, ◌++◌, Option,
  none, some, if◌then◌else◌, ltb, ◌==◌, get_elem?,
}

abbrev pub Location : Type 0
Location = ℕ

pub record Access : Type 0 where
  pub location : Location
  pub is_write : Bool

-- `Node`, with its vectors of children.
mutual
  pub data Node : Type 0 where
    strand : List Access → Node
    series : Nodes → Node
    parallel : Nodes → Node

  pub data Nodes : Type 0 where
    nil : Nodes
    cons : Node → Nodes → Nodes

pub record Race : Type 0 where
  pub location : Location
  pub strand_a : ℕ
  pub strand_b : ℕ
  pub write_a : Bool
  pub write_b : Bool

pub record StrandInfo : Type 0 where
  pub english : ℕ
  pub hebrew : ℕ
  pub accesses : List Access

-- `StrandBuilder::read` and `StrandBuilder::write`, on the accesses recorded so far.
unfoldable pub read : List Access → Location → List Access
read accesses l = accesses ++ record { location = l; is_write = false } ∷ []

unfoldable pub write : List Access → Location → List Access
write accesses l = accesses ++ record { location = l; is_write = true } ∷ []

-- `Vec::push` on the children of a `Dag`.
unfoldable pub add_child : Nodes → Node → Nodes
add_child nil n = cons n nil
add_child (cons c cs) n = cons c (add_child cs n)

-- The three builders of `Dag`: the closure fills an empty builder.
unfoldable pub add_strand : Nodes → (List Access → List Access) → Nodes
add_strand dag build = add_child dag (strand (build []))

unfoldable pub add_series : Nodes → (Nodes → Nodes) → Nodes
add_series dag build = add_child dag (series (build nil))

unfoldable pub add_parallel : Nodes → (Nodes → Nodes) → Nodes
add_parallel dag build = add_child dag (parallel (build nil))

-- `usize::MAX`, the rank before the Hebrew pass.
abbrev pub unranked : ℕ
unranked = 2 ^ 64 - 1

-- The counter and the records after the visit.
unfoldable mutual
  pub assign_english : Node → ℕ → List StrandInfo → ℕ × List StrandInfo
  assign_english (strand accesses) counter out = (
    counter + 1,
    out ++ record { english = counter; hebrew = unranked; accesses = accesses } ∷ [],
  )
  assign_english (series children) counter out = assign_all children counter out
  assign_english (parallel children) counter out = assign_all children counter out

  pub assign_all : Nodes → ℕ → List StrandInfo → ℕ × List StrandInfo
  assign_all nil counter out = (counter, out)
  assign_all (cons c cs) counter out =
      let (counter', out') = assign_english c counter out in assign_all cs counter' out'

unfoldable mutual
  pub count_strands : Node → ℕ
  count_strands (strand _) = 1
  count_strands (series children) = count_all children
  count_strands (parallel children) = count_all children

  pub count_all : Nodes → ℕ
  count_all nil = 0
  count_all (cons c cs) = count_strands c + count_all cs

-- `out[idx].hebrew = h`
unfoldable pub set_hebrew : List StrandInfo → ℕ → ℕ → List StrandInfo
set_hebrew [] idx h = []
set_hebrew (s ∷ out) zero h = record s { hebrew = h } ∷ out
set_hebrew (s ∷ out) (suc idx) h = s ∷ set_hebrew out idx h

-- The Hebrew counter and the records after the visit of a subtree whose first strand has the English
-- index `cursor`; the cursor itself moves by the number of strands visited.
unfoldable mutual
  pub hebrew_walk : Node → ℕ → List StrandInfo → ℕ → ℕ × List StrandInfo × ℕ
  hebrew_walk (strand _) hebrew out cursor = (hebrew + 1, set_hebrew out cursor hebrew, cursor + 1)
  hebrew_walk (series children) hebrew out cursor = walk_series children hebrew out cursor
  hebrew_walk (parallel children) hebrew out cursor =
      let (hebrew', out') = walk_parallel children hebrew out cursor in
      (hebrew', out', cursor + count_all children)

  pub walk_series : Nodes → ℕ → List StrandInfo → ℕ → ℕ × List StrandInfo × ℕ
  walk_series nil hebrew out cursor = (hebrew, out, cursor)
  walk_series (cons c cs) hebrew out cursor =
      let (hebrew', out', cursor') = hebrew_walk c hebrew out cursor in
      walk_series cs hebrew' out' cursor'

  -- Right to left: the children behind `c` first, then `c`, each from its own base.
  pub walk_parallel : Nodes → ℕ → List StrandInfo → ℕ → ℕ × List StrandInfo
  walk_parallel nil hebrew out base = (hebrew, out)
  walk_parallel (cons c cs) hebrew out base =
      let (hebrew', out') = walk_parallel cs hebrew out (base + count_strands c) in
      let (hebrew'', out'', cursor) = hebrew_walk c hebrew' out' base in (hebrew'', out'')

-- `!=` on Booleans.
abbrev pub differ : Bool → Bool → Bool
differ true b = not b
differ false b = b

unfoldable pub in_parallel : StrandInfo → StrandInfo → Bool
in_parallel a b = differ (ltb a.english b.english) (ltb a.hebrew b.hebrew)

-- The two passes of `detect_races` over the children of the root, which are in series. The base of
-- each child is the number of strands before it.
unfoldable pub hebrew_root : Nodes → ℕ → List StrandInfo → ℕ → ℕ × List StrandInfo
unfolding hebrew_walk count_strands
hebrew_root nil hebrew out base = (hebrew, out)
hebrew_root (cons c cs) hebrew out base =
    let (hebrew', out', cursor) = hebrew_walk c hebrew out base in
    hebrew_root cs hebrew' out' (base + count_strands c)

unfoldable pub labels : Nodes → List StrandInfo
unfolding assign_english hebrew_root
labels dag = (hebrew_root dag 0 (assign_all dag 0 []).1 0).1

-- What `find_races` keeps for a location: the accesses to it, each with its strand's index.
abbrev pub Accessors : Type 0
Accessors = List (ℕ × Bool)

-- `HashMap<Location, Vec<(usize, bool)>>`, in the order in which the keys came.
abbrev pub ByLoc : Type 0
ByLoc = List (Location × Accessors)

-- `by_loc.entry(location).or_default().push(x)`
unfoldable pub push_access : ByLoc → Location → ℕ × Bool → ByLoc
push_access [] l x = (l, x ∷ []) ∷ []
push_access ((k, xs) ∷ t) l x =
    if k == l then (k, xs ++ x ∷ []) ∷ t else (k, xs) ∷ push_access t l x

unfoldable pub group_strand : ByLoc → ℕ → List Access → ByLoc
group_strand t si [] = t
group_strand t si (a ∷ rest) = group_strand (push_access t a.location (si, a.is_write)) si rest

unfoldable pub group : ByLoc → ℕ → List StrandInfo → ByLoc
unfolding group_strand
group t si [] = t
group t si (s ∷ strands) = group (group_strand t si s.accesses) (si + 1) strands

-- The body of the inner loop of `races_at_location`: what it pushes. An index past the end would panic.
unfoldable pub pair_races : Location → List StrandInfo → ℕ × Bool → ℕ × Bool → List Race
unfolding in_parallel
pair_races location strands (sa, wa) (sb, wb) =
    let a = get_elem? strands sa in
    let b = get_elem? strands sb in
    elim a [
      | none ↦ []
      | some a ↦ elim b [
        | none ↦ []
        | some b ↦
            if sa == sb || not (wa || wb) || not (in_parallel a b)
            then []
            else record {
              location = location;
              strand_a = a.english;
              strand_b = b.english;
              write_a = wa;
              write_b = wb;
            }
              ∷ []
      ]
    ]

unfoldable pub races_with :
    Location → List StrandInfo → ℕ × Bool → Accessors → List Race → List Race
unfolding pair_races
races_with location strands x [] races = races
races_with location strands x (y ∷ ys) races =
    races_with location strands x ys (races ++ pair_races location strands x y)

unfoldable pub races_at_location : Location → Accessors → List StrandInfo → List Race → List Race
unfolding races_with
races_at_location location [] strands races = races
races_at_location location (x ∷ xs) strands races =
    races_at_location location xs strands (races_with location strands x xs races)

unfoldable pub races_of : ByLoc → List StrandInfo → List Race → List Race
unfolding races_at_location
races_of [] strands races = races
races_of ((location, accessors) ∷ t) strands races =
    races_of t strands (races_at_location location accessors strands races)

-- `iteration` is the order, left open, in which the map hands out its entries.
unfoldable pub find_races : (ByLoc → ByLoc) → List StrandInfo → List Race
unfolding group races_of
find_races iteration strands = races_of (iteration (group [] 0 strands)) strands []

unfoldable pub detect_races : (ByLoc → ByLoc) → Nodes → List Race
unfolding labels find_races
detect_races iteration dag = find_races iteration (labels dag)
