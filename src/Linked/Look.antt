-- ===== src/Linked/Look.antt =====
-- src/linked.rs: what the owner and a thief see at the head.
use ws_deque.Base.{
  ℕ, suc, ◌+◌, ◌-◌, ◌*◌, ◌≤◌, ◌<◌, ◌≡◌, refl, sym, ◌∙◌, ap, true, Bool-cases, inl, inr, Option,
  none, some, List, leb, get_or, get_elem?, get_elem?_of_ge, drop, length, length-drop, arith,
  Option-cases, get_elem?-none,
}
use ws_deque.Linked.{
  Node, Inner, LinkedStealer, load_slot, walk, load_cell, look, look_from, take, steal,
}
use ws_deque.Linked.Chain.{flat, load_slot-flat, node-flat, walk-finds}
use ws_deque.Linked.Stored.{Holds, get_elem?-exists}

module _ {ℓ} {A : Type ℓ} where
  -- What a look at the head finds.
  unfoldable pub seen : List A → ℕ → Option (ℕ × A)
  seen puts head = elim (get_elem? puts head) [ none ↦ none | some v ↦ some (head, v) ]

  seen-none : (puts : List A) (h : ℕ) → length puts ≤ h → seen puts h ≡ none
  unfolding seen
  seen-none puts h le = ground (arith, get_elem?_of_ge puts h le)

  -- The owner finds the task at the head, and nothing if all are taken.
  pub look-seen :
      {inner : Inner A} {puts : List A} → Holds inner puts → look inner ≡ seen puts inner.head
  unfolding look
  look-seen {inner} {puts} o = elim (Bool-cases (leb inner.tail inner.head)) [
    | inl all ↦
        let le : length puts ≤ inner.head = ground (arith, o.tail_puts) in
        rw (all, seen-none puts inner.head le) refl
    | inr more ↦
        let z : inner.head - 0 ≡ inner.head = omega arith in
        let slot : load_slot inner.nodes inner.head ≡ get_elem? puts inner.head =
          load_slot-flat 0 inner.nodes inner.head o.chain (omega arith)
          ∙ ap (λ i. get_or (flat inner.nodes) i none) z
          ∙ o.held inner.head in
        rw (more, slot) (unfold seen in refl)
  ]

  -- A thief's cached node is in the chain, at its base, and not past the head.
  pub record Cached (inner : Inner A) (s : LinkedStealer) : Type 0 where
    pub base : s.cur_base ≡ 64 * s.cur_node
    pub behind : s.cur_base ≤ inner.head
    pub linked : s.cur_node < length inner.nodes

  load_cell-some :
      (nodes : List (Node A)) (s : LinkedStealer) (head : ℕ) (node : Node A)
      → get_elem? nodes s.cur_node ≡ some node
      → load_cell nodes s head ≡ get_or node.cells (head - s.cur_base) none
  unfolding load_cell
  load_cell-some nodes s head node q = ground arith

  -- The walk of a thief, when a task is at the head.
  walk-Cached :
      {inner : Inner A} {puts : List A} {s : LinkedStealer}
      → Holds inner puts
      → Cached inner s
      → inner.head < inner.tail
      → let (found, s') = walk (drop (suc s.cur_node) inner.nodes) inner.head s in
        (found ≡ true)
        × Cached inner s'
        × (load_cell inner.nodes s' inner.head ≡ get_elem? puts inner.head)
  walk-Cached {inner} {puts} {s} o c more =
      let rest = drop (suc s.cur_node) inner.nodes in
      let n : length rest ≡ length inner.nodes - suc s.cur_node =
        length-drop (suc s.cur_node) inner.nodes in
      let f = walk-finds rest inner.head s c.behind (omega (arith, n, o.room, c.base, c.linked)) in
      let s' = (walk rest inner.head s).1 in
      let low : s'.cur_base ≡ 64 * s'.cur_node = omega (arith, f.3, c.base) in
      let bound : s'.cur_node < length inner.nodes = omega (arith, f.4, n, c.linked) in
      let (node, q) = get_elem?-exists inner.nodes s'.cur_node bound in
      let off : inner.head - s'.cur_base < 64 = omega (arith, f.1, f.2) in
      let cell =
        node-flat 0 inner.nodes s'.cur_node node (inner.head - s'.cur_base) o.chain q off in
      let index : 64 * s'.cur_node + (inner.head - s'.cur_base) ≡ inner.head =
        omega (arith, low, f.1) in
      (
        f.0,
        record { base = low; behind = f.1; linked = bound },
        load_cell-some inner.nodes s' inner.head node q
            ∙ (cell.1 ∙ ap (λ i. get_or (flat inner.nodes) i none) index ∙ o.held inner.head),
      )

  -- A thief finds the same, wherever its cached node is.
  pub look_from-seen :
      {inner : Inner A} {puts : List A} {s : LinkedStealer}
      → Holds inner puts
      → Cached inner s
      → ((look_from inner s).0 ≡ seen puts inner.head) × Cached inner (look_from inner s).1
  unfolding look_from
  look_from-seen {inner} {puts} {s} o c = elim (Bool-cases (leb inner.tail inner.head)) [
    | inl all ↦
        let le : length puts ≤ inner.head = ground (arith, o.tail_puts) in
        rw (all, seen-none puts inner.head le) (refl, c)
    | inr more ↦
        let (found, cached, cell) = walk-Cached o c (ground arith) in
        rw (more, found, cell) (unfold seen in refl, cached)
  ]

  pub seen-some :
      (puts : List A) (h : ℕ) (v : A) → get_elem? puts h ≡ some v → seen puts h ≡ some (h, v)
  unfolding seen
  seen-some puts h v q = ground arith

  -- A look reports the index of the head and the task put there.
  pub seen-inv :
      (puts : List A) (head h : ℕ) (v : A)
      → seen puts head ≡ some (h, v)
      → (h ≡ head) × (get_elem? puts h ≡ some v)
  seen-inv puts head h v e = elim (Option-cases (get_elem? puts head)) [
    | inl n ↦
        let z : seen puts head ≡ none = seen-none puts head (get_elem?-none puts head n) in
        absurd (cc)
    | inr (x, q) ↦
        let z : seen puts head ≡ some (head, x) = seen-some puts head x q in
        let same : h ≡ head = cc in
        let value : x ≡ v = cc in (same, ap (get_elem? puts) same ∙ q ∙ ap some value)
  ]

  -- The owner's take and a thief's steal do the same to the shared state and hand out the same task,
  -- whatever other threads do between the look and the update of the head.
  take-steal :
      {inner : Inner A} {puts : List A} {s : LinkedStealer} (others : Inner A → Inner A)
      → Holds inner puts
      → Cached inner s
      → take others inner ≡ ((steal others inner s).0, (steal others inner s).1)
  unfolding take steal
  take-steal {inner} {puts} {s} others o c =
      let e : look inner ≡ (look_from inner s).0 = look-seen o ∙ sym (look_from-seen o c).0 in
      ground (arith)
