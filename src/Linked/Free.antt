-- ===== src/Linked/Free.antt =====
-- src/linked.rs: what dropping the queue frees.
use ws_deque.Base.{
  ℕ, suc, ◌≡◌, refl, sym, ◌∙◌, ap, Option, none, some, List, [], ◌∷◌, ◌++◌, get_or, get_elem?,
}
use ws_deque.Linked.{Node, Inner, drop_cells, drop_nodes}
use ws_deque.Linked.Chain.{flat}
use ws_deque.Linked.Stored.{Holds}

module _ {ℓ} {A : Type ℓ} where
  drop_cells-exact :
      (cells : List (Option A)) (puts : List A)
      → ((j : ℕ) → get_or cells j none ≡ get_elem? puts j)
      → drop_cells cells ≡ puts
  unfolding drop_cells
  drop_cells-exact [] [] h = refl
  drop_cells-exact [] (x ∷ puts) h = absurd (let e = h 0 in cc)
  drop_cells-exact (none ∷ cells) [] h = drop_cells-exact cells [] (λ j. h (suc j))
  drop_cells-exact (none ∷ cells) (x ∷ puts) h = absurd (let e = h 0 in cc)
  drop_cells-exact (some y ∷ cells) [] h = absurd (let e = h 0 in cc)
  drop_cells-exact (some y ∷ cells) (x ∷ puts) h =
      let e : some y ≡ some x = h 0 in
      let same : y ≡ x = cc in
      rw same (ap (λ l. x ∷ l) (drop_cells-exact cells puts (λ j. h (suc j))))

  drop_cells-append :
      (xs ys : List (Option A)) → drop_cells (xs ++ ys) ≡ drop_cells xs ++ drop_cells ys
  unfolding drop_cells
  drop_cells-append [] ys = refl
  drop_cells-append (none ∷ xs) ys = drop_cells-append xs ys
  drop_cells-append (some x ∷ xs) ys = ap (λ l. x ∷ l) (drop_cells-append xs ys)

  drop_nodes-flat : (nodes : List (Node A)) → drop_nodes nodes ≡ drop_cells (flat nodes)
  unfolding drop_nodes flat
  drop_nodes-flat [] = unfold drop_cells in refl
  drop_nodes-flat (node ∷ rest) =
      ap (λ l. drop_cells node.cells ++ l) (drop_nodes-flat rest)
      ∙ sym (drop_cells-append node.cells (flat rest))

  -- Dropping the queue frees every task that was put, each once.
  drop_nodes-Holds :
      {inner : Inner A} {puts : List A} → Holds inner puts → drop_nodes inner.nodes ≡ puts
  drop_nodes-Holds {inner} {puts} o =
      drop_nodes-flat inner.nodes ∙ drop_cells-exact (flat inner.nodes) puts o.held
