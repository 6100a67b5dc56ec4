-- ===== src/Bwos/Unbounded/Hold.antt =====
-- src/bwos.rs, `unbounded`: the queue holds a list of values, and what `put` does to it.
use ws_deque.Base.{
  ℕ, suc, ◌+◌, ◌<◌, ◌≡◌, ◌≢◌, refl, sym, ◌∙◌, ap, true, none, some, List, [], ◌∷◌, ◌++◌, map,
  append_assoc, append-nil, arith, length, length-replicate, get_elem?, get_elem?-bound, set, take,
  length-set,
}
use mathlib.Core.List.{map-append}
use mathlib.Core.Path.{subst}
use native.Mathlib.Decide.{ℕ_discrete}
use ws_deque.Bwos
use ws_deque.Bwos.Put.{
  items, contents, contents-set, contents-split, DrainedAfter, AllSized, IsSized, IsSized-get_or,
  items-filled,
}
use ws_deque.Bwos.Ends.{DrainedAfter-set, AllSized-set}
use ws_deque.Bwos.Unbounded.{
  Block, Inner, UnboundedBwosWorker, new_block, block_at, set_block, slots_write, link_fresh, fill,
  put,
}
use ws_deque.Bwos.Unbounded.Chain.{
  plain, view, Chained, length-view, get_or-view, view-set, Chained-set,
}
use ws_deque.Bwos.Unbounded.Fresh.{
  cut_after, cut_after-end, contents-cut_after, DrainedAfter-cut_after, AllSized-cut_after,
  fresh_block, view-link_fresh, Chained-link_fresh, first-cut_after,
}

module _ {ℓ} {A : Type ℓ} where
  -- The blocks at `chain` are the queue's, from the head on.
  pub record Linked (inner : Inner A) (chain : List ℕ) : Type 0 where
    pub links : Chained inner.memory chain
    pub first : get_elem? chain 0 ≡ some inner.head
    pub positive : 0 < inner.block_size
    pub sized : AllSized inner.block_size (view inner.memory chain)

  -- The owner works in the block at index `j`, those behind it are drained, and the queue holds `xs`.
  pub record Holds (w : UnboundedBwosWorker A) (chain : List ℕ) (j : ℕ) (xs : List A) : Type ℓ where
    pub linked : Linked w.inner chain
    pub here : get_elem? chain j ≡ some w.owner_block
    pub behind : DrainedAfter j (view w.inner.memory chain)
    pub held : contents (view w.inner.memory chain) ≡ map some xs

  abbrev pub unused : Bwos.Block A
  unused = Bwos.new_block 0

  pub block-IsSized :
      (inner : Inner A) (chain : List ℕ) (i a : ℕ)
      → Linked inner chain
      → get_elem? chain i ≡ some a
      → IsSized inner.block_size (plain (block_at inner.memory a))
  block-IsSized inner chain i a k q =
      subst (IsSized inner.block_size) (get_or-view inner.memory chain i a unused q) (
        IsSized-get_or inner.block_size (view inner.memory chain) i unused k.sized
          (omega (arith, length-view inner.memory chain, get_elem?-bound chain i a q)))

  -- A store to a block that keeps its links.
  pub view-set_block :
      (inner : Inner A) (chain : List ℕ) (i a : ℕ) (b : Block A)
      → Chained inner.memory chain
      → get_elem? chain i ≡ some a
      → view (set_block inner a b).memory chain ≡ set (view inner.memory chain) i (plain b)
  unfolding set_block
  view-set_block inner chain i a b k q =
      view-set inner.memory chain i a b q (λ i' r. k.distinct i' i a r q) (k.allocated i a q)

  pub set_block-Linked :
      (inner : Inner A) (chain : List ℕ) (i a : ℕ) (b : Block A)
      → Linked inner chain
      → get_elem? chain i ≡ some a
      → b.next ≡ (block_at inner.memory a).next
      → b.prev ≡ (block_at inner.memory a).prev
      → IsSized inner.block_size (plain b)
      → Linked (set_block inner a b) chain
  unfolding set_block
  set_block-Linked inner chain i a b k q n p s = record {
    links = Chained-set a b k.links (k.links.allocated i a q) n p;
    first = k.first;
    positive = k.positive;
    sized =
        subst (AllSized inner.block_size) (sym (view-set_block inner chain i a b k.links q))
          (AllSized-set inner.block_size (view inner.memory chain) i (plain b) k.sized s);
  }

  fill-Linked :
      (inner : Inner A) (chain : List ℕ) (j a : ℕ) (v : A)
      → Linked inner chain
      → get_elem? chain j ≡ some a
      → (block_at inner.memory a).committed < inner.block_size
      → let bottom = (block_at inner.memory a).committed in
        Linked (fill inner a bottom v) chain
        × (view (fill inner a bottom v).memory chain
            ≡ set
                (view inner.memory chain)
                j
                (record (Bwos.slots_write (plain (block_at inner.memory a)) bottom v) {
                  committed = bottom + 1;
                }))
  unfolding fill slots_write Bwos.slots_write
  fill-Linked inner chain j a v k q room =
      let b : Block A =
        record (slots_write (block_at inner.memory a) (block_at inner.memory a).committed v) {
          committed = (block_at inner.memory a).committed + 1;
        } in
      let s = block-IsSized inner chain j a k q in
      (
        set_block-Linked inner chain j a b k q refl refl (
          length-set (block_at inner.memory a).slots (block_at inner.memory a).committed (some v)
              ∙ s.0,
          omega arith,
          omega arith,
        ),
        view-set_block inner chain j a b k.links q,
      )

  -- A block with room takes the value.
  fill-Holds :
      {w : UnboundedBwosWorker A} {chain : List ℕ} {xs : List A} (j : ℕ) (v : A)
      → Holds w chain j xs
      → let bottom = (block_at w.inner.memory w.owner_block).committed in
        bottom < w.inner.block_size
        → Holds (record w { inner = fill w.inner w.owner_block bottom v }) chain j (xs ++ v ∷ [])
  unfolding fill set_block
  fill-Holds {w} {chain} {xs} j v o room =
      let a = w.owner_block in
      let bs = view w.inner.memory chain in
      let b = plain (block_at w.inner.memory a) in
      let (kept, seen) = fill-Linked w.inner chain j a v o.linked o.here room in
      let in_list : j < length bs =
        omega (arith, length-view w.inner.memory chain, get_elem?-bound chain j a o.here) in
      let s = block-IsSized w.inner chain j a o.linked o.here in
      record {
        linked = kept;
        here = o.here;
        behind = subst (DrainedAfter j) (sym seen) (DrainedAfter-set bs j _ o.behind);
        held =
            ap contents seen
            ∙ contents-set bs j _ in_list o.behind
            ∙ ap (λ l. contents (take j bs) ++ l) (items-filled b v s.1 (omega (arith, s.0)))
            ∙ sym (append_assoc (contents (take j bs)) (items b) (some v ∷ []))
            ∙ ap (λ l. l ++ some v ∷ [])
                (ap (λ c. contents (take j bs) ++ items c)
                    (sym (get_or-view w.inner.memory chain j a unused o.here))
                  ∙ sym (contents-split bs j unused in_list o.behind)
                  ∙ o.held)
            ∙ sym (map-append some xs (v ∷ []));
      }

  -- A fresh block holds nothing.
  link_fresh-Holds :
      {w : UnboundedBwosWorker A} {chain : List ℕ} {xs : List A} (j : ℕ)
      → Holds w chain j xs
      → Holds
          (record { inner = link_fresh w.inner w.owner_block; owner_block = length w.inner.memory })
          (cut_after chain j (length w.inner.memory))
          (suc j)
          xs
  unfolding link_fresh
  link_fresh-Holds {w} {chain} {xs} j o =
      let a = w.owner_block in
      let inner = w.inner in
      let known = o.linked.links.allocated j a o.here in
      let bs = view inner.memory chain in
      let blank : Bwos.Block A = plain (new_block inner.block_size (some a)) in
      let seen = view-link_fresh inner a known chain j o.linked.links o.here in
      let in_list : j < length bs =
        omega (arith, length-view inner.memory chain, get_elem?-bound chain j a o.here) in
      record {
        linked = record {
          links = Chained-link_fresh inner a known chain j o.linked.links o.here;
          first = first-cut_after chain j (length inner.memory) ∙ o.linked.first;
          positive = o.linked.positive;
          sized = subst (AllSized inner.block_size) (sym seen) (
              AllSized-cut_after inner.block_size bs j blank o.linked.sized (
                unfold new_block in
                (length-replicate inner.block_size none, omega arith, omega arith)));
        };
        here = cut_after-end chain j (length inner.memory) (get_elem?-bound chain j a o.here);
        behind = subst (DrainedAfter (suc j)) (sym seen) (DrainedAfter-cut_after bs j blank);
        held =
            ap contents seen
            ∙ contents-cut_after bs j blank in_list o.behind
            ∙ append-nil (contents bs)
            ∙ o.held;
      }

  put-room :
      (w : UnboundedBwosWorker A) (v : A)
      → let bottom = (block_at w.inner.memory w.owner_block).committed in
        bottom ≢ w.inner.block_size
        → put w v ≡ (true, record w { inner = fill w.inner w.owner_block bottom v })
  unfolding put
  put-room w v n = ground arith

  put-full :
      (w : UnboundedBwosWorker A) (v : A)
      → (block_at w.inner.memory w.owner_block).committed ≡ w.inner.block_size
      → put w v ≡ (
        true,
        record {
          inner = fill (link_fresh w.inner w.owner_block) (length w.inner.memory) 0 v;
          owner_block = length w.inner.memory;
        },
      )
  unfolding put
  put-full w v e = ground arith

  -- `put` accepts the value and appends it to what the queue holds, also when it links a fresh block in the
  -- place of drained ones.
  pub put-Holds :
      {w : UnboundedBwosWorker A} {chain : List ℕ} {j : ℕ} {xs : List A} (v : A)
      → Holds w chain j xs
      → ((put w v).0 ≡ true)
        × (chain' : List ℕ) × (j' : ℕ) × Holds (put w v).1 chain' j' (xs ++ v ∷ [])
  put-Holds {w} {chain} {j} {xs} v o =
      let b = block_at w.inner.memory w.owner_block in
      let s = block-IsSized w.inner chain j w.owner_block o.linked o.here in
      elim (ℕ_discrete b.committed w.inner.block_size) [
        | no n ↦ rw (put-room w v n) (refl, chain, j, fill-Holds j v o (omega (arith, s.2)))
        | yes e ↦
            let n = length w.inner.memory in
            let fresh = link_fresh-Holds j o in
            let zero_bottom : (block_at (link_fresh w.inner w.owner_block).memory n).committed ≡ 0 =
              ap (λ (c : Block A). c.committed)
                (fresh_block w.inner w.owner_block
                  (o.linked.links.allocated j w.owner_block o.here))
              ∙ unfold new_block in refl in
            rw (put-full w v e) (
              refl,
              cut_after chain j n,
              suc j,
              subst
                  (λ i.
                    Holds
                      (record {
                        inner = fill (link_fresh w.inner w.owner_block) n i v;
                        owner_block = n;
                      })
                      (cut_after chain j n) (suc j) (xs ++ v ∷ []))
                  zero_bottom
                  (fill-Holds (suc j) v fresh (omega (arith, zero_bottom, fresh.linked.positive))),
            )
      ]
