-- ===== src/Linked/Sound.antt =====
-- src/linked.rs: what holds in every state that the threads reach.
use ws_deque.Base.{
  ℕ, zero, suc, ◌≤◌, ◌<◌, ◌≡◌, inl, inr, sym, ◌∙◌, ap, Option, Option-cases, none, some, List, [],
  ◌∷◌, ◌++◌, get_elem?, set, length, arith, get_elem?-set_self, get_elem?-set_ne,
}
use mathlib.Core.Path.{subst}
use native.Mathlib.Decide.{ℕ_discrete}
use ws_deque.Linked.{Inner, LinkedStealer, look, look_from}
use ws_deque.Linked.Stored.{Holds, Stored}
use ws_deque.Linked.Look.{Cached, seen, seen-inv, look-seen, look_from-seen}
use ws_deque.Linked.Threads.{Consumer, System, look_by, Falling, Handed, Delivered}

module _ {ℓ} {A : Type ℓ} where
  -- What holds of each consumer.
  pub record Good (inner : Inner A) (ps : List A) (c : Consumer A) : Type ℓ where
    pub cached : (s : LinkedStealer) → c.cursor ≡ some s → Cached inner s
    pub order : Falling ps inner.head c.taken
    pub pending :
        (h : ℕ) (v : A)
        → c.looked ≡ some (h, v)
        → (h ≤ inner.head) × (get_elem? ps h ≡ some v) × Falling ps h c.taken

  pub record Sound (sys : System A) (ps : List A) : Type ℓ where
    pub stored : Stored sys.worker ps
    pub each :
        (i : ℕ) (c : Consumer A) → get_elem? sys.consumers i ≡ some c → Good sys.worker.inner ps c
    pub delivered : (j : ℕ) → j < sys.worker.inner.head → Delivered sys.consumers j

  Falling-mono :
      (ps ps' : List A) (l : List (ℕ × A)) (b b' : ℕ)
      → ((j : ℕ) (v : A) → get_elem? ps j ≡ some v → get_elem? ps' j ≡ some v)
      → b ≤ b'
      → Falling ps b l
      → Falling ps' b' l
  unfolding Falling
  Falling-mono ps ps' [] b b' kept le f = tt
  Falling-mono ps ps' ((j, v) ∷ rest) b b' kept le (lt, q, f) =
      (omega arith, kept j v q, Falling-mono ps ps' rest j j kept (omega arith) f)

  pub Good-later :
      {ps ps' : List A} {c : Consumer A} {inner inner' : Inner A}
      → inner.head ≤ inner'.head
      → length inner.nodes ≤ length inner'.nodes
      → ((j : ℕ) (v : A) → get_elem? ps j ≡ some v → get_elem? ps' j ≡ some v)
      → Good inner ps c
      → Good inner' ps' c
  Good-later {ps} {ps'} {c} heads nodes kept g = record {
    cached = λ s e.
        let k = g.cached s e in
        record {
          base = k.base;
          behind = omega (arith, k.behind);
          linked = omega (arith, k.linked);
        };
    order = Falling-mono ps ps' c.taken _ _ kept heads g.order;
    pending = λ h v e.
        let k = g.pending h v e in
        (omega (arith, k.0), kept h v k.1, Falling-mono ps ps' c.taken h h kept (omega arith) k.2);
  }

  -- One consumer changes.
  pub set-each :
      {P : Consumer A → Type ℓ} (cs : List (Consumer A)) (i : ℕ) (c c' : Consumer A)
      → get_elem? cs i ≡ some c
      → ((k : ℕ) (d : Consumer A) → get_elem? cs k ≡ some d → P d)
      → P c'
      → (k : ℕ) (d : Consumer A) → get_elem? (set cs i c') k ≡ some d
      → P d
  set-each {P} cs i c c' q old fresh k d e = elim (ℕ_discrete i k) [
    | yes same ↦
        let self : get_elem? (set cs i c') i ≡ some c' = get_elem?-set_self cs i c c' q in
        let e' : get_elem? (set cs i c') i ≡ some d = ap (get_elem? (set cs i c')) same ∙ e in
        let value : c' ≡ d = cc in subst P value fresh
    | no other ↦ old k d (sym (get_elem?-set_ne cs i k c' other) ∙ e)
  ]

  pub set-Delivered :
      {cs : List (Consumer A)} {j : ℕ} (i : ℕ) (c c' : Consumer A)
      → get_elem? cs i ≡ some c
      → (Handed j c.taken → Handed j c'.taken)
      → Delivered cs j
      → Delivered (set cs i c') j
  set-Delivered {cs} {j} i c c' q more d = elim (ℕ_discrete i d.who) [
    | yes same ↦
        let e : get_elem? cs i ≡ some d.consumer = ap (get_elem? cs) same ∙ d.there in
        let value : d.consumer ≡ c = cc in
        record {
          who = i;
          consumer = c';
          there = get_elem?-set_self cs i c c' q;
          handed = more (subst (λ (x : Consumer A). Handed j x.taken) value d.handed);
        }
    | no other ↦ record {
      who = d.who;
      consumer = d.consumer;
      there = get_elem?-set_ne cs i d.who c' other ∙ d.there;
      handed = d.handed;
    }
  ]

  -- A consumer that has just looked.
  Good-looked :
      {inner : Inner A} {ps : List A} {c : Consumer A} (cursor : Option LinkedStealer)
      (looked : Option (ℕ × A))
      → Good inner ps c
      → ((s : LinkedStealer) → cursor ≡ some s → Cached inner s)
      → looked ≡ seen ps inner.head
      → Good inner ps (record { cursor = cursor; looked = looked; taken = c.taken })
  Good-looked {inner} {ps} {c} cursor looked g cached same = record {
    cached = cached;
    order = g.order;
    pending = λ h v e.
        let (at_head, q) = seen-inv ps inner.head h v (sym same ∙ e) in
        (omega arith, q, subst (λ b. Falling ps b c.taken) (sym at_head) g.order);
  }

  pub look_by-owner :
      (inner : Inner A) (c : Consumer A)
      → c.cursor ≡ none
      → look_by inner c ≡ record { cursor = c.cursor; looked = look inner; taken = c.taken }
  unfolding look_by
  look_by-owner inner c e = ground arith

  pub look_by-thief :
      (inner : Inner A) (c : Consumer A) (s : LinkedStealer)
      → c.cursor ≡ some s
      → look_by inner c ≡ record {
        cursor = some (look_from inner s).1;
        looked = (look_from inner s).0;
        taken = c.taken;
      }
  unfolding look_by
  look_by-thief inner c s e = ground arith

  pub taken-look_by : (inner : Inner A) (c : Consumer A) → (look_by inner c).taken ≡ c.taken
  unfolding look_by
  taken-look_by inner c = ground arith

  pub look_by-Good :
      {inner : Inner A} {ps : List A} {c : Consumer A}
      → Holds inner ps
      → Good inner ps c
      → Good inner ps (look_by inner c)
  look_by-Good {inner} {ps} {c} o g = elim (Option-cases c.cursor) [
    | inl e ↦
        rw (look_by-owner inner c e) (Good-looked c.cursor (look inner) g g.cached (look-seen o))
    | inr (s, e) ↦
        let (same, cached) = look_from-seen o (g.cached s e) in
        rw (look_by-thief inner c s e) (
          Good-looked (some (look_from inner s).1) (look_from inner s).0 g
            (λ t q. let value : (look_from inner s).1 ≡ t = cc in subst (Cached inner) value cached)
            same)
  ]

  -- The new consumer and the old ones.
  pub append-each :
      {P : Consumer A → Type ℓ} (cs : List (Consumer A)) (c : Consumer A)
      → ((k : ℕ) (d : Consumer A) → get_elem? cs k ≡ some d → P d)
      → P c
      → (k : ℕ) (d : Consumer A) → get_elem? (cs ++ c ∷ []) k ≡ some d
      → P d
  append-each {P} [] c old new zero d e = let value : c ≡ d = cc in subst P value new
  append-each [] c old new (suc k) d e = absurd (cc)
  append-each (x ∷ cs) c old new zero d e = old 0 d e
  append-each {P} (x ∷ cs) c old new (suc k) d e =
      append-each {P = P} cs c (λ k d e. old (suc k) d e) new k d e
