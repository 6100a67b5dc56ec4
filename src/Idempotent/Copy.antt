-- ===== src/Idempotent/Copy.antt =====
-- The arrays of src/idempotent.rs: the copy that `grow` makes, and the two writes of `put`.
use ws_deque.Base.{
  ℕ, zero, suc, ◌+◌, ◌≤◌, ◌<◌, ◌≡◌, refl, sym, ap, ◌∙◌, true, false, ◌&&◌, Option, none, some, List,
  [], ◌∷◌, ◌++◌, if◌then◌else◌, leb, ltb, get_or, get_elem?, set, replicate, length, arith,
  length-set, get_or-set_self, get_or-set_ne, length-append, get_elem?-append_left,
  get_elem?-append_end, get_elem?_of_ge,
}
use native.Mathlib.Decide.{ℕ_discrete, dec_lt}
use ws_deque.Idempotent.{copy_tasks}

pub get_or-replicate {ℓ} : {A : Type ℓ} (n i : ℕ) (v : A) → get_or (replicate n v) i v ≡ v
get_or-replicate zero i v = refl
get_or-replicate (suc n) zero v = refl
get_or-replicate (suc n) (suc i) v = get_or-replicate n i v

pub replicate-false : (n i : ℕ) → i < n → get_or (replicate n false) i true ≡ false
replicate-false zero i h = absurd (omega arith)
replicate-false (suc n) zero h = refl
replicate-false (suc n) (suc i) h = replicate-false n i (omega arith)

module _ {ℓ} {A : Type ℓ} where
  pub length-copy_tasks :
      (count i : ℕ) (old bigger : List (Option A))
      → length (copy_tasks count i old bigger) ≡ length bigger
  unfolding copy_tasks
  length-copy_tasks zero i old bigger = refl
  length-copy_tasks (suc count) i old bigger =
      length-copy_tasks count (i + 1) old (set bigger i (get_or old i none))
      ∙ length-set bigger i (get_or old i none)

  pub copy_tasks-at :
      (count i : ℕ) (old bigger : List (Option A)) (k : ℕ)
      → i + count ≤ length bigger
      → get_or (copy_tasks count i old bigger) k none
        ≡ (if leb i k && ltb k (i + count) then get_or old k none else get_or bigger k none)
  unfolding copy_tasks
  copy_tasks-at zero i old bigger k h = ground arith
  copy_tasks-at (suc count) i old bigger k h =
      let v = get_or old i none in
      let room : i + 1 + count ≤ length (set bigger i v) = omega (arith, length-set bigger i v) in
      copy_tasks-at count (i + 1) old (set bigger i v) k room ∙ elim (ℕ_discrete i k) [
        | yes same ↦ ground (
          arith,
          get_or-set_self bigger i v none,
          ap (λ m. get_or old m none) same,
          ap (λ m. get_or (set bigger i v) m none) same,
        )
        | no apart ↦ ground (arith, get_or-set_ne bigger i k v none apart)
      ]

  -- Writing a task and the empty cell behind it.
  pub written-held :
      (cells : List (Option A)) (puts : List A) (v : A)
      → length puts + 1 < length cells
      → ((i : ℕ) → get_or cells i none ≡ get_elem? puts i)
      → (i : ℕ)
      → get_or (set (set cells (length puts) (some v)) (length puts + 1) none) i none
        ≡ get_elem? (puts ++ v ∷ []) i
  written-held cells puts v h held i =
      let n = length puts in
      let first = set cells n (some v) in
      let wide = length-set cells n (some v) in
      elim (ℕ_discrete (n + 1) i) [
        | yes sentinel ↦ ground (
          arith,
          ap (λ k. get_or (set first (n + 1) none) k none) sentinel,
          get_or-set_self first (n + 1) none none,
          length-append puts (v ∷ []),
          get_elem?_of_ge (puts ++ v ∷ []) i,
        )
        | no apart ↦ get_or-set_ne first (n + 1) i none none apart ∙ elim (ℕ_discrete n i) [
          | yes end ↦ ground (
            arith,
            ap (λ k. get_or first k none) end,
            ap (get_elem? (puts ++ v ∷ [])) end,
            get_or-set_self cells n (some v) none,
            get_elem?-append_end puts v,
          )
          | no other ↦ get_or-set_ne cells n i (some v) none other ∙ held i ∙ elim (dec_lt i n) [
            | yes before ↦ sym (get_elem?-append_left puts (v ∷ []) i before)
            | no after ↦
                let all : length (puts ++ v ∷ []) ≤ i =
                  omega (arith, length-append puts (v ∷ [])) in
                get_elem?_of_ge puts i (omega arith) ∙ sym (get_elem?_of_ge (puts ++ v ∷ []) i all)
          ]
        ]
      ]
