-- ===== src/Scheduler/Requests.antt =====
-- src/scheduler.rs, `register_lifelines`: what the workers' lists of requests hold afterwards.
use native.Mathlib.Decide.{ℕ_discrete}
use ws_deque.Base.{
  ℕ, ◌+◌, ◌≤◌, ◌<◌, ◌≡◌, ◌≢◌, refl, sym, ◌∙◌, ap, true, false, Bool-cases, inl, inr, List, [], ◌∷◌,
  ◌++◌, if◌then◌else◌, ◌==◌, get_or, get_or-set_self, get_or-set_ne, length, length-set, arith,
}
use mathlib.Core.Path.{subst}
use ws_deque.Scheduler.{contains, register, register_lifelines}
use ws_deque.Scheduler.Cube.{Among}

-- How often a worker stands in a list of requests.
unfoldable pub times : ℕ → List ℕ → ℕ
times me [] = 0
times me (x ∷ reqs) = let rest = times me reqs in if x == me then rest + 1 else rest

times-absent : (me : ℕ) (reqs : List ℕ) → contains reqs me ≡ false → times me reqs ≡ 0
unfolding times contains
times-absent me [] e = refl
times-absent me (x ∷ reqs) e = elim (Bool-cases (x == me)) [
  | inl t ↦ absurd (let f = rw t at e in cc)
  | inr t ↦ rw t (times-absent me reqs (rw t at e))
]

times-present : (me : ℕ) (reqs : List ℕ) → contains reqs me ≡ true → 1 ≤ times me reqs
unfolding times contains
times-present me [] e = absurd (cc)
times-present me (x ∷ reqs) e = elim (Bool-cases (x == me)) [
  | inl t ↦ rw t (omega arith)
  | inr t ↦ rw t (times-present me reqs (rw t at e))
]

times-append : (me : ℕ) (reqs : List ℕ) → times me (reqs ++ me ∷ []) ≡ times me reqs + 1
unfolding times
times-append me [] = ground arith
times-append me (x ∷ reqs) = elim (Bool-cases (x == me)) [
  | inl t ↦ rw t (ap (λ k. k + 1) (times-append me reqs))
  | inr t ↦ rw t (times-append me reqs)
]

-- How often `me` stands in the requests of worker `b`.
requests_of : List (List ℕ) → ℕ → ℕ → ℕ
requests_of requests me b = times me (get_or requests b [])

module _ (requests : List (List ℕ)) (me buddy : ℕ) where
  register_other :
      (b : ℕ)
      → buddy ≢ b
      → requests_of (register requests me buddy) me b ≡ requests_of requests me b
  unfolding register requests_of
  register_other b n = elim (Bool-cases (contains (get_or requests buddy []) me)) [
    | inl t ↦ rw t refl
    | inr t ↦
        rw t (
          ap (times me) (get_or-set_ne requests buddy b (get_or requests buddy [] ++ me ∷ []) [] n))
  ]

  register_self :
      buddy < length requests
      → requests_of requests me buddy ≤ 1
      → requests_of (register requests me buddy) me buddy ≡ 1
  unfolding register requests_of
  register_self lt once = elim (Bool-cases (contains (get_or requests buddy []) me)) [
    | inl t ↦ rw t (omega (arith, times-present me (get_or requests buddy []) t))
    | inr t ↦
        let reqs = get_or requests buddy [] in
        rw t (
          ap (times me) (get_or-set_self requests buddy (reqs ++ me ∷ []) [] lt)
          ∙ times-append me reqs
          ∙ ap (λ k. k + 1) (times-absent me reqs t))
  ]

  length-register : length (register requests me buddy) ≡ length requests
  unfolding register
  length-register = elim (Bool-cases (contains (get_or requests buddy []) me)) [
    | inl t ↦ rw t refl
    | inr t ↦ rw t (length-set requests buddy (get_or requests buddy [] ++ me ∷ []))
  ]

  register_once :
      buddy < length requests
      → ((b : ℕ) → requests_of requests me b ≤ 1)
      → (b : ℕ) → requests_of (register requests me buddy) me b ≤ 1
  register_once lt once b = elim (ℕ_discrete buddy b) [
    | yes e ↦
        omega
          (arith, register_self lt (once buddy), ap (requests_of (register requests me buddy) me) e)
    | no n ↦ omega (arith, register_other b n, once b)
  ]

-- Every buddy is a worker.
unfoldable pub AllBelow : ℕ → List ℕ → Type 0
AllBelow n [] = Unit
AllBelow n (x ∷ xs) = (x < n) × AllBelow n xs

-- Registering keeps a worker that is there once there once.
register_keeps :
    (requests : List (List ℕ)) (me buddy b : ℕ)
    → buddy < length requests
    → requests_of requests me b ≡ 1
    → requests_of (register requests me buddy) me b ≡ 1
register_keeps requests me buddy b lt one = elim (ℕ_discrete buddy b) [
  | yes e ↦
      let one' : requests_of requests me buddy ≡ 1 = ap (requests_of requests me) e ∙ one in
      ap (requests_of (register requests me buddy) me) (sym e)
      ∙ register_self requests me buddy lt (omega arith)
  | no n ↦ register_other requests me buddy b n ∙ one
]

lifelines-keep :
    (buddies : List ℕ) (requests : List (List ℕ)) (me b : ℕ)
    → AllBelow (length requests) buddies
    → requests_of requests me b ≡ 1
    → requests_of (register_lifelines requests me buddies) me b ≡ 1
unfolding register_lifelines AllBelow
lifelines-keep [] requests me b all one = one
lifelines-keep (x ∷ buddies) requests me b (lt, all) one =
    lifelines-keep buddies (register requests me x) me b
      (subst (λ n. AllBelow n buddies) (sym (length-register requests me x)) all)
      (register_keeps requests me x b lt one)

lifelines-once :
    (buddies : List ℕ) (requests : List (List ℕ)) (me b : ℕ)
    → AllBelow (length requests) buddies
    → ((k : ℕ) → requests_of requests me k ≤ 1)
    → Among b buddies
    → requests_of (register_lifelines requests me buddies) me b ≡ 1
unfolding register_lifelines AllBelow Among
lifelines-once [] requests me b all once a = absurd a
lifelines-once (x ∷ buddies) requests me b (lt, all) once (inl e) =
    lifelines-keep buddies (register requests me x) me b
      (subst (λ n. AllBelow n buddies) (sym (length-register requests me x)) all)
      (ap (requests_of (register requests me x) me) (sym e)
        ∙ register_self requests me x lt (once x))
lifelines-once (x ∷ buddies) requests me b (lt, all) once (inr a) =
    lifelines-once buddies (register requests me x) me b
      (subst (λ n. AllBelow n buddies) (sym (length-register requests me x)) all)
      (register_once requests me x lt once) a

-- A worker that stood in each list of requests once at most stands in that of each of its lifelines
-- exactly once after it has registered, however often it registered before.
pub register_lifelines-once :
    (buddies : List ℕ) (requests : List (List ℕ)) (me b : ℕ)
    → AllBelow (length requests) buddies
    → ((k : ℕ) → times me (get_or requests k []) ≤ 1)
    → Among b buddies
    → times me (get_or (register_lifelines requests me buddies) b []) ≡ 1
unfolding requests_of
register_lifelines-once buddies requests me b all once a =
    lifelines-once buddies requests me b all once a
