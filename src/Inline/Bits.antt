-- ===== src/Inline/Bits.antt =====
-- src/inline.rs, `to_bits` and `from_bits`: a value of at most eight bytes, packed into the low bytes
-- of a 64-bit cell. How the compiler lays a value out in memory is a parameter, `Layout`.
use native.Mathlib.Nat.{pow-le-pow_right}
use ws_deque.Deque.Pow.{pow2-add}
use ws_deque.Base.{
  ℕ, zero, suc, ◌+◌, ◌*◌, ◌/◌, ◌%◌, ◌^◌, ◌≤◌, ◌<◌, ◌≡◌, ap, sym, ◌∙◌, refl, List, [], ◌∷◌, arith,
  length, word,
}

-- Each element is a byte.
unfoldable pub IsBytes : List ℕ → Type 0
IsBytes [] = Unit
IsBytes (b ∷ bs) = (b < 256) × IsBytes bs

-- The bytes of a `Copy` type in memory, lowest address first, as a bit copy reads and writes them.
-- `size_small` is the compile-time assertion of `to_bits`.
pub record Layout {ℓ} (T : Type ℓ) : Type ℓ where
  pub size_of : ℕ
  pub size_small : size_of ≤ 8
  pub bytes : T → List ℕ
  pub of_bytes : List ℕ → T
  pub length_bytes : (v : T) → length (bytes v) ≡ size_of
  pub bytes_IsBytes : (v : T) → IsBytes (bytes v)
  pub of_bytes_bytes : (v : T) → of_bytes (bytes v) ≡ v

-- A copy of bytes to the start of a zeroed word, the lowest address being the least significant.
unfoldable pub word_of : List ℕ → ℕ
word_of [] = 0
word_of (b ∷ bs) = b + 256 * word_of bs

-- The `n` lowest bytes of a word.
unfoldable pub low_bytes : ℕ → ℕ → List ℕ
low_bytes zero bits = []
low_bytes (suc n) bits = bits % 256 ∷ low_bytes n (bits / 256)

module _ {ℓ} {T : Type ℓ} (layout : Layout T) where
  unfoldable pub to_bits : T → ℕ
  unfolding word_of
  to_bits v = word_of (layout.bytes v)

  unfoldable pub from_bits : ℕ → T
  unfolding low_bytes
  from_bits bits = layout.of_bytes (low_bytes layout.size_of bits)

low_bytes-word_of : (bs : List ℕ) → IsBytes bs → low_bytes (length bs) (word_of bs) ≡ bs
unfolding low_bytes word_of IsBytes
low_bytes-word_of [] h = refl
low_bytes-word_of (b ∷ bs) (small, rest) =
    let low : (b + 256 * word_of bs) % 256 ≡ b = omega arith in
    let high : (b + 256 * word_of bs) / 256 ≡ word_of bs = omega arith in
    rw (low, high, low_bytes-word_of bs rest) refl

word_of-bound : (bs : List ℕ) → IsBytes bs → word_of bs < 2 ^ (8 * length bs)
unfolding word_of IsBytes
word_of-bound [] h = omega arith
word_of-bound (b ∷ bs) (small, rest) =
    let e : 8 * length (b ∷ bs) ≡ 8 + 8 * length bs = omega arith in
    let p : 2 ^ (8 + 8 * length bs) ≡ 2 ^ 8 * 2 ^ (8 * length bs) = pow2-add 8 (8 * length bs) in
    rw (e, p) (omega (arith, word_of-bound bs rest))

-- A value that `to_bits` packs fits its cell of 64 bits, and `from_bits` reads it back.
pub from_bits-to_bits {ℓ} :
    {T : Type ℓ} (layout : Layout T) (v : T)
    → (to_bits layout v < word) × (from_bits layout (to_bits layout v) ≡ v)
unfolding to_bits from_bits
from_bits-to_bits layout v =
    let bs = layout.bytes v in
    let n : length bs ≡ layout.size_of = layout.length_bytes v in
    let fits : 2 ^ (8 * length bs) ≤ 2 ^ 64 =
      pow-le-pow_right {n = 2} (omega arith) {i = 8 * length bs} {j = 64}
        (omega (arith, n, layout.size_small)) in
    let kept : low_bytes layout.size_of (word_of bs) ≡ bs =
      ap (λ k. low_bytes k (word_of bs)) (sym n) ∙ low_bytes-word_of bs (layout.bytes_IsBytes v) in
    (
      omega (arith, word_of-bound bs (layout.bytes_IsBytes v), fits),
      ap layout.of_bytes kept ∙ layout.of_bytes_bytes v,
    )
