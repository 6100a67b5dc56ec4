-- ===== src/Inline/Tests.antt =====
-- The inline deque at a concrete type of one byte, and runs of its code.
use ws_deque.Base.{
  ℕ, suc, length, ◌-◌, ◌^◌, ◌<◌, ◌≡◌, refl, Bool, true, false, none, some, List, [], ◌∷◌, arith,
  word,
}
use ws_deque.Deque.Spec
use ws_deque.Deque.Steal
use ws_deque.Deque.Spec.{Op}
use ws_deque.Deque.Worker
use ws_deque.Inline.{
  with_log_capacity, push, pop, pop_last, steal, refresh_top, ensure_room, perhaps_shrink,
  replace_buffer, resized, copy_cells, store, load, cell,
}
use ws_deque.Inline.Bits.{IsBytes, Layout, to_bits, from_bits, from_bits-to_bits}
use ws_deque.Inline.Refine.{run_inline, steal_call, run_inline-boxed}

abbrev bool_bytes : Bool → List ℕ
bool_bytes false = 0 ∷ []
bool_bytes true = 1 ∷ []

abbrev bool_of : List ℕ → Bool
bool_of (suc _ ∷ _) = true
bool_of _ = false

bool_bytes-IsBytes : (b : Bool) → IsBytes (bool_bytes b)
unfolding IsBytes
bool_bytes-IsBytes false = (omega arith, tt)
bool_bytes-IsBytes true = (omega arith, tt)

length-bool_bytes : (b : Bool) → length (bool_bytes b) ≡ 1
length-bool_bytes false = refl
length-bool_bytes true = refl

bool_of-bool_bytes : (b : Bool) → bool_of (bool_bytes b) ≡ b
bool_of-bool_bytes false = refl
bool_of-bool_bytes true = refl

abbrev bool_layout : Layout Bool
bool_layout = record {
  size_of = 1;
  size_small = omega arith;
  bytes = bool_bytes;
  of_bytes = bool_of;
  length_bytes = length-bool_bytes;
  bytes_IsBytes = bool_bytes-IsBytes;
  of_bytes_bytes = bool_of-bool_bytes;
}

abbrev calls : List (Op Bool)
calls = Op.push true ∷ Op.push false ∷ Op.push true ∷ Op.pop ∷ Op.steal ∷ Op.pop ∷ Op.pop ∷ []

-- The calls on two slots, evaluated: the second push grows the buffer.
run_inline-calls :
    run_inline bool_layout (with_log_capacity 1) calls
    ≡ none ∷ none ∷ none ∷ some true ∷ some true ∷ some false ∷ none ∷ []
unfolding run_inline steal_call with_log_capacity push pop pop_last steal refresh_top ensure_room
    perhaps_shrink replace_buffer resized copy_cells store load cell to_bits from_bits Steal.value
run_inline-calls = refl

run_inline-boxed_example :
    run_inline bool_layout (with_log_capacity 1) calls
    ≡ Spec.run (Worker.with_start_index 5 (2 ^ 64 - 1)) calls
run_inline-boxed_example =
    run_inline-boxed bool_layout 1 5 (2 ^ 64 - 1) calls (omega arith) (omega arith) (omega arith)
      (omega arith)

from_bits-to_bits_example :
    (to_bits bool_layout true < word) × (from_bits bool_layout (to_bits bool_layout true) ≡ true)
from_bits-to_bits_example = from_bits-to_bits bool_layout true
