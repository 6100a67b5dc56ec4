-- ===== src/Jiffy.antt =====
-- src/jiffy.rs: the queue of many producers and one consumer. The chain of buffers is a list and a pointer
-- to a buffer its position there; `next` of the last one is null. `buffer_size` is `BUFFER_SIZE`, which
-- depends on the build. `producer_step` is one step of one producer, up to its next access to what other
-- threads write; producers and the consumer step in any order.
pub mod Flat
pub mod Order
pub mod Steps
pub mod Fill
pub mod Dequeue
pub mod Fifo
mod Tests
use ws_deque.Base.{
  ℕ, zero, suc, ◌+◌, ◌-◌, ◌*◌, Bool, true, false, Option, none, some, List, [], ◌∷◌, ◌++◌,
  if◌then◌else◌, ltb, leb, ◌==◌, length, get_elem?, get_or, set, replicate,
}

-- `EMPTY`, `SET` and `HANDLED`.
pub data SlotState : Type 0 where
  vacant : SlotState
  filled : SlotState
  handled : SlotState

pub record Slot {ℓ} (A : Type ℓ) : Type ℓ where
  pub state : SlotState
  pub value : Option A

pub record Buffer {ℓ} (A : Type ℓ) : Type ℓ where
  pub slots : List (Slot A)
  pub base : ℕ

-- `Inner`: `buffers` is the chain from `first` on, `tail_buf` and `head_buf` are positions in it.
pub record Inner {ℓ} (A : Type ℓ) : Type ℓ where
  pub tail : ℕ
  pub tail_buf : ℕ
  pub buffers : List (Buffer A)
  pub head_buf : ℕ
  pub head : ℕ

-- Where a producer stands in `enqueue`, with the index it claimed and the value it brings.
pub data Pc {ℓ} (A : Type ℓ) : Type ℓ where
  idle : Pc A
  claimed : ℕ → A → Pc A  -- at the head of the loop of `locate_tail_buffer`
  linking : ℕ → A → ℕ → Pc A  -- before `link_next_buffer(buf)` in that loop
  advancing : ℕ → A → ℕ → Pc A  -- before the advance of `tail_buf`
  walking : ℕ → A → ℕ → Pc A  -- in the loop of `locate_from_head`, at `buf`
  storing : ℕ → A → ℕ → Pc A  -- before the write to the slot in `buf`
  stored : ℕ → ℕ → Pc A  -- before the eager link, with the offset
  lost : ℕ → A → Pc A  -- a null buffer was followed

module _ {ℓ} {A : Type ℓ} where
  abbrev pub empty_slot : Slot A
  empty_slot = record { state = vacant; value = none }

  module _ (buffer_size : ℕ) where
    -- `Buffer::new`
    unfoldable pub new_buffer : ℕ → Buffer A
    new_buffer base = record { slots = replicate buffer_size empty_slot; base = base }

    unfoldable pub channel : Inner A
    unfolding new_buffer
    channel = record { tail = 0; tail_buf = 0; buffers = new_buffer 0 ∷ []; head_buf = 0; head = 0 }

    -- The buffer behind a pointer that is not null.
    unfoldable pub buffer_at : Inner A → ℕ → Buffer A
    unfolding new_buffer
    buffer_at inner buf = get_or inner.buffers buf (new_buffer 0)

    -- `(*buf).next`
    abbrev pub next_of : Inner A → ℕ → Option ℕ
    next_of inner buf = if ltb (buf + 1) (length inner.buffers) then some (buf + 1) else none

    -- The load of `next` and the compare-exchange as one step: `next` is written once, so a compare-
    -- exchange that fails finds what the load would have found later.
    unfoldable pub link_next_buffer : Inner A → ℕ → Inner A
    unfolding buffer_at
    link_next_buffer inner buf = elim (next_of inner buf) [
      | some next ↦ inner
      | none ↦ record inner {
        buffers = inner.buffers ++ new_buffer ((buffer_at inner buf).base + buffer_size) ∷ [];
      }
    ]

    unfoldable pub set_slot : Inner A → ℕ → ℕ → Slot A → Inner A
    unfolding buffer_at
    set_slot inner buf offset slot =
        let b = buffer_at inner buf in
        record inner {
          buffers = set inner.buffers buf (record b { slots = set b.slots offset slot });
        }

    -- A round of `locate_tail_buffer` up to the next access, for the claimed index `idx`.
    unfoldable pub locate_tail_buffer : Inner A → ℕ → A → Pc A
    unfolding buffer_at
    locate_tail_buffer inner idx v =
        let buf = inner.tail_buf in
        let base = (buffer_at inner buf).base in
        if ltb idx base
        then walking idx v inner.head_buf
        else if ltb idx (base + buffer_size)
        then storing idx v buf
        else linking idx v buf

    unfoldable pub locate_from_head : Inner A → ℕ → A → ℕ → Pc A
    unfolding buffer_at
    locate_from_head inner idx v buf =
        if ltb idx ((buffer_at inner buf).base + buffer_size)
        then storing idx v buf
        else elim (next_of inner buf) [ none ↦ lost idx v | some next ↦ walking idx v next ]

    -- The load of `next` and the compare-exchange of `tail_buf`.
    unfoldable pub advance_tail : Inner A → ℕ → Inner A
    advance_tail inner buf = elim (next_of inner buf) [
      | none ↦ inner
      | some next ↦ if inner.tail_buf == buf then record inner { tail_buf = next } else inner
    ]

    -- One step of a producer; an idle one starts `enqueue(v)`.
    unfoldable pub producer_step : A → Inner A → Pc A → Inner A × Pc A
    producer_step v inner idle = (record inner { tail = inner.tail + 1 }, claimed inner.tail v)
    producer_step _ inner (claimed idx v) = (inner, locate_tail_buffer inner idx v)
    producer_step _ inner (linking idx v buf) = (link_next_buffer inner buf, advancing idx v buf)
    producer_step _ inner (advancing idx v buf) = (advance_tail inner buf, claimed idx v)
    producer_step _ inner (walking idx v buf) = (inner, locate_from_head inner idx v buf)
    producer_step _ inner (storing idx v buf) =
        let offset = idx - (buffer_at inner buf).base in
        (set_slot inner buf offset (record { state = filled; value = some v }), stored buf offset)
    producer_step _ inner (stored buf offset) =
        (if offset + 2 == buffer_size then link_next_buffer inner buf else inner, idle)
    producer_step _ inner (lost idx v) = (inner, lost idx v)

    -- A round of the loop of `dequeue`: it returns, or goes round again.
    unfoldable pub dequeue_slot : Inner A → ℕ → Slot A → Option (Option A) × Inner A
    dequeue_slot inner offset slot =
        let next = record inner { head = inner.head + 1 } in
        let taken = set_slot next inner.head_buf offset (record slot { state = handled }) in
        elim slot.state [
          | vacant ↦ (some none, inner)
          | handled ↦ (none, next)
          | filled ↦ (some slot.value, taken)
        ]

    unfoldable pub dequeue_round : Inner A → Option (Option A) × Inner A
    dequeue_round inner =
        if leb inner.tail inner.head
        then (some none, inner)
        else let buf = buffer_at inner inner.head_buf in
          let offset = inner.head - buf.base in
          if leb buffer_size offset
          then elim (next_of inner inner.head_buf) [
            | none ↦ (some none, inner)
            | some next ↦ (none, record inner { head_buf = next })
          ]
          else dequeue_slot inner offset (get_or buf.slots offset empty_slot)

    -- `dequeue` on fuel; `none` means that the fuel ran out.
    unfoldable pub dequeue : ℕ → Inner A → Option (Option A) × Inner A
    dequeue zero inner = (none, inner)
    dequeue (suc fuel) inner =
        let (out, inner') = dequeue_round inner in
        let again = dequeue fuel inner' in
        elim out [ some reply ↦ (some reply, inner') | none ↦ again ]

    unfoldable pub is_empty : Inner A → Bool
    is_empty inner = leb inner.tail inner.head

    -- `Drop`: the values that are still set, from the first buffer on.
    unfoldable pub drop_slots : List (Slot A) → List A
    drop_slots [] = []
    drop_slots (slot ∷ slots) =
        let rest = drop_slots slots in
        elim slot.state [ filled ↦ elim slot.value [ none ↦ rest | some v ↦ v ∷ rest ] | _ ↦ rest ]

    unfoldable pub drop_buffers : List (Buffer A) → List A
    unfolding drop_slots
    drop_buffers [] = []
    drop_buffers (b ∷ buffers) = drop_slots b.slots ++ drop_buffers buffers
