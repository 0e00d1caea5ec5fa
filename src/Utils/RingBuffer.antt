-- ===== src/Utils/RingBuffer.antt =====
-- internal/utils/ring_buffer.go: a buffer of a fixed size that overwrites its oldest element.
-- The mutex makes each method one step, so a method is a function to the new buffer. A slice is
-- its elements: what `Data` returns may share memory with the buffer, which is not modelled.
-- `none` is Go's panic on an index out of range.
pub mod Laws
pub mod History
use dozzle_gaia_fork.Common.{
  ℕ, ◌+◌, ◌-◌, ◌%◌, Option, none, some, List, [], ◌∷◌, ◌++◌, length, take, drop, set, ltb, ◌==◌,
  if◌then◌else◌,
}

-- The field `items` is the source's `data`, which is a reserved word here.
pub record RingBuffer {ℓ} (A : Type ℓ) : Type ℓ where
  pub size : ℕ
  pub items : List A
  pub start : ℕ

module _ {ℓ} {A : Type ℓ} where
  unfoldable pub new_ring_buffer : ℕ → RingBuffer A
  new_ring_buffer size = record { size = size; items = []; start = 0 }

  unfoldable pub ring_buffer_from : ℕ → List A → RingBuffer A
  unfolding new_ring_buffer
  ring_buffer_from size items = if length items == 0 then new_ring_buffer size else record {
    size = size;
    items = if ltb size (length items) then drop (length items - size) items else items;
    start = 0;
  }

  unfoldable pub push : RingBuffer A → A → Option (RingBuffer A)
  push r x =
      if length r.items == r.size
      then if ltb r.start (length r.items)
        then some (record r { items = set r.items r.start x; start = (r.start + 1) % r.size })
        else none
      else some (record r { items = r.items ++ (x ∷ []) })

  unfoldable pub len : RingBuffer A → ℕ
  len r = length r.items

  unfoldable pub clear : RingBuffer A → RingBuffer A
  clear r = record r { items = []; start = 0 }

  -- `Data`: oldest first.
  unfoldable pub contents : RingBuffer A → List A
  contents r =
      if length r.items == r.size then drop r.start r.items ++ take r.start r.items else r.items
