-- ===== src/Queue/Defs.antt =====
-- The data and the methods of `LockFreeSPSCQueue`.
use message_router.Base.{
  ℕ, ◌-◌, ◌^◌, Bool, true, false, List, Option, none, some, bit_and, add64, sub64, ◌==◌,
  if◌then◌else◌, get_elem?, set, replicate,
}

-- `Node`: the slot's message and its ready flag.
pub record Node {ℓ} (A : Type ℓ) : Type ℓ where
  pub item : A
  pub ready : Bool

pub record Spsc {ℓ} (A : Type ℓ) : Type ℓ where
  pub buffer : List (Node A)
  pub head : ℕ
  pub tail : ℕ

-- `i & (Size - 1)`
abbrev pub mask : ℕ → ℕ → ℕ
mask k i = bit_and i (2 ^ k - 1)

-- `(i + 1) & (Size - 1)` on `size_t`
abbrev pub next_index : ℕ → ℕ → ℕ
next_index k i = mask k (add64 i 1)

-- `capacity()`
abbrev pub capacity : ℕ → ℕ
capacity k = 2 ^ k - 1

module _ {ℓ} {A : Type ℓ} where
  -- The constructor: `Size` default messages, none of them ready.
  unfoldable pub init : ℕ → A → Spsc A
  init k blank = record {
    buffer = replicate (2 ^ k) (record { item = blank; ready = false });
    head = 0;
    tail = 0;
  }

  -- Writing a slot's message leaves its flag, and the other way round.
  abbrev pub write_item : List (Node A) → ℕ → A → List (Node A)
  write_item buffer i x = elim (get_elem? buffer i) [
    | none ↦ buffer
    | some n ↦ set buffer i (record n { item = x })
  ]

  abbrev pub write_ready : List (Node A) → ℕ → Bool → List (Node A)
  write_ready buffer i b = elim (get_elem? buffer i) [
    | none ↦ buffer
    | some n ↦ set buffer i (record n { ready = b })
  ]

  unfoldable pub try_push : ℕ → Spsc A → A → Bool × Spsc A
  try_push k q item =
      let next_tail = next_index k q.tail in
      if next_tail == q.head then (false, q) else (
        true,
        record q {
          buffer = write_ready (write_item q.buffer q.tail item) q.tail true;
          tail = next_tail;
        },
      )

  -- The part of `try_pop` behind the test for an empty queue; a slot out of range, which the
  -- layout rules out, pops nothing.
  abbrev pub pop_slot : ℕ → Spsc A → Option (Node A) → Option A × Spsc A
  pop_slot k q none = (none, q)
  pop_slot k q (some n) =
      if n.ready
      then (
        some n.item,
        record q { buffer = write_ready q.buffer q.head false; head = next_index k q.head },
      )
      else (none, q)

  -- `none` is the result `false`, which leaves the caller's message alone.
  unfoldable pub try_pop : ℕ → Spsc A → Option A × Spsc A
  try_pop k q = if q.head == q.tail then (none, q) else pop_slot k q (get_elem? q.buffer q.head)

  -- `size()`: the difference wraps on `size_t` before it is masked.
  unfoldable pub size : ℕ → Spsc A → ℕ
  size k q = mask k (sub64 q.tail q.head)

  unfoldable pub empty : Spsc A → Bool
  empty q = q.head == q.tail
