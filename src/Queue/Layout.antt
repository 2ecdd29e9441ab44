-- ===== src/Queue/Layout.antt =====
-- Which list a ring buffer holds, oldest first, and what each shared write does to it.
use native.Mathlib.Nat.{mod-add-mod, mod-eq_of_lt, mod-eq-sub-mod}
use native.Mathlib.Decide.{dec_lt, ℕ_discrete}
use message_router.Base.{
  ℕ, suc, ◌+◌, ◌-◌, ◌%◌, ◌^◌, ◌≤◌, ◌<◌, ◌≡◌, ◌≢◌, ◌↔◌, ap, sym, ◌∙◌, Bool, true, false, List, [],
  ◌∷◌, ◌++◌, some, arith, pow_pos, length, length-append, get_elem?, get_elem?-append_lt,
  get_elem?-append_length,
}
use message_router.Queue.Defs.{Spsc, write_item, write_ready, next_index}
use message_router.Queue.Index.{slot, slot-injective, slot-suc, slot-zero, slot-lt, next_index_lem}
use message_router.Queue.Slots.{
  item_at, ready_at, length-write_item, length-write_ready, item_at-write_item_ne,
  ready_at-write_item_ne, ready_at-write_ready_ne, item_at-write_ready,
}

-- `q` holds `xs`. The first `skip` items may have lost their ready flag, which a consumer clears
-- before it moves `head`.
pub record Holds {ℓ} {A : Type ℓ} (k skip : ℕ) (q : Spsc A) (xs : List A) : Type ℓ where
  pub small : k < 64
  pub slots : length q.buffer ≡ 2 ^ k
  pub head_in : q.head < 2 ^ k
  pub tail_at : q.tail ≡ slot k q.head (length xs)
  pub fits : length xs < 2 ^ k
  pub items : (i : ℕ) → i < length xs → item_at q.buffer (slot k q.head i) ≡ get_elem? xs i
  pub flags : (i : ℕ) → skip ≤ i → i < length xs → ready_at q.buffer (slot k q.head i) ≡ true

module _ {ℓ} {A : Type ℓ} {k skip : ℕ} {q : Spsc A} {xs : List A} (h : Holds k skip q xs) where
  open h use {small, slots, head_in, tail_at, fits, items, flags}

  pub tail_in : q.tail < 2 ^ k
  tail_in = omega (arith, slot-lt k q.head (length xs))

  next_tail : next_index k q.tail ≡ slot k q.head (suc (length xs))
  next_tail =
      next_index_lem k q.tail small tail_in
      ∙ ap (λ t. slot k t 1) tail_at
      ∙ mod-add-mod (q.head + length xs) (2 ^ k) 1
      ∙ ap (λ t. t % 2 ^ k) (omega arith)

  round : length xs ≡ 2 ^ k - 1 → slot k q.head (suc (length xs)) ≡ q.head
  round e =
      mod-eq-sub-mod {n = q.head + suc (length xs)} {m = 2 ^ k} (omega arith)
      ∙ ap (λ t. t % 2 ^ k) (omega arith)
      ∙ mod-eq_of_lt head_in

  -- `(tail + 1) & (Size - 1)` meets `head` exactly when `capacity()` items are held.
  pub full_iff : (next_index k q.tail ≡ q.head) ↔ (length xs ≡ 2 ^ k - 1)
  full_iff = (
    λ e. elim (dec_lt (suc (length xs)) (2 ^ k)) [
      | yes lt ↦ absurd (apart lt (slot-zero k q.head head_in ∙ sym e ∙ next_tail))
      | no ge ↦ omega arith
    ],
    λ e. next_tail ∙ round e,
  )
    where
      apart : suc (length xs) < 2 ^ k → slot k q.head 0 ≢ slot k q.head (suc (length xs))
      apart lt = slot-injective k q.head 0 (suc (length xs)) head_in (omega arith) lt (omega arith)

  -- `tail` meets `head` exactly when nothing is held.
  pub empty_iff : (q.head ≡ q.tail) ↔ (length xs ≡ 0)
  empty_iff = (
    λ e. elim (ℕ_discrete 0 (length xs)) [
      | yes z ↦ sym z
      | no ne ↦ absurd (apart ne (slot-zero k q.head head_in ∙ e ∙ tail_at))
    ],
    λ z. sym (tail_at ∙ ap (slot k q.head) z ∙ slot-zero k q.head head_in),
  )
    where
      apart : 0 ≢ length xs → slot k q.head 0 ≢ slot k q.head (length xs)
      apart ne = slot-injective k q.head 0 (length xs) head_in (omega arith) fits ne

  -- The slot at `tail` is none of the items'.
  pub free_slot : (i : ℕ) → i < length xs → q.tail ≢ slot k q.head i
  free_slot i lt =
      rw tail_at (slot-injective k q.head (length xs) i head_in fits (omega arith) (omega arith))

  pub Holds-write_item :
      (x : A) → Holds k skip (record q { buffer = write_item q.buffer q.tail x }) xs
  Holds-write_item x = record {
    small = small;
    slots = length-write_item q.buffer q.tail x ∙ slots;
    head_in = head_in;
    tail_at = tail_at;
    fits = fits;
    items = λ i lt. item_at-write_item_ne q.buffer q.tail _ x (free_slot i lt) ∙ items i lt;
    flags = λ i ge lt. ready_at-write_item_ne q.buffer q.tail _ x (free_slot i lt) ∙ flags i ge lt;
  }

  pub Holds-write_ready :
      (r : Bool) → Holds k skip (record q { buffer = write_ready q.buffer q.tail r }) xs
  Holds-write_ready r = record {
    small = small;
    slots = length-write_ready q.buffer q.tail r ∙ slots;
    head_in = head_in;
    tail_at = tail_at;
    fits = fits;
    items = λ i lt. item_at-write_ready q.buffer q.tail _ r ∙ items i lt;
    flags = λ i ge lt. ready_at-write_ready_ne q.buffer q.tail _ r (free_slot i lt) ∙ flags i ge lt;
  }

  -- Storing `tail` publishes the item that has been written there.
  pub Holds-append :
      (x : A)
      → suc (length xs) < 2 ^ k
      → item_at q.buffer q.tail ≡ some x
      → ready_at q.buffer q.tail ≡ true
      → Holds k skip (record q { tail = next_index k q.tail }) (xs ++ (x ∷ []))
  Holds-append x room item ready = record {
    small = small;
    slots = slots;
    head_in = head_in;
    tail_at = next_tail ∙ ap (slot k q.head) (omega (arith, len));
    fits = omega (arith, len);
    items = λ i lt. elim (dec_lt i (length xs)) [
      | yes old ↦ items i old ∙ sym (get_elem?-append_lt xs (x ∷ []) i old)
      | no new ↦
          ap (item_at q.buffer) (last i lt new)
          ∙ item
          ∙ sym (get_elem?-append_length xs x i (omega (arith, len)))
    ];
    flags = λ i ge lt. elim (dec_lt i (length xs)) [
      | yes old ↦ flags i ge old
      | no new ↦ ap (ready_at q.buffer) (last i lt new) ∙ ready
    ];
  }
    where
      len : length (xs ++ (x ∷ [])) ≡ length xs + 1
      len = length-append xs (x ∷ [])

      last : (i : ℕ) → i < length (xs ++ (x ∷ [])) → ¬ (i < length xs) → slot k q.head i ≡ q.tail
      last i lt new = ap (slot k q.head) (omega (arith, len)) ∙ sym tail_at

module _ {ℓ} {A : Type ℓ} {k : ℕ} {q : Spsc A} where
  -- Clearing the oldest item's flag.
  pub Holds-clear :
      {xs : List A}
      → Holds k 0 q xs
      → 0 < length xs
      → Holds k 1 (record q { buffer = write_ready q.buffer q.head false }) xs
  Holds-clear {xs} h pos = record {
    small = h.small;
    slots = length-write_ready q.buffer q.head false ∙ h.slots;
    head_in = h.head_in;
    tail_at = h.tail_at;
    fits = h.fits;
    items = λ i lt. item_at-write_ready q.buffer q.head _ false ∙ h.items i lt;
    flags = λ i ge lt.
        ready_at-write_ready_ne q.buffer q.head _ false (apart i ge lt)
        ∙ h.flags i (omega arith) lt;
  }
    where
      apart : (i : ℕ) → 1 ≤ i → i < length xs → q.head ≢ slot k q.head i
      apart i ge lt e =
          slot-injective k q.head 0 i h.head_in (pow_pos k) (omega (arith, h.fits)) (omega arith)
            (slot-zero k q.head h.head_in ∙ e)

  -- Storing `head` gives the oldest item's slot back.
  pub Holds-drop :
      {x : A} {xs : List A}
      → Holds k 1 q (x ∷ xs)
      → Holds k 0 (record q { head = next_index k q.head }) xs
  Holds-drop {x} {xs} h = record {
    small = h.small;
    slots = h.slots;
    head_in = rw e (slot-lt k q.head 1);
    tail_at = rw e (h.tail_at ∙ sym (slot-suc k q.head (length xs)));
    fits = omega (arith, h.fits);
    items =
        λ i lt. rw e (ap (item_at q.buffer) (slot-suc k q.head i) ∙ h.items (suc i) (omega arith));
    flags = λ i ge lt. rw e (
        ap (ready_at q.buffer) (slot-suc k q.head i) ∙ h.flags (suc i) (omega arith) (omega arith));
  }
    where
      e : next_index k q.head ≡ slot k q.head 1
      e = next_index_lem k q.head h.small h.head_in

  pub head_item :
      {skip : ℕ} {x : A} {xs : List A} → Holds k skip q (x ∷ xs) → item_at q.buffer q.head ≡ some x
  head_item h = ap (item_at q.buffer) (sym (slot-zero k q.head h.head_in)) ∙ h.items 0 (omega arith)

  pub head_ready : {xs : List A} → Holds k 0 q xs → 0 < length xs → ready_at q.buffer q.head ≡ true
  head_ready h pos =
      ap (ready_at q.buffer) (sym (slot-zero k q.head h.head_in)) ∙ h.flags 0 (omega arith) pos
