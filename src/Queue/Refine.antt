-- ===== src/Queue/Refine.antt =====
-- Called by one thread at a time, the ring buffer is the bounded FIFO of the list that it holds.
use native.Mathlib.Nat.{mod-eq_of_lt, mul-add-mod_self_left, pow-le-pow_right}
use message_router.Base.{
  ℕ, ◌%◌, ◌^◌, ◌≤◌, ◌<◌, ◌≡◌, ◌↔◌, refl, ap, sym, ◌∙◌, true, false, List, [], ◌∷◌, ◌++◌, none, some,
  arith, inl, inr, Bool-cases, Option-cases, ltb, ltb→lt, pow_pos, pow_divides, bit_and_mask, sub64,
  length, get_elem?, ◌==◌, ==_iff, length-replicate,
}
use message_router.Queue.Defs.{
  Spsc, init, try_push, try_pop, size, empty, capacity, write_item, write_ready, next_index,
}
use message_router.Queue.Index.{wrap_cases, slot-zero}
use message_router.Queue.Slots.{
  item_at, ready_at, length-write_item, item_at-write_item_self, item_at-write_ready,
  ready_at-write_ready_self,
}
use message_router.Queue.Layout.{
  Holds, tail_in, full_iff, empty_iff, Holds-write_item, Holds-write_ready, Holds-append,
  Holds-clear, Holds-drop, head_item, head_ready,
}
use message_router.Queue.Fifo
use message_router.Queue.Fifo.{Op, put, get}

module _ {ℓ} {A : Type ℓ} {k : ℕ} {q : Spsc A} where
  push_full :
      {xs : List A} (x : A) → Holds k 0 q xs → length xs ≡ capacity k → try_push k q x ≡ (false, q)
  unfolding try_push
  push_full x h e = rw ((==_iff _ _).1 ((full_iff h).1 e))

  push_room :
      {xs : List A} (x : A)
      → Holds k 0 q xs
      → length xs < capacity k
      → ((try_push k q x).0 ≡ true) × Holds k 0 (try_push k q x).1 (xs ++ (x ∷ []))
  unfolding try_push
  push_room {xs} x h lt = elim (Bool-cases (next_index k q.tail == q.head)) [
    | inl e ↦ absurd (omega (arith, (full_iff h).0 ((==_iff _ _).0 e)))
    | inr e ↦ rw e (refl, Holds-append written x (omega arith) stored flagged)
  ]
    where
      in_range : q.tail < length (write_item q.buffer q.tail x)
      in_range = omega (arith, tail_in h, h.slots, length-write_item q.buffer q.tail x)

      written :
          Holds k 0
            (record q { buffer = write_ready (write_item q.buffer q.tail x) q.tail true })
            xs
      written = Holds-write_ready (Holds-write_item h x) true

      stored : item_at (write_ready (write_item q.buffer q.tail x) q.tail true) q.tail ≡ some x
      stored =
          item_at-write_ready (write_item q.buffer q.tail x) q.tail q.tail true
          ∙ item_at-write_item_self q.buffer q.tail x (omega (arith, tail_in h, h.slots))

      flagged : ready_at (write_ready (write_item q.buffer q.tail x) q.tail true) q.tail ≡ true
      flagged = ready_at-write_ready_self (write_item q.buffer q.tail x) q.tail true in_range

  pop_none : Holds k 0 q [] → try_pop k q ≡ (none, q)
  unfolding try_pop
  pop_none h = rw ((==_iff _ _).1 ((empty_iff h).1 refl))

  pop_some :
      {x : A} {xs : List A}
      → Holds k 0 q (x ∷ xs)
      → ((try_pop k q).0 ≡ some x) × Holds k 0 (try_pop k q).1 xs
  unfolding try_pop
  pop_some {x} {xs} h = elim (Bool-cases (q.head == q.tail)) [
    | inl e ↦ absurd (omega (arith, (empty_iff h).0 ((==_iff _ _).0 e)))
    | inr e ↦ elim (Option-cases (get_elem? q.buffer q.head)) [
      | inl missing ↦ ground (arith, missing, head_item h)
      | inr (n, found) ↦
          let item : n.item ≡ x = ground (arith, found, head_item h) in
          let ready : n.ready ≡ true = ground (arith, found, head_ready h (omega arith)) in
          rw (e, found, ready) (ap some item, Holds-drop (Holds-clear h (omega arith)))
    ]
  ]

  -- `size()` is the number of items, also when `tail` has wrapped round behind `head`.
  pub size_lem : {xs : List A} → Holds k 0 q xs → size k q ≡ length xs
  unfolding size
  size_lem {xs} h =
      bit_and_mask k (sub64 q.tail q.head)
      ∙ elim (wrap_cases (2 ^ k) q.head (length xs) h.head_in h.fits) [
        | inl (plain, _) ↦
            ap (λ t. t % 2 ^ k) (omega (arith, h.tail_at, small)) ∙ mod-eq_of_lt h.fits
        | inr (wrapped, above) ↦
            let (d, e) = pow_divides k 64 (omega (arith, h.small)) in
            ap (λ t. t % 2 ^ k) (omega (arith, h.tail_at, small))
            ∙ mul-add-mod_self_left (2 ^ k) d (length xs)
            ∙ mod-eq_of_lt h.fits
      ]
    where
      small : 2 ^ k ≤ 2 ^ 63
      small = pow-le-pow_right (omega arith) {j = 63} (omega (arith, h.small))

  -- `empty()` tells exactly whether `size()` is 0.
  pub empty-size : {xs : List A} → Holds k 0 q xs → (empty q ≡ true) ↔ (size k q ≡ 0)
  unfolding empty
  empty-size h = (
    λ e. size_lem h ∙ (empty_iff h).0 ((==_iff _ _).0 e),
    λ e. (==_iff _ _).1 ((empty_iff h).1 (sym (size_lem h) ∙ e)),
  )

-- A new queue is empty.
pub init-Holds {ℓ} : {A : Type ℓ} (k : ℕ) (blank : A) → k < 64 → Holds k 0 (init k blank) []
unfolding init
init-Holds k blank small = record {
  small = small;
  slots = length-replicate (2 ^ k) _;
  head_in = pow_pos k;
  tail_at = sym (slot-zero k 0 (pow_pos k));
  fits = pow_pos k;
  items = λ i lt. elim lt [ ];
  flags = λ i ge lt. elim lt [ ];
}

-- `try_push` on a queue that holds `xs` returns what a FIFO of `capacity()` items returns, and
-- leaves the queue holding that FIFO's list.
pub push_refines {ℓ} :
    {A : Type ℓ} {k : ℕ} {q : Spsc A} {xs : List A} (x : A)
    → Holds k 0 q xs
    → ((try_push k q x).0 ≡ (Fifo.push (capacity k) xs x).0)
      × Holds k 0 (try_push k q x).1 (Fifo.push (capacity k) xs x).1
unfolding Fifo.push
push_refines {k} {xs = xs} x h = elim (Bool-cases (ltb (length xs) (capacity k))) [
  | inl room ↦ rw room (push_room x h (ltb→lt _ _ room))
  | inr full ↦ rw full (rw (push_full x h (ground (arith, h.fits))) (refl, h))
]

pub pop_refines {ℓ} :
    {A : Type ℓ} {k : ℕ} {q : Spsc A} (xs : List A)
    → Holds k 0 q xs
    → ((try_pop k q).0 ≡ (Fifo.pop xs).0) × Holds k 0 (try_pop k q).1 (Fifo.pop xs).1
unfolding Fifo.pop
pop_refines [] h = rw (pop_none h) (refl, h)
pop_refines (x ∷ xs) h = pop_some h

-- A client's calls in order, with what each returns.
unfoldable pub run {ℓ} : {A : Type ℓ} → ℕ → Spsc A → List (Op A) → List (Fifo.Reply A)
run k q [] = []
run k q (put x ∷ ops) = let (b, r) = try_push k q x in Fifo.pushed b ∷ run k r ops
run k q (get ∷ ops) = let (o, r) = try_pop k q in Fifo.popped o ∷ run k r ops

-- No sequence of calls tells the ring buffer from a FIFO of `capacity()` items.
pub run_refines {ℓ} :
    {A : Type ℓ} {k : ℕ} (ops : List (Op A)) {q : Spsc A} {xs : List A}
    → Holds k 0 q xs
    → run k q ops ≡ Fifo.run (capacity k) xs ops
unfolding run Fifo.run
run_refines [] h = refl
run_refines (put x ∷ ops) h = let (same, rest) = push_refines x h in rw (same, run_refines ops rest)
run_refines (get ∷ ops) {xs = xs} h =
    let (same, rest) = pop_refines xs h in rw (same, run_refines ops rest)
