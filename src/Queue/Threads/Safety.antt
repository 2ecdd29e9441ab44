-- ===== src/Queue/Threads/Safety.antt =====
-- What every interleaving of the producer and the consumer guarantees.
use message_router.Base.{
  ℕ, ◌+◌, ◌≤◌, ◌<◌, ◌≡◌, ◌≢◌, ◌↔◌, sym, ap, ◌∙◌, true, List, ◌++◌, arith, length, length-append,
}
use message_router.Queue.Defs.{capacity, next_index}
use message_router.Queue.Slots.{ready_at}
use message_router.Queue.Layout.{full_iff, empty_iff, head_ready}
use message_router.Queue.Threads.{
  has_tail, has_room, has_head, has_items, saw_ready, System, started, Steps,
}
use message_router.Queue.Threads.Invariant.{Inv, Producing-at, Consuming-at, Holds-at}
use message_router.Queue.Threads.Keeping.{Steps-Inv}

module _ {ℓ} {A : Type ℓ} {k : ℕ} (blank : A) {s : System A} (small : k < 64)
    (run : Steps k (started k blank) s) where
  inv : Inv k s
  inv = Steps-Inv blank small run

  total : length s.sent ≡ length s.received + length inv.held
  total = ap length inv.split ∙ length-append s.received inv.held

  -- However the two threads interleave from a new queue, what the consumer has received, in
  -- order, is a beginning of what the producer has sent, and the rest, which the queue holds, is
  -- at most `capacity()` items: none is lost, doubled, reordered or made up.
  fifo : (held : List A) × (s.sent ≡ s.received ++ held) × (length held ≤ capacity k)
  fifo = (inv.held, inv.split, omega (arith, inv.holds.fits))

  -- While the producer is about to write a slot's message and the consumer about to read one,
  -- they are at different slots: there is no data race on `data`.
  pub no_race : (x : A) (t h : ℕ) → s.producer ≡ has_room x t → s.consumer ≡ saw_ready h → t ≢ h
  no_race x t h p c e =
      let f = Producing-at inv p in
      let g = Consuming-at inv c in
      let z : length inv.held ≡ 0 = (empty_iff inv.holds).0 (sym g.0 ∙ sym e ∙ f.0) in
      absurd (omega (arith, g.1))

  -- `try_push` sees a full queue exactly when, at its load of `head_`, `capacity()` items that
  -- were sent have not been received.
  pub full_exact :
      (x : A) (t : ℕ)
      → s.producer ≡ has_tail x t
      → (next_index k t ≡ s.q.head) ↔ (length s.sent ≡ length s.received + capacity k)
  full_exact x t p =
      let (at_tail, _) = Producing-at inv p in
      (
        λ e. omega (arith, total, (full_iff inv.holds).0 (ap (next_index k) (sym at_tail) ∙ e)),
        λ e. ap (next_index k) at_tail ∙ (full_iff inv.holds).1 (omega (arith, total)),
      )

  -- `try_pop` sees an empty queue exactly when, at its load of `tail_`, everything sent has been
  -- received.
  pub empty_exact :
      (h : ℕ) → s.consumer ≡ has_head h → (h ≡ s.q.tail) ↔ (length s.sent ≡ length s.received)
  empty_exact h c =
      let (at_head, _) = Consuming-at inv c in
      (
        λ e. omega (arith, total, (empty_iff inv.holds).0 (sym at_head ∙ e)),
        λ e. at_head ∙ (empty_iff inv.holds).1 (omega (arith, total)),
      )

  -- Where `try_pop` found the queue not empty, the slot at `head_` is ready: the test of `ready`
  -- never makes it give up.
  always_ready : (h : ℕ) → s.consumer ≡ has_items h → ready_at s.q.buffer h ≡ true
  always_ready h c =
      let g = Consuming-at inv c in ap (ready_at s.q.buffer) g.0 ∙ head_ready (Holds-at inv c) g.1
