-- ===== src/Queue/Threads/Atomic.antt =====
-- A call that no other thread interrupts takes its steps in a row, and they do what the method of
-- `Defs` does at once.
use message_router.Base.{
  ℕ, ◌≡◌, ◌++◌, append-nil, refl, Bool, true, false, List, [], ◌∷◌, Option, none, some, inl, inr,
  Bool-cases, Option-cases, ◌==◌, ==_iff, get_elem?,
}
use message_router.Queue.Defs.{try_push, try_pop, next_index}
use message_router.Queue.Slots.{item_at, ready_at}
use message_router.Queue.Threads.{
  PushPc, PopPc, push_call, push_full, push_room, push_item, push_flag, push_tail, pop_call,
  pop_empty, pop_items, pop_unready, pop_ready, pop_copy, pop_clear, pop_head, System, Steps, here,
  next,
}

module _ {ℓ} {A : Type ℓ} where
  -- What a call adds to the items sent and to the items received.
  abbrev pub sent_by : A → Bool → List A
  sent_by x true = x ∷ []
  sent_by x false = []

  abbrev pub received_by : Option A → List A
  received_by none = []
  received_by (some x) = x ∷ []

  -- The steps of one call of `try_push` lead to the queue and the result of `try_push`.
  pub push_atomic :
      (k : ℕ) (s : System A) (x : A)
      → s.producer ≡ PushPc.outside
      → Steps k s (record s {
        q = (try_push k s.q x).1;
        producer = PushPc.outside;
        sent = s.sent ++ sent_by x (try_push k s.q x).0;
      })
  unfolding try_push
  push_atomic k s x at = elim (Bool-cases (next_index k s.q.tail == s.q.head)) [
    | inl full ↦
        rw (full, append-nil)
          (next (next here (push_call x at)) (push_full x s.q.tail refl ((==_iff _ _).0 full)))
    | inr room ↦ rw room (
        next
          (next
            (next
              (next (next here (push_call x at))
                (push_room x s.q.tail refl (λ e. cc ((==_iff _ _).1 e))))
              (push_item x s.q.tail refl))
            (push_flag x s.q.tail refl))
          (push_tail x s.q.tail refl))
  ]

  -- The steps of one call of `try_pop` lead to the queue and the result of `try_pop`.
  pub pop_atomic :
      (k : ℕ) (s : System A)
      → s.consumer ≡ PopPc.outside
      → Steps k s (record s {
        q = (try_pop k s.q).1;
        consumer = PopPc.outside;
        received = s.received ++ received_by (try_pop k s.q).0;
      })
  unfolding try_pop
  pop_atomic k s at = elim (Bool-cases (s.q.head == s.q.tail)) [
    | inl e ↦
        rw (e, append-nil)
          (next (next here (pop_call at)) (pop_empty s.q.head refl ((==_iff _ _).0 e)))
    | inr e ↦
        let going : Steps k s (record s { consumer = PopPc.has_items s.q.head }) =
          next (next here (pop_call at)) (pop_items s.q.head refl (λ p. cc ((==_iff _ _).1 p))) in
        elim (Option-cases (get_elem? s.q.buffer s.q.head)) [
          | inl missing ↦
              rw (e, missing, append-nil)
                (next going (pop_unready s.q.head refl (rw (missing, ready_at))))
          | inr (n, found) ↦ elim (Bool-cases n.ready) [
            | inl ready ↦
                rw (e, found, ready)
                  (next
                    (next
                      (next (next going (pop_ready s.q.head refl (rw (found, ready_at) ready)))
                        (pop_copy s.q.head n.item refl (rw (found, item_at))))
                      (pop_clear s.q.head n.item refl))
                    (pop_head s.q.head n.item refl))
            | inr unready ↦
                rw (e, found, unready, append-nil)
                  (next going (pop_unready s.q.head refl (rw (found, ready_at) unready)))
          ]
        ]
  ]
