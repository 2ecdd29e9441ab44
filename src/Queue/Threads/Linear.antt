-- ===== src/Queue/Threads/Linear.antt =====
-- However the two threads' calls overlap, each takes effect at one moment between its first and
-- its last step, and in the order of these moments the calls are calls of a FIFO.
use message_router.Base.{
  ℕ, ◌<◌, ◌≡◌, refl, sym, ap, subst, ◌∙◌, append_assoc, append-nil, true, false, List, [], ◌∷◌,
  ◌++◌, none, some, arith, append_cancel_left,
}
use message_router.Queue.Defs.{capacity, next_index}
use message_router.Queue.Layout.{full_iff, empty_iff, head_ready}
use message_router.Queue.Fifo.{Op, put, get, Reply, pushed, popped, run}
use message_router.Queue.History.{
  calls, replies, Legal, Legal-append, Legal-none, Legal-push, Legal-full, Legal-pop, Legal-empty,
  accepted, handed_out, accepted-append, handed_out-append,
}
use message_router.Queue.Threads.{
  System, Step, push_call, push_item, push_flag, push_tail, pop_call, pop_empty, pop_items,
  pop_unready, pop_ready, pop_copy, pop_clear, pop_head, started, Steps, here, next,
}
use message_router.Queue.Threads.Invariant.{Inv, Producing-at, Consuming-at, Holds-at}
use message_router.Queue.Threads.Keeping.{Steps-Inv}

module _ {ℓ} {A : Type ℓ} {k : ℕ} where
  -- The call that takes effect at a step, with what it returns: a failing `try_push` at its load of
  -- `head_`, a failing `try_pop` at its load of `tail_` or of `ready`, the others at their last
  -- store.
  unfoldable pub takes_effect : {s t : System A} → Step k s t → List (Op A × Reply A)
  takes_effect (Step.push_full x t at full) = (put x, pushed false) ∷ []
  takes_effect (push_tail x t at) = (put x, pushed true) ∷ []
  takes_effect (pop_empty h at e) = (get, popped none) ∷ []
  takes_effect (pop_unready h at r) = (get, popped none) ∷ []
  takes_effect (pop_head h x at) = (get, popped (some x)) ∷ []
  takes_effect _ = []

  unfoldable pub history : {s t : System A} → Steps k s t → List (Op A × Reply A)
  history here = []
  history (next r st) = history r ++ takes_effect st

module _ {ℓ} {A : Type ℓ} {k : ℕ} where
  effect-Legal :
      {s t : System A} (st : Step k s t) (i : Inv k s)
      → (ys : List A) × (t.sent ≡ t.received ++ ys) × Legal (capacity k) i.held (takes_effect st) ys
  unfolding takes_effect
  effect-Legal (push_call x at) i = (i.held, i.split, Legal-none i.held)
  effect-Legal {s} (Step.push_full x t at full) i =
      let e = ap (next_index k) (sym (Producing-at i at).0) ∙ full in
      (i.held, i.split, Legal-full x i.held ((full_iff i.holds).0 e))
  effect-Legal (Step.push_room x t at room) i = (i.held, i.split, Legal-none i.held)
  effect-Legal (push_item x t at) i = (i.held, i.split, Legal-none i.held)
  effect-Legal (push_flag x t at) i = (i.held, i.split, Legal-none i.held)
  effect-Legal {s} (push_tail x t at) i =
      let f = Producing-at i at in
      (
        i.held ++ (x ∷ []),
        ap (λ l. l ++ (x ∷ [])) i.split ∙ append_assoc s.received i.held (x ∷ []),
        Legal-push x i.held (omega arith),
      )
  effect-Legal (pop_call at) i = (i.held, i.split, Legal-none i.held)
  effect-Legal (pop_empty h at e) i =
      let g = Consuming-at i at in
      (i.held, i.split, Legal-empty i.held ((empty_iff i.holds).0 (sym g.0 ∙ e)))
  effect-Legal (pop_items h at ne) i = (i.held, i.split, Legal-none i.held)
  effect-Legal {s} (pop_unready h at r) i =
      let g = Consuming-at i at in
      let ready = head_ready (Holds-at i at) g.1 in absurd (cc (ready, g.0))
  effect-Legal (pop_ready h at r) i = (i.held, i.split, Legal-none i.held)
  effect-Legal (pop_copy h x at item) i = (i.held, i.split, Legal-none i.held)
  effect-Legal (pop_clear h x at) i = (i.held, i.split, Legal-none i.held)
  effect-Legal {s} (pop_head h x at) i =
      let f = Consuming-at i at in
      (
        f.1,
        i.split ∙ ap (λ l. s.received ++ l) f.2 ∙ sym (append_assoc s.received (x ∷ []) f.1),
        subst (λ l. Legal (capacity k) l ((get, popped (some x)) ∷ []) f.1) (sym f.2)
            (Legal-pop x f.1),
      )

  history-Legal :
      (blank : A) {s : System A}
      → k < 64
      → (r : Steps k (started k blank) s)
      → (ys : List A) × (s.sent ≡ s.received ++ ys) × Legal (capacity k) [] (history r) ys
  unfolding history
  history-Legal blank small here = ([], refl, Legal-none [])
  history-Legal blank {s} small (next r st) =
      let i = Steps-Inv blank small r in
      let (xs, split, legal) = history-Legal blank small r in
      let (ys, split', legal') = effect-Legal st i in
      let same : i.held ≡ xs = append_cancel_left _ (sym i.split ∙ split) in
      (
        ys,
        split',
        Legal-append legal (subst (λ l. Legal (capacity k) l (takes_effect st) ys) same legal'),
      )

module _ {ℓ} {A : Type ℓ} {k : ℕ} where
  effect-accepted :
      {s t : System A} (st : Step k s t)
      → (t.sent ≡ s.sent ++ accepted (takes_effect st))
        × (t.received ≡ s.received ++ handed_out (takes_effect st))
  unfolding takes_effect accepted handed_out
  effect-accepted {s} (push_tail x t at) = (refl, sym (append-nil s.received))
  effect-accepted {s} (pop_head h x at) = (sym (append-nil s.sent), refl)
  effect-accepted {s} _ = (sym (append-nil s.sent), sym (append-nil s.received))

  history-accepted :
      (blank : A) {s : System A} (r : Steps k (started k blank) s)
      → (accepted (history r) ≡ s.sent) × (handed_out (history r) ≡ s.received)
  unfolding history accepted handed_out
  history-accepted blank here = (refl, refl)
  history-accepted blank (next r st) =
      let (sent, received) = history-accepted blank r in
      let (more, taken) = effect-accepted st in
      (
        accepted-append (history r) (takes_effect st)
            ∙ ap (λ l. l ++ accepted (takes_effect st)) sent
            ∙ sym more,
        handed_out-append (history r) (takes_effect st)
            ∙ ap (λ l. l ++ handed_out (takes_effect st)) received
            ∙ sym taken,
      )

  -- However the calls of the two threads overlap, on a new queue of at most 2 ^ 63 slots: in the
  -- order in which they take effect, each between its first and its last step, they return what a
  -- FIFO of `capacity()` items, empty at the start, returns to the same calls; the pushes among
  -- them that return true are those of the items sent, in order, and the items popped are those
  -- received.
  pub history-run :
      (blank : A) {s : System A} (small : k < 64) (r : Steps k (started k blank) s)
      → (run (capacity k) [] (calls (history r)) ≡ replies (history r))
        × (accepted (history r) ≡ s.sent)
        × (handed_out (history r) ≡ s.received)
  history-run blank small r =
      let (sent, received) = history-accepted blank r in
      ((history-Legal blank small r).2.same, sent, received)
