-- ===== src/Queue/Client.antt =====
-- The queue as the router's threads see it: operations with the laws of a bounded FIFO. The ring
-- buffer fills the interface.
use message_router.Base.{
  ℕ, ◌<◌, ◌≤◌, ◌≡◌, refl, ap, ◌∙◌, Bool, true, false, List, [], ◌∷◌, ◌++◌, Option, some, none,
  length, lt→ltb, le→ltb, ltb→lt, ltb, ◌⊎◌, inl, inr, sym, arith, Bool-cases,
}
use message_router.Message.{Message}
use message_router.Queue.Defs.{Spsc, init, try_push, try_pop, capacity}
use message_router.Queue.Layout.{Holds}
use message_router.Queue.Fifo
use message_router.Queue.Refine.{init-Holds, push_refines, pop_refines}

pub record QueueApi (A : Type 0) : Type 1 where
  pub Q : Type 0
  pub room : ℕ
  pub contents : Q → List A
  pub new : Q
  pub push : Q → A → Bool × Q
  pub pop : Q → Option A × Q
  pub new_law : contents new ≡ []
  pub push_law :
      (q : Q) (x : A)
      → ((push q x).0 ≡ (Fifo.push room (contents q) x).0)
        × (contents (push q x).1 ≡ (Fifo.push room (contents q) x).1)
  pub pop_law :
      (q : Q)
      → ((pop q).0 ≡ (Fifo.pop (contents q)).0) × (contents (pop q).1 ≡ (Fifo.pop (contents q)).1)

-- A ring buffer with the list that it holds, and the proof.
abbrev pub Ring : Type 0 → ℕ → Type 0
Ring A k = (q : Spsc A) × (xs : List A) × Holds k 0 q xs

-- `LockFreeSPSCQueue<A, 2 ^ k>`
abbrev pub ring_api : (A : Type 0) (k : ℕ) → A → k < 64 → QueueApi A
ring_api A k blank small = record {
  Q = Ring A k;
  room = capacity k;
  contents = λ r. r.1;
  new = (init k blank, [], init-Holds k blank small);
  push = λ r x. ((try_push k r.0 x).0, ((try_push k r.0 x).1, _, (push_refines x r.2).1));
  pop = λ r. ((try_pop k r.0).0, ((try_pop k r.0).1, _, (pop_refines r.1 r.2).1));
  new_law = refl;
  push_law = λ r x. ((push_refines x r.2).0, refl);
  pop_law = λ r. ((pop_refines r.1 r.2).0, refl);
}

-- `MessageQueue`, with 2 ^ 20 slots.
abbrev pub message_queue : Message → QueueApi Message
message_queue blank = ring_api Message 20 blank (omega arith)

module _ {A : Type 0} (F : QueueApi A) where
  -- What a call of `pop` has done to a queue that held `ms`, and a call of `push` of `x`.
  abbrev pub Popped : List A → Option A × F.Q → Type 0
  Popped ms res =
      ((res.0 ≡ none) × (F.contents res.1 ≡ ms))
      ⊎ ((x : A) × (res.0 ≡ some x) × (ms ≡ x ∷ F.contents res.1))

  abbrev pub Pushed : List A → A → Bool × F.Q → Type 0
  Pushed ms x res =
      ((res.0 ≡ true) × (F.contents res.1 ≡ ms ++ (x ∷ [])))
      ⊎ ((res.0 ≡ false) × (F.contents res.1 ≡ ms))

-- The laws by cases.
module _ {A : Type 0} (F : QueueApi A) (q : F.Q) where
  open F use {room, contents, push, pop, push_law, pop_law}

  pub pop_empty : contents q ≡ [] → ((pop q).0 ≡ none) × (contents (pop q).1 ≡ [])
  unfolding Fifo.pop
  pop_empty e =
      ((pop_law q).0 ∙ ap (λ l. (Fifo.pop l).0) e, (pop_law q).1 ∙ ap (λ l. (Fifo.pop l).1) e)

  pub pop_first :
      (x : A) (xs : List A) → contents q ≡ x ∷ xs → ((pop q).0 ≡ some x) × (contents (pop q).1 ≡ xs)
  unfolding Fifo.pop
  pop_first x xs e =
      ((pop_law q).0 ∙ ap (λ l. (Fifo.pop l).0) e, (pop_law q).1 ∙ ap (λ l. (Fifo.pop l).1) e)

  pub push_room :
      (x : A)
      → length (contents q) < room
      → ((push q x).0 ≡ true) × (contents (push q x).1 ≡ contents q ++ (x ∷ []))
  unfolding Fifo.push
  push_room x h = ((push_law q x).0 ∙ rw (lt→ltb _ _ h), (push_law q x).1 ∙ rw (lt→ltb _ _ h))

  pub push_full :
      (x : A)
      → room ≤ length (contents q)
      → ((push q x).0 ≡ false) × (contents (push q x).1 ≡ contents q)
  unfolding Fifo.push
  push_full x h = ((push_law q x).0 ∙ rw (le→ltb _ _ h), (push_law q x).1 ∙ rw (le→ltb _ _ h))

  pub pop-Popped : Popped F (contents q) (pop q)
  pop-Popped = cases (contents q) refl
    where
      cases : (ms : List A) → contents q ≡ ms → Popped F (contents q) (pop q)
      cases [] e = let (nothing, same) = pop_empty e in inl (nothing, same ∙ sym e)
      cases (x ∷ xs) e =
          let (first, rest) = pop_first x xs e in inr (x, first, e ∙ ap (λ l. x ∷ l) (sym rest))

  pub push-Pushed : (x : A) → Pushed F (contents q) x (push q x)
  push-Pushed x = elim (Bool-cases (ltb (length (contents q)) room)) [
    | inl e ↦ inl (push_room x (ltb→lt _ _ e))
    | inr e ↦ inr (push_full x (ground arith))
  ]

-- The same, by the result.
module _ {A : Type 0} (F : QueueApi A) where
  pub Popped-none : (ms : List A) (q : F.Q) → Popped F ms (none, q) → F.contents q ≡ ms
  Popped-none ms q (inl (_, same)) = same
  Popped-none ms q (inr (x, e, _)) = cc

  pub Popped-some :
      (ms : List A) (m : A) (q : F.Q) → Popped F ms (some m, q) → ms ≡ m ∷ F.contents q
  Popped-some ms m q (inl (e, _)) = cc
  Popped-some ms m q (inr (x, e, f)) = let same : x ≡ m = cc in f ∙ ap (λ y. y ∷ F.contents q) same

  pub Pushed-true :
      (ms : List A) (m : A) (q : F.Q) → Pushed F ms m (true, q) → F.contents q ≡ ms ++ (m ∷ [])
  Pushed-true ms m q (inl (_, e)) = e
  Pushed-true ms m q (inr (e, _)) = cc

  pub Pushed-false : (ms : List A) (m : A) (q : F.Q) → Pushed F ms m (false, q) → F.contents q ≡ ms
  Pushed-false ms m q (inl (e, _)) = cc
  Pushed-false ms m q (inr (_, e)) = e
