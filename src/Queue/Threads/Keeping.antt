-- ===== src/Queue/Threads/Keeping.antt =====
-- Every step of the two threads keeps the invariant.
use message_router.Base.{
  ℕ, ◌-◌, ◌^◌, ◌<◌, ◌≡◌, ◌≢◌, refl, sym, ap, subst, ◌∙◌, append_assoc, true, List, [], ◌∷◌, ◌++◌,
  some, arith, length,
}
use message_router.Queue.Defs.{Node, Spsc, next_index}
use message_router.Queue.Slots.{
  item_at, item_at-write_item_self, item_at-write_ready, ready_at-write_ready_self,
}
use message_router.Queue.Layout.{
  Holds, tail_in, full_iff, empty_iff, Holds-write_item, Holds-write_ready, Holds-append,
  Holds-clear, Holds-drop, head_item,
}
use message_router.Queue.Refine.{init-Holds}
use message_router.Queue.Threads.{
  PushPc, flagged, PopPc, copied, cleared, System, Step, push_call, push_full, push_room, push_item,
  push_flag, push_tail, pop_call, pop_empty, pop_items, pop_unready, pop_ready, pop_copy, pop_clear,
  pop_head, started, Steps, here, next,
}
use message_router.Queue.Threads.Invariant.{
  Producing, Consuming, skipped, Inv, Consuming-buffer, Consuming-append, Producing-clear,
  Producing-drop, Producing-at, Consuming-at, Holds-at,
}

some_inj {ℓ} : {A : Type ℓ} (x y : A) → some x ≡ some y → x ≡ y
some_inj x y e = cc

front {ℓ} : {A : Type ℓ} (xs : List A) → 0 < length xs → (x : A) × (rest : List A) × (xs ≡ x ∷ rest)
front [] h = elim h [ ]
front (x ∷ xs) h = (x, xs, refl)

module _ {ℓ} {A : Type ℓ} {k : ℕ} where
  -- A step of the producer that stores nothing shared.
  push_local :
      {s : System A} (p : PushPc A) (i : Inv k s)
      → Producing k s.q i.held p
      → Inv k (record s { producer = p })
  push_local p i f = record {
    held = i.held;
    split = i.split;
    holds = i.holds;
    producing = f;
    consuming = i.consuming;
  }

  -- A store of the producer to the slot at `tail`.
  push_store :
      {s : System A} (p : PushPc A) (b : List (Node A)) (i : Inv k s)
      → Holds k (skipped s.consumer) (record (s.q) { buffer = b }) i.held
      → Producing k (record (s.q) { buffer = b }) i.held p
      → Inv k (record s { q = record (s.q) { buffer = b }; producer = p })
  push_store {s} p b i h f = record {
    held = i.held;
    split = i.split;
    holds = h;
    producing = f;
    consuming =
        Consuming-buffer s.q (record (s.q) { buffer = b }) i.held s.consumer refl i.consuming;
  }

  -- A step of the consumer that stores nothing shared.
  pop_local :
      {s : System A} (c : PopPc A) (i : Inv k s)
      → Holds k (skipped c) s.q i.held
      → Consuming s.q i.held c
      → Inv k (record s { consumer = c })
  pop_local c i h f = record {
    held = i.held;
    split = i.split;
    holds = h;
    producing = i.producing;
    consuming = f;
  }

  -- Every step of either thread keeps the invariant.
  pub Step-Inv : {s t : System A} → Step k s t → Inv k s → Inv k t
  Step-Inv (push_call x at) i = push_local _ i (refl, tt)
  Step-Inv (push_full x t at full) i = push_local _ i tt
  Step-Inv {s} (push_room x t at room) i =
      push_local _ i (here_t, omega (arith, i.holds.fits, not_full), tt)
    where
      here_t : t ≡ s.q.tail
      here_t = (Producing-at i at).0

      not_full : length i.held ≢ 2 ^ k - 1
      not_full e = room (ap (next_index k) here_t ∙ (full_iff i.holds).1 e)
  Step-Inv {s} (push_item x t at) i =
      let f = Producing-at i at in
      push_store _ _ i (rw f.0 (Holds-write_item i.holds x)) (
        f.0,
        f.1,
        rw f.0 (
            item_at-write_item_self s.q.buffer s.q.tail x
              (omega (arith, tail_in i.holds, i.holds.slots))),
      )
  Step-Inv {s} (push_flag x t at) i =
      let f = Producing-at i at in
      push_store _ _ i (rw f.0 (Holds-write_ready i.holds true)) (
        f.0,
        f.1,
        item_at-write_ready s.q.buffer t t true ∙ f.2,
        rw f.0 (
            ready_at-write_ready_self s.q.buffer s.q.tail true
              (omega (arith, tail_in i.holds, i.holds.slots))),
      )
  Step-Inv {s} (push_tail x t at) i = record {
    held = i.held ++ (x ∷ []);
    split = ap (λ l. l ++ (x ∷ [])) i.split ∙ append_assoc s.received i.held (x ∷ []);
    holds = rw f.0 (Holds-append i.holds x f.1 (rw (← f.0) f.2) (rw (← f.0) f.3));
    producing = tt;
    consuming =
        Consuming-append stored i.held x s.consumer
          (Consuming-buffer s.q stored i.held s.consumer refl i.consuming);
  }
    where
      f : Producing k s.q i.held (flagged x t)
      f = Producing-at i at

      stored : Spsc A
      stored = record (s.q) { tail = next_index k t }
  Step-Inv (pop_call at) i = pop_local _ i (Holds-at i at) (refl, tt)
  Step-Inv (pop_empty h at e) i = pop_local _ i (Holds-at i at) tt
  Step-Inv {s} (pop_items h at ne) i = pop_local _ i (Holds-at i at) (here_h, some_held, tt)
    where
      here_h : h ≡ s.q.head
      here_h = (Consuming-at i at).0

      some_held : 0 < length i.held
      some_held = omega (arith, λ (z : length i.held ≡ 0). ne (here_h ∙ (empty_iff i.holds).1 z))
  Step-Inv (pop_unready h at r) i = pop_local _ i (Holds-at i at) tt
  Step-Inv (pop_ready h at r) i = pop_local _ i (Holds-at i at) (Consuming-at i at)
  Step-Inv {s} (pop_copy h x at item) i =
      let f = Consuming-at i at in
      let (y, rest, e) = front i.held f.1 in
      let same : y ≡ x = some_inj y x (
        sym (head_item (subst (Holds k 0 s.q) e (Holds-at i at)))
        ∙ ap (item_at s.q.buffer) (sym f.0)
        ∙ item) in
      pop_local _ i (Holds-at i at) (f.0, rest, e ∙ ap (λ z. z ∷ rest) same)
  Step-Inv {s} (pop_clear h x at) i = record {
    held = i.held;
    split = i.split;
    holds = rw f.0 (Holds-clear (Holds-at i at) pos);
    producing = rw f.0 (Producing-clear k s.q i.held s.producer apart i.producing);
    consuming = (f.0, f.1, f.2);
  }
    where
      f : Consuming s.q i.held (copied h x)
      f = Consuming-at i at

      pos : 0 < length i.held
      pos = rw f.2 (omega arith)

      apart : s.q.tail ≢ s.q.head
      apart e = absurd (omega (arith, pos, (empty_iff i.holds).0 (sym e)))
  Step-Inv {s} (pop_head h x at) i = record {
    held = f.1;
    split = i.split ∙ ap (λ l. s.received ++ l) f.2 ∙ sym (append_assoc s.received (x ∷ []) f.1);
    holds = rw f.0 (Holds-drop (subst (Holds k 1 s.q) f.2 (Holds-at i at)));
    producing =
        Producing-drop k s.q (next_index k h) x f.1 s.producer
          (subst (λ l. Producing k s.q l s.producer) f.2 i.producing);
    consuming = tt;
  }
    where
      f : Consuming s.q i.held (cleared h x)
      f = Consuming-at i at

  pub started-Inv : (blank : A) → k < 64 → Inv k (started k blank)
  started-Inv blank small = record {
    held = [];
    split = refl;
    holds = init-Holds k blank small;
    producing = tt;
    consuming = tt;
  }

  pub Steps-Inv : (blank : A) {s : System A} → k < 64 → Steps k (started k blank) s → Inv k s
  Steps-Inv blank small here = started-Inv blank small
  Steps-Inv blank small (next r st) = Step-Inv st (Steps-Inv blank small r)
