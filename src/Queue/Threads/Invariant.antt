-- ===== src/Queue/Threads/Invariant.antt =====
-- What the two threads' local variables say of the queue, kept by every step.
use message_router.Base.{
  ℕ, suc, ◌^◌, ◌<◌, ◌≡◌, ◌≢◌, sym, ap, subst, ◌∙◌, true, false, List, [], ◌∷◌, ◌++◌, some, arith,
  length, length-append,
}
use message_router.Queue.Defs.{Spsc, write_ready}
use message_router.Queue.Slots.{item_at, ready_at, item_at-write_ready, ready_at-write_ready_ne}
use message_router.Queue.Layout.{Holds}
use message_router.Queue.Threads.{
  PushPc, has_tail, has_room, wrote, flagged, PopPc, has_head, has_items, saw_ready, copied,
  cleared, System,
}

module _ {ℓ} {A : Type ℓ} where
  abbrev pub Producing : ℕ → Spsc A → List A → PushPc A → Type ℓ
  Producing k q held PushPc.outside = Unit
  Producing k q held (has_tail x t) = (t ≡ q.tail) × Unit {ℓ}
  Producing k q held (has_room x t) = (t ≡ q.tail) × (suc (length held) < 2 ^ k) × Unit {ℓ}
  Producing k q held (wrote x t) =
      (t ≡ q.tail) × (suc (length held) < 2 ^ k) × (item_at q.buffer t ≡ some x)
  Producing k q held (flagged x t) =
      (t ≡ q.tail)
      × (suc (length held) < 2 ^ k)
      × (item_at q.buffer t ≡ some x)
      × (ready_at q.buffer t ≡ true)

  abbrev pub Consuming : Spsc A → List A → PopPc A → Type ℓ
  Consuming q held PopPc.outside = Unit
  Consuming q held (has_head h) = (h ≡ q.head) × Unit {ℓ}
  Consuming q held (has_items h) = (h ≡ q.head) × (0 < length held) × Unit {ℓ}
  Consuming q held (saw_ready h) = (h ≡ q.head) × (0 < length held) × Unit {ℓ}
  Consuming q held (copied h x) = (h ≡ q.head) × (rest : List A) × (held ≡ x ∷ rest)
  Consuming q held (cleared h x) = (h ≡ q.head) × (rest : List A) × (held ≡ x ∷ rest)

-- The consumer clears the oldest item's flag before it gives the slot back.
abbrev pub skipped {ℓ} : {A : Type ℓ} → PopPc A → ℕ
skipped (cleared h x) = 1
skipped _ = 0

-- The queue holds what was sent and is not yet received.
pub record Inv {ℓ} {A : Type ℓ} (k : ℕ) (s : System A) : Type ℓ where
  pub held : List A
  pub split : s.sent ≡ s.received ++ held
  pub holds : Holds k (skipped s.consumer) s.q held
  pub producing : Producing k s.q held s.producer
  pub consuming : Consuming s.q held s.consumer

-- What one thread's stores leave of the other thread's facts.
module _ {ℓ} {A : Type ℓ} where
  pub Consuming-buffer :
      (q r : Spsc A) (held : List A) (c : PopPc A)
      → q.head ≡ r.head
      → Consuming q held c
      → Consuming r held c
  Consuming-buffer q r held PopPc.outside e f = tt
  Consuming-buffer q r held (has_head h) e f = (f.0 ∙ e, tt)
  Consuming-buffer q r held (has_items h) e f = (f.0 ∙ e, f.1, tt)
  Consuming-buffer q r held (saw_ready h) e f = (f.0 ∙ e, f.1, tt)
  Consuming-buffer q r held (copied h x) e f = (f.0 ∙ e, f.1, f.2)
  Consuming-buffer q r held (cleared h x) e f = (f.0 ∙ e, f.1, f.2)

  pub Consuming-append :
      (q : Spsc A) (held : List A) (y : A) (c : PopPc A)
      → Consuming q held c
      → Consuming q (held ++ (y ∷ [])) c
  Consuming-append q held y PopPc.outside f = tt
  Consuming-append q held y (has_head h) f = f
  Consuming-append q held y (has_items h) f = (f.0, omega (arith, length-append held (y ∷ [])), tt)
  Consuming-append q held y (saw_ready h) f = (f.0, omega (arith, length-append held (y ∷ [])), tt)
  Consuming-append q held y (copied h x) f = (f.0, f.1 ++ (y ∷ []), ap (λ l. l ++ (y ∷ [])) f.2)
  Consuming-append q held y (cleared h x) f = (f.0, f.1 ++ (y ∷ []), ap (λ l. l ++ (y ∷ [])) f.2)

  pub Producing-clear :
      (k : ℕ) (q : Spsc A) (held : List A) (p : PushPc A)
      → q.tail ≢ q.head
      → Producing k q held p
      → Producing k (record q { buffer = write_ready q.buffer q.head false }) held p
  Producing-clear k q held PushPc.outside ne f = tt
  Producing-clear k q held (has_tail x t) ne f = f
  Producing-clear k q held (has_room x t) ne f = f
  Producing-clear k q held (wrote x t) ne f =
      (f.0, f.1, item_at-write_ready q.buffer q.head t false ∙ f.2)
  Producing-clear k q held (flagged x t) ne f = (
    f.0,
    f.1,
    item_at-write_ready q.buffer q.head t false ∙ f.2,
    ready_at-write_ready_ne q.buffer q.head t false (λ e. ne (sym (e ∙ f.0))) ∙ f.3,
  )

  pub Producing-drop :
      (k : ℕ) (q : Spsc A) (h : ℕ) (y : A) (rest : List A) (p : PushPc A)
      → Producing k q (y ∷ rest) p
      → Producing k (record q { head = h }) rest p
  Producing-drop k q h y rest PushPc.outside f = tt
  Producing-drop k q h y rest (has_tail x t) f = f
  Producing-drop k q h y rest (has_room x t) f = (f.0, omega arith, tt)
  Producing-drop k q h y rest (wrote x t) f = (f.0, omega arith, f.2)
  Producing-drop k q h y rest (flagged x t) f = (f.0, omega arith, f.2, f.3)

module _ {ℓ} {A : Type ℓ} {k : ℕ} where
  -- The facts at a known place.
  pub Producing-at :
      {s : System A} {p : PushPc A} → (i : Inv k s) → s.producer ≡ p → Producing k s.q i.held p
  Producing-at {s} i at = subst (Producing k s.q i.held) at i.producing

  pub Consuming-at :
      {s : System A} {c : PopPc A} → (i : Inv k s) → s.consumer ≡ c → Consuming s.q i.held c
  Consuming-at {s} i at = subst (Consuming s.q i.held) at i.consuming

  pub Holds-at :
      {s : System A} {c : PopPc A} → (i : Inv k s) → s.consumer ≡ c → Holds k (skipped c) s.q i.held
  Holds-at {s} i at = subst (λ c. Holds k (skipped c) s.q i.held) at i.holds
