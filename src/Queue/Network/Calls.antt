-- ===== src/Queue/Network/Calls.antt =====
-- A thread that is in a call still wants to make it, whatever the other threads do.
use message_router.Base.{ℕ, ◌≡◌, ◌≢◌, refl, sym, ap, subst, ◌∙◌}
use message_router.Queue.Threads.{
  PushPc, has_tail, has_room, wrote, flagged, PopPc, has_head, has_items, saw_ready, copied,
  cleared,
}
use message_router.Queue.Network.{Call, calls_push, calls_pop, Program, update, goes}

-- What holds at an index of the new values, and of the old ones elsewhere, holds of all.
pub update_all {ℓ κ μ} :
    {I : Type ℓ} {B : Type κ} (d : Discrete I) (P : I → B → Type μ) (f : I → B) (i : I) (b : B)
    → P i b
    → ((j : I) → i ≢ j → P j (f j))
    → (j : I) → P j (update d f i b j)
update_all d P f i b new old j =
    elim (d i j) as (λ d. P j (elim d as (λ _. _) [ yes e ↦ b | no ne ↦ f j ])) [
      | yes e ↦ subst (λ h. P h b) e new
      | no ne ↦ old j ne
    ]

module _ {A : Type 0} (P : Program A) (k : ℕ) where
  open P use {T, J, C, wants, pusher, popper, thread_discrete}

  -- The thread that is in a call of `try_push`, or of `try_pop`, of the queue `j`.
  abbrev pub Pushing : J → (T → C) → PushPc A → Type 0
  Pushing j cs PushPc.outside = Unit
  Pushing j cs (has_tail x t) = wants (pusher j) (cs (pusher j)) ≡ calls_push j x
  Pushing j cs (has_room x t) = wants (pusher j) (cs (pusher j)) ≡ calls_push j x
  Pushing j cs (wrote x t) = wants (pusher j) (cs (pusher j)) ≡ calls_push j x
  Pushing j cs (flagged x t) = wants (pusher j) (cs (pusher j)) ≡ calls_push j x

  abbrev pub Popping : J → (T → C) → PopPc A → Type 0
  Popping j cs PopPc.outside = Unit
  Popping j cs (has_head h) = wants (popper j) (cs (popper j)) ≡ calls_pop j
  Popping j cs (has_items h) = wants (popper j) (cs (popper j)) ≡ calls_pop j
  Popping j cs (saw_ready h) = wants (popper j) (cs (popper j)) ≡ calls_pop j
  Popping j cs (copied h x) = wants (popper j) (cs (popper j)) ≡ calls_pop j
  Popping j cs (cleared h x) = wants (popper j) (cs (popper j)) ≡ calls_pop j

  -- A thread with another call is not the one that goes on.
  kept :
      (cs : T → C) (i a : T) (c : C) (w : Call J A)
      → wants a (cs a) ≡ w
      → wants i (cs i) ≢ w
      → wants a (goes P k cs i c a) ≡ w
  kept cs i a c w e ne =
      update_all thread_discrete (λ h z. h ≡ a → wants h z ≡ w) cs i c
        (λ same. absurd (ne (ap (λ h. wants h (cs h)) same ∙ e)))
        (λ j away same. ap (λ h. wants h (cs h)) same ∙ e) a refl

  pub kept-Pushing :
      (cs : T → C) (i : T) (j : J) (c : C) (pc : PushPc A)
      → ((x : A) → wants i (cs i) ≢ calls_push j x)
      → Pushing j cs pc
      → Pushing j (goes P k cs i c) pc
  kept-Pushing cs i j c PushPc.outside ne w = tt
  kept-Pushing cs i j c (has_tail x t) ne w = kept cs i (pusher j) c (calls_push j x) w (ne x)
  kept-Pushing cs i j c (has_room x t) ne w = kept cs i (pusher j) c (calls_push j x) w (ne x)
  kept-Pushing cs i j c (wrote x t) ne w = kept cs i (pusher j) c (calls_push j x) w (ne x)
  kept-Pushing cs i j c (flagged x t) ne w = kept cs i (pusher j) c (calls_push j x) w (ne x)

  pub kept-Popping :
      (cs : T → C) (i : T) (j : J) (c : C) (pc : PopPc A)
      → wants i (cs i) ≢ calls_pop j
      → Popping j cs pc
      → Popping j (goes P k cs i c) pc
  kept-Popping cs i j c PopPc.outside ne w = tt
  kept-Popping cs i j c (has_head h) ne w = kept cs i (popper j) c (calls_pop j) w ne
  kept-Popping cs i j c (has_items h) ne w = kept cs i (popper j) c (calls_pop j) w ne
  kept-Popping cs i j c (saw_ready h) ne w = kept cs i (popper j) c (calls_pop j) w ne
  kept-Popping cs i j c (copied h x) ne w = kept cs i (popper j) c (calls_pop j) w ne
  kept-Popping cs i j c (cleared h x) ne w = kept cs i (popper j) c (calls_pop j) w ne

  -- A thread makes one call at a time.
  pub push_apart :
      (a : T) (c : C) (i j : J) (x y : A)
      → wants a c ≡ calls_push i x
      → i ≢ j
      → wants a c ≢ calls_push j y
  push_apart a c i j x y e ne f = ne cc

  pub pop_apart :
      (a : T) (c : C) (i j : J) → wants a c ≡ calls_pop i → i ≢ j → wants a c ≢ calls_pop j
  pop_apart a c i j e ne f = ne cc

  pub push_pop_apart :
      (a : T) (c : C) (i j : J) (x : A) → wants a c ≡ calls_push i x → wants a c ≢ calls_pop j
  push_pop_apart a c i j x e f = absurd (apart (sym e ∙ f))
    where
      apart : calls_push i x ≢ calls_pop j
      apart g = cc

  pub pop_push_apart :
      (a : T) (c : C) (i j : J) (x : A) → wants a c ≡ calls_pop i → wants a c ≢ calls_push j x
  pop_push_apart a c i j x e f = push_pop_apart a c j i x f e
