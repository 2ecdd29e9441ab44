-- ===== src/Queue/History.antt =====
-- Calls of a queue with what they return, in order, and when they are those of a FIFO.
use mathlib.Core.List.{map-append}
use message_router.Base.{
  ℕ, ◌<◌, ◌≡◌, refl, ap, ◌∙◌, true, false, List, [], ◌∷◌, ◌++◌, map, none, some, arith, length,
}
use message_router.Queue.Fifo.{
  Op, put, get, Reply, pushed, popped, run, after, pop, push_room, push_full, run-append,
  after-append,
}

-- What was called, and what it returned.
abbrev pub calls {ℓ} : {A : Type ℓ} → List (Op A × Reply A) → List (Op A)
calls = map (λ e. e.0)

abbrev pub replies {ℓ} : {A : Type ℓ} → List (Op A × Reply A) → List (Reply A)
replies = map (λ e. e.1)

-- The FIFO of `xs` gives these replies to these calls, and is left with `ys`.
pub record Legal {ℓ} {A : Type ℓ} (room : ℕ) (xs : List A) (h : List (Op A × Reply A)) (ys : List A)
    : Type ℓ where
  pub same : run room xs (calls h) ≡ replies h
  pub left : after room xs (calls h) ≡ ys

module _ {ℓ} {A : Type ℓ} {room : ℕ} where
  pub Legal-append :
      {xs ys zs : List A} {h g : List (Op A × Reply A)}
      → Legal room xs h ys
      → Legal room ys g zs
      → Legal room xs (h ++ g) zs
  Legal-append {xs} {h = h} {g = g} l r = record {
    same =
        rw (map-append, map-append)
          (run-append room (calls g) xs (calls h)
            ∙ ap (λ l. run room xs (calls h) ++ run room l (calls g)) l.left
            ∙ cc (l.same, r.same));
    left = rw map-append (
        after-append room (calls g) xs (calls h)
        ∙ ap (λ l. after room l (calls g)) l.left
        ∙ r.left);
  }

  pub Legal-none : (xs : List A) → Legal room xs [] xs
  unfolding run after
  Legal-none xs = record { same = refl; left = refl }

  pub Legal-push :
      (x : A) (xs : List A)
      → length xs < room
      → Legal room xs ((put x, pushed true) ∷ []) (xs ++ (x ∷ []))
  unfolding run after
  Legal-push x xs h =
      let e = push_room room xs x h in
      record { same = ap (λ r. pushed r.0 ∷ []) e; left = ap (λ r. r.1) e }

  pub Legal-full :
      (x : A) (xs : List A) → length xs ≡ room → Legal room xs ((put x, pushed false) ∷ []) xs
  unfolding run after
  Legal-full x xs h =
      let e = push_full room xs x (omega arith) in
      record { same = ap (λ r. pushed r.0 ∷ []) e; left = ap (λ r. r.1) e }

  pub Legal-pop : (x : A) (xs : List A) → Legal room (x ∷ xs) ((get, popped (some x)) ∷ []) xs
  unfolding run after pop
  Legal-pop x xs = record { same = refl; left = refl }

  pub Legal-empty : (xs : List A) → length xs ≡ 0 → Legal room xs ((get, popped none) ∷ []) xs
  unfolding run after pop
  Legal-empty [] h = record { same = refl; left = refl }
  Legal-empty (x ∷ xs) h = absurd (omega arith)

-- The items of the calls of `try_push` that returned true, and those that `try_pop` handed out.
unfoldable pub accepted {ℓ} : {A : Type ℓ} → List (Op A × Reply A) → List A
accepted [] = []
accepted ((put x, pushed true) ∷ h) = x ∷ accepted h
accepted (_ ∷ h) = accepted h

unfoldable pub handed_out {ℓ} : {A : Type ℓ} → List (Op A × Reply A) → List A
handed_out [] = []
handed_out ((get, popped (some x)) ∷ h) = x ∷ handed_out h
handed_out (_ ∷ h) = handed_out h

module _ {ℓ} {A : Type ℓ} where
  pub accepted-append : (h g : List (Op A × Reply A)) → accepted (h ++ g) ≡ accepted h ++ accepted g
  unfolding accepted
  accepted-append [] g = refl
  accepted-append ((put x, pushed true) ∷ h) g = ap (λ l. x ∷ l) (accepted-append h g)
  accepted-append ((put x, pushed false) ∷ h) g = accepted-append h g
  accepted-append ((put x, popped o) ∷ h) g = accepted-append h g
  accepted-append ((get, o) ∷ h) g = accepted-append h g

  pub handed_out-append :
      (h g : List (Op A × Reply A)) → handed_out (h ++ g) ≡ handed_out h ++ handed_out g
  unfolding handed_out
  handed_out-append [] g = refl
  handed_out-append ((get, popped (some x)) ∷ h) g = ap (λ l. x ∷ l) (handed_out-append h g)
  handed_out-append ((get, popped none) ∷ h) g = handed_out-append h g
  handed_out-append ((get, pushed b) ∷ h) g = handed_out-append h g
  handed_out-append ((put x, o) ∷ h) g = handed_out-append h g
