-- ===== src/Queue/RoundTrip.antt =====
-- What is pushed comes out again.
use message_router.Base.{
  ℕ, ◌+◌, ◌≤◌, ◌≡◌, refl, ap, ◌∙◌, append_assoc, append-nil, true, List, [], ◌∷◌, ◌++◌, map, none,
  some, arith, length, length-append,
}
use message_router.Queue.Defs.{Spsc, capacity}
use message_router.Queue.Layout.{Holds}
use message_router.Queue.Fifo
use message_router.Queue.Fifo.{Op, put, get, Reply, pushed, popped, push_room}
use message_router.Queue.Refine.{run, run_refines}

-- As many calls of `try_pop` as there are items.
abbrev pub drain {ℓ} : {A : Type ℓ} → List A → List (Op A)
drain = map (λ x. get)

module _ {ℓ} {A : Type ℓ} (room : ℕ) where
  fill_lem :
      (xs ys : List A) (ops : List (Op A))
      → length ys + length xs ≤ room
      → Fifo.run room ys (map put xs ++ ops)
        ≡ map (λ x. pushed true) xs ++ Fifo.run room (ys ++ xs) ops
  unfolding Fifo.run
  fill_lem [] ys ops h = rw append-nil refl
  fill_lem (x ∷ xs) ys ops h = rw (push_room room ys x (omega arith)) (
      ap (λ l. pushed true ∷ l)
        (fill_lem xs (ys ++ (x ∷ [])) ops (omega (arith, length-append ys (x ∷ [])))
          ∙ ap (λ l. map (λ x. pushed true) xs ++ Fifo.run room l ops)
              (append_assoc ys (x ∷ []) xs)))

  drain_lem :
      (xs : List A) (ops : List (Op A))
      → Fifo.run room xs (drain xs ++ ops) ≡ map (λ x. popped (some x)) xs ++ Fifo.run room [] ops
  unfolding Fifo.run Fifo.pop
  drain_lem [] ops = refl
  drain_lem (x ∷ xs) ops = ap (λ l. popped (some x) ∷ l) (drain_lem xs ops)

-- On an empty queue, wherever its head is, `try_push` of at most `capacity()` items accepts each,
-- and the calls of `try_pop` that follow hand out the same items in the same order, and then
-- nothing.
pub run-drain {ℓ} :
    {A : Type ℓ} {k : ℕ} {q : Spsc A} (xs : List A)
    → Holds k 0 q []
    → length xs ≤ capacity k
    → run k q (map put xs ++ (drain xs ++ (get ∷ [])))
      ≡ map (λ x. pushed true) xs ++ (map (λ x. popped (some x)) xs ++ (popped none ∷ []))
unfolding Fifo.run Fifo.pop
run-drain {k} xs h fits =
    run_refines (map put xs ++ (drain xs ++ (get ∷ []))) h
    ∙ fill_lem (capacity k) xs [] (drain xs ++ (get ∷ [])) (omega arith)
    ∙ ap (λ l. map (λ x. pushed true) xs ++ l) (drain_lem (capacity k) xs (get ∷ []))
