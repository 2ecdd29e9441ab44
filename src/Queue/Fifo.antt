-- ===== src/Queue/Fifo.antt =====
-- What a queue promises its clients: a FIFO of at most `room` items, oldest first. `Client` is the
-- interface that the threads of the router use, and `Refine` fills it.
use message_router.Base.{
  ℕ, ◌≡◌, ◌≤◌, ◌<◌, refl, ap, lt→ltb, le→ltb, Bool, true, false, List, [], ◌∷◌, ◌++◌, Option, none,
  some, ltb, if◌then◌else◌, length,
}

module _ {ℓ} {A : Type ℓ} where
  unfoldable pub push : ℕ → List A → A → Bool × List A
  push room xs x = if ltb (length xs) room then (true, xs ++ (x ∷ [])) else (false, xs)

  unfoldable pub pop : List A → Option A × List A
  pop [] = (none, [])
  pop (x ∷ xs) = (some x, xs)

module _ {ℓ} {A : Type ℓ} (room : ℕ) (xs : List A) (x : A) where
  pub push_room : length xs < room → push room xs x ≡ (true, xs ++ (x ∷ []))
  unfolding push
  push_room h = rw (lt→ltb _ _ h) refl

  pub push_full : room ≤ length xs → push room xs x ≡ (false, xs)
  unfolding push
  push_full h = rw (le→ltb _ _ h) refl

-- A call of a client, and what it sees of it.
pub data Op {ℓ} (A : Type ℓ) : Type ℓ where
  put : A → Op A
  get : Op A

pub data Reply {ℓ} (A : Type ℓ) : Type ℓ where
  pushed : Bool → Reply A
  popped : Option A → Reply A

unfoldable pub run {ℓ} : {A : Type ℓ} → ℕ → List A → List (Op A) → List (Reply A)
run room xs [] = []
run room xs (put x ∷ ops) = let (b, ys) = push room xs x in pushed b ∷ run room ys ops
run room xs (get ∷ ops) = let (o, ys) = pop xs in popped o ∷ run room ys ops

-- The items that are left after the calls.
unfoldable pub after {ℓ} : {A : Type ℓ} → ℕ → List A → List (Op A) → List A
after room xs [] = xs
after room xs (put x ∷ ops) = after room (push room xs x).1 ops
after room xs (get ∷ ops) = after room (pop xs).1 ops

-- More calls after some.
module _ {ℓ} {A : Type ℓ} (room : ℕ) (more : List (Op A)) where
  pub run-append :
      (xs : List A) (ops : List (Op A))
      → run room xs (ops ++ more) ≡ run room xs ops ++ run room (after room xs ops) more
  unfolding run after
  run-append xs [] = refl
  run-append xs (put x ∷ ops) =
      ap (λ l. pushed (push room xs x).0 ∷ l) (run-append (push room xs x).1 ops)
  run-append xs (get ∷ ops) = ap (λ l. popped (pop xs).0 ∷ l) (run-append (pop xs).1 ops)

  pub after-append :
      (xs : List A) (ops : List (Op A))
      → after room xs (ops ++ more) ≡ after room (after room xs ops) more
  unfolding after
  after-append xs [] = refl
  after-append xs (put x ∷ ops) = after-append (push room xs x).1 ops
  after-append xs (get ∷ ops) = after-append (pop xs).1 ops
