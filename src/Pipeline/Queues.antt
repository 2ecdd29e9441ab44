-- ===== src/Pipeline/Queues.antt =====
-- What `try_pop` and `try_push` at an index do to a list of queues.
use message_router.Base.{
  get_elem?, set, replicate, ℕ, zero, suc, ◌≡◌, ◌≢◌, refl, ap, Bool, true, false, List, [], ◌∷◌,
  ◌++◌, Option, none, some,
}
use message_router.Message.{Message}
use message_router.Queue.Client.{
  QueueApi, Popped, Pushed, pop-Popped, push-Pushed, Popped-none, Popped-some, Pushed-true,
  Pushed-false,
}
use message_router.Router.{pop_at, push_at}

module _ (F : QueueApi Message) where
  open F use {Q, contents, push, pop, new, new_law}

  -- What the queue at an index holds.
  abbrev pub contents_at : List Q → ℕ → List Message
  contents_at [] i = []
  contents_at (q ∷ qs) zero = contents q
  contents_at (q ∷ qs) (suc i) = contents_at qs i

  -- `try_pop` at an index that exists.
  abbrev pub PoppedAt : List Q → ℕ → Option Message × List Q → Type 0
  PoppedAt qs i (none, qs') = (j : ℕ) → contents_at qs' j ≡ contents_at qs j
  PoppedAt qs i (some m, qs') =
      (contents_at qs i ≡ m ∷ contents_at qs' i)
      × ((j : ℕ) → j ≢ i → contents_at qs' j ≡ contents_at qs j)

  Popped-PoppedAt :
      (q : Q) (qs : List Q) (res : Option Message × Q)
      → Popped F (contents q) res
      → PoppedAt (q ∷ qs) 0 (res.0, res.1 ∷ qs)
  Popped-PoppedAt q qs (none, q') e = λ j. same j
    where
      same : (j : ℕ) → contents_at (q' ∷ qs) j ≡ contents_at (q ∷ qs) j
      same zero = Popped-none F (contents q) q' e
      same (suc j) = refl
  Popped-PoppedAt q qs (some m, q') e = (Popped-some F (contents q) m q' e, others)
    where
      others : (j : ℕ) → j ≢ 0 → contents_at (q' ∷ qs) j ≡ contents_at (q ∷ qs) j
      others zero ne = absurd (ne refl)
      others (suc j) ne = refl

  PoppedAt-cons :
      (q : Q) (qs : List Q) (i : ℕ) (res : Option Message × List Q)
      → PoppedAt qs i res
      → PoppedAt (q ∷ qs) (suc i) (res.0, q ∷ res.1)
  PoppedAt-cons q qs i (none, qs') e = λ j. same j
    where
      same : (j : ℕ) → contents_at (q ∷ qs') j ≡ contents_at (q ∷ qs) j
      same zero = refl
      same (suc j) = e j
  PoppedAt-cons q qs i (some m, qs') (first, rest) = (first, others)
    where
      others : (j : ℕ) → j ≢ suc i → contents_at (q ∷ qs') j ≡ contents_at (q ∷ qs) j
      others zero ne = refl
      others (suc j) ne = rest j (λ e. ne (ap suc e))

  -- The index may be behind the last queue.
  abbrev pub PoppedIf : List Q → ℕ → Option (Option Message × List Q) → Type 0
  PoppedIf qs i none = Unit
  PoppedIf qs i (some res) = PoppedAt qs i res

  pub pop_at-PoppedIf : (qs : List Q) (i : ℕ) → PoppedIf qs i (pop_at F qs i)
  unfolding pop_at
  pop_at-PoppedIf [] i = tt
  pop_at-PoppedIf (q ∷ qs) zero = Popped-PoppedAt q qs (pop q) (pop-Popped F q)
  pop_at-PoppedIf (q ∷ qs) (suc i) = further (pop_at F qs i) (pop_at-PoppedIf qs i)
    where
      further :
          (r : Option (Option Message × List Q))
          → PoppedIf qs i r
          → PoppedIf (q ∷ qs) (suc i) (elim r as (λ _. Option (Option Message × List Q)) [
            | none ↦ none
            | some (m, rest) ↦ some (m, q ∷ rest)
          ])
      further none e = tt
      further (some res) e = PoppedAt-cons q qs i res e

  -- `try_push` at an index.
  abbrev pub PushedAt : List Q → ℕ → Message → Bool × List Q → Type 0
  PushedAt qs p m (false, qs') = (j : ℕ) → contents_at qs' j ≡ contents_at qs j
  PushedAt qs p m (true, qs') =
      (contents_at qs' p ≡ contents_at qs p ++ (m ∷ []))
      × ((j : ℕ) → j ≢ p → contents_at qs' j ≡ contents_at qs j)

  Pushed-PushedAt :
      (q : Q) (qs : List Q) (m : Message) (res : Bool × Q)
      → Pushed F (contents q) m res
      → PushedAt (q ∷ qs) 0 m (res.0, res.1 ∷ qs)
  Pushed-PushedAt q qs m (false, q') e = λ j. same j
    where
      same : (j : ℕ) → contents_at (q' ∷ qs) j ≡ contents_at (q ∷ qs) j
      same zero = Pushed-false F (contents q) m q' e
      same (suc j) = refl
  Pushed-PushedAt q qs m (true, q') e = (Pushed-true F (contents q) m q' e, others)
    where
      others : (j : ℕ) → j ≢ 0 → contents_at (q' ∷ qs) j ≡ contents_at (q ∷ qs) j
      others zero ne = absurd (ne refl)
      others (suc j) ne = refl

  PushedAt-cons :
      (q : Q) (qs : List Q) (p : ℕ) (m : Message) (res : Bool × List Q)
      → PushedAt qs p m res
      → PushedAt (q ∷ qs) (suc p) m (res.0, q ∷ res.1)
  PushedAt-cons q qs p m (false, qs') e = λ j. same j
    where
      same : (j : ℕ) → contents_at (q ∷ qs') j ≡ contents_at (q ∷ qs) j
      same zero = refl
      same (suc j) = e j
  PushedAt-cons q qs p m (true, qs') (last, rest) = (last, others)
    where
      others : (j : ℕ) → j ≢ suc p → contents_at (q ∷ qs') j ≡ contents_at (q ∷ qs) j
      others zero ne = refl
      others (suc j) ne = rest j (λ e. ne (ap suc e))

  pub push_at-PushedAt : (qs : List Q) (p : ℕ) (m : Message) → PushedAt qs p m (push_at F qs p m)
  unfolding push_at
  push_at-PushedAt [] p m = λ j. refl
  push_at-PushedAt (q ∷ qs) zero m = Pushed-PushedAt q qs m (push q m) (push-Pushed F q m)
  push_at-PushedAt (q ∷ qs) (suc p) m =
      PushedAt-cons q qs p m (push_at F qs p m) (push_at-PushedAt qs p m)

  pub contents_at-get :
      (qs : List Q) (i : ℕ) (q : Q) → get_elem? qs i ≡ some q → contents_at qs i ≡ contents q
  contents_at-get [] i q e = cc
  contents_at-get (q' ∷ qs) zero q e = let same : q' ≡ q = cc in ap contents same
  contents_at-get (q' ∷ qs) (suc i) q e = contents_at-get qs i q e

  pub contents_at-set_self :
      (qs : List Q) (i : ℕ) (q : Q) {q' : Q}
      → get_elem? qs i ≡ some q'
      → contents_at (set qs i q) i ≡ contents q
  contents_at-set_self [] i q e = cc
  contents_at-set_self (x ∷ qs) zero q e = refl
  contents_at-set_self (x ∷ qs) (suc i) q e = contents_at-set_self qs i q e

  pub contents_at-set_ne :
      (qs : List Q) (i j : ℕ) (q : Q) → j ≢ i → contents_at (set qs i q) j ≡ contents_at qs j
  contents_at-set_ne [] i j q ne = refl
  contents_at-set_ne (q' ∷ qs) zero zero q ne = absurd (ne refl)
  contents_at-set_ne (q' ∷ qs) zero (suc j) q ne = refl
  contents_at-set_ne (q' ∷ qs) (suc i) zero q ne = refl
  contents_at-set_ne (q' ∷ qs) (suc i) (suc j) q ne =
      contents_at-set_ne qs i j q (λ e. ne (ap suc e))

  pub contents_at-replicate : (n i : ℕ) → contents_at (replicate n new) i ≡ []
  contents_at-replicate zero i = refl
  contents_at-replicate (suc n) zero = new_law
  contents_at-replicate (suc n) (suc i) = contents_at-replicate n i
