-- ===== src/Queue/Network/Tests.antt =====
-- A thread that sends 1, 2, 3 and so on to another.
use native.Mathlib.Decide.{ℕ_discrete}
use message_router.Base.{
  ℕ, ◌+◌, ◌≡◌, ◌⊎◌, inl, inr, refl, Bool, true, List, [], ◌∷◌, ◌++◌, Option, some, arith,
}
use message_router.Queue.Defs.{init}
use message_router.Queue.Threads.{
  System, started, push_call, push_room, push_item, push_flag, push_tail, pop_call, pop_empty,
}
use message_router.Queue.Network.{
  Call, calls_push, calls_pop, Program, SharedSteps, here, at_queue, AtomicSteps,
}
use message_router.Queue.Network.Atomic.{SharedSteps-AtomicSteps}

-- The next number, or what has come.
abbrev Place : Type 0
Place = ℕ ⊎ List ℕ

abbrev wants : ℕ → Place → Call ℕ ℕ
wants i (inl n) = calls_push 0 n
wants i (inr l) = calls_pop 0

abbrev pushed : ℕ → Place → Bool → Place
pushed i (inl n) true = inl (n + 1)
pushed i c b = c

abbrev popped : ℕ → Place → Option ℕ → Place
popped i (inr l) (some n) = inr (n ∷ l)
popped i c o = c

abbrev counting : Program ℕ
counting = record {
  T = ℕ;
  J = ℕ;
  C = Place;
  thread_discrete = ℕ_discrete;
  queue_discrete = ℕ_discrete;
  wants = wants;
  Moves = λ i c d. ⊥;
  pushed = pushed;
  popped = popped;
  pusher = λ j. 0;
  popper = λ j. 1;
}

abbrev begun : ℕ → Place
begun ℕ.zero = inl 1
begun (ℕ.suc i) = inr []

abbrev Reached : Type 0
Reached =
    (cs : ℕ → Place) × (qs : ℕ → System ℕ) × SharedSteps counting 2 begun (λ j. started 2 0) cs qs

-- The consumer looks at the queue while the first message is being written.
abbrev sent_one : Reached
unfolding init ℕ_discrete
sent_one = (
  _,
  _,
  at_queue 0 _
      (at_queue 0 _
        (at_queue 0 _
          (at_queue 0 _
            (at_queue 0 _
              (at_queue 0 _ (at_queue 0 _ here (push_call 1 refl) refl)
                (push_room 1 0 refl (λ e. absurd (omega arith))) tt)
              (pop_call refl) refl)
            (push_item 1 0 refl) tt)
          (pop_empty 0 refl refl) tt)
        (push_flag 1 0 refl) tt)
      (push_tail 1 0 refl) tt,
)

SharedSteps-AtomicSteps_example :
    (ls : ℕ → List ℕ) × AtomicSteps counting 2 3 begun (λ j. []) (sent_one.0) ls
    × ((j : ℕ) → (sent_one.1 j).sent ≡ (sent_one.1 j).received ++ ls j)
SharedSteps-AtomicSteps_example =
    SharedSteps-AtomicSteps counting 2 begun 0 (omega arith) (sent_one.2)
