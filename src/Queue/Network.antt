-- ===== src/Queue/Network.antt =====
-- Threads that call the two ends of many queues, with the accesses of all calls interleaved
-- (`Shared`), and the same threads with calls that take place at once (`Atomic`). Each queue has one
-- thread that pushes and one that pops, as a single-producer single-consumer queue wants.
pub mod Calls
pub mod Simulation
pub mod Atomic
mod Tests
use message_router.Base.{ℕ, ◌≡◌, Bool, true, false, List, [], ◌∷◌, Option, none, some}
use message_router.Queue.Fifo
use message_router.Queue.Threads.{
  System, Step, push_call, push_full, push_tail, pop_call, pop_empty, pop_unready, pop_head,
}

-- The call that a thread makes next; `silent` is a step without a call.
pub data Call (J A : Type 0) : Type 0 where
  silent : Call J A
  calls_push : J → A → Call J A
  calls_pop : J → Call J A

-- What the threads do: `T` and `J` name the threads and the queues, and `C` is where a thread stands.
pub record Program (A : Type 0) : Type 1 where
  pub T : Type 0
  pub J : Type 0
  pub C : Type 0
  pub thread_discrete : Discrete T
  pub queue_discrete : Discrete J
  pub wants : T → C → Call J A
  pub Moves : T → C → C → Type 0  -- a step without a call
  pub pushed : T → C → Bool → C  -- where it goes on when `try_push` returns
  pub popped : T → C → Option A → C
  pub pusher : J → T  -- the thread that pushes to a queue
  pub popper : J → T

abbrev pub update {ℓ κ} : {I : Type ℓ} {B : Type κ} → Discrete I → (I → B) → I → B → I → B
update d f i b j = elim (d i j) [ yes e ↦ b | no ne ↦ f j ]

module _ {A : Type 0} (P : Program A) (k : ℕ) where
  open P use {
    T, J, C, thread_discrete, queue_discrete, wants, Moves, pushed, popped, pusher, popper,
  }

  -- A thread goes on somewhere else; a queue is as a step leaves it.
  abbrev pub goes : (T → C) → T → C → T → C
  goes cs i c = update thread_discrete cs i c

  -- A thread enters a call only if it is the one that it wants to make.
  abbrev pub May : J → (T → C) → {s t : System A} → Step k s t → Type 0
  May j cs (push_call x at) = wants (pusher j) (cs (pusher j)) ≡ calls_push j x
  May j cs (pop_call at) = wants (popper j) (cs (popper j)) ≡ calls_pop j
  May j cs _ = Unit

  -- At the last step of a call the thread goes on with its result.
  abbrev pub resumed : J → (T → C) → {s t : System A} → Step k s t → T → C
  resumed j cs (push_full x t at full) =
      goes cs (pusher j) (pushed (pusher j) (cs (pusher j)) false)
  resumed j cs (push_tail x t at) = goes cs (pusher j) (pushed (pusher j) (cs (pusher j)) true)
  resumed j cs (pop_empty h at e) = goes cs (popper j) (popped (popper j) (cs (popper j)) none)
  resumed j cs (pop_unready h at r) = goes cs (popper j) (popped (popper j) (cs (popper j)) none)
  resumed j cs (pop_head h x at) = goes cs (popper j) (popped (popper j) (cs (popper j)) (some x))
  resumed j cs _ = cs

  pub data SharedSteps (cs₀ : T → C) (qs₀ : J → System A) : (T → C) → (J → System A) → Type 0 where
    here : SharedSteps cs₀ qs₀ cs₀ qs₀
    alone :
        {cs : T → C} {qs : J → System A} (i : T) (c : C)
        → SharedSteps cs₀ qs₀ cs qs
        → wants i (cs i) ≡ silent
        → Moves i (cs i) c
        → SharedSteps cs₀ qs₀ (goes cs i c) qs
    at_queue :
        {cs : T → C} {qs : J → System A} (j : J) (t : System A)
        → SharedSteps cs₀ qs₀ cs qs
        → (st : Step k (qs j) t) → May j cs st
        → SharedSteps cs₀ qs₀ (resumed j cs st) (update queue_discrete qs j t)

  pub data AtomicSteps (room : ℕ) (cs₀ : T → C) (ls₀ : J → List A)
      : (T → C) → (J → List A) → Type 0 where
    here : AtomicSteps room cs₀ ls₀ cs₀ ls₀
    alone :
        {cs : T → C} {ls : J → List A} (i : T) (c : C)
        → AtomicSteps room cs₀ ls₀ cs ls
        → wants i (cs i) ≡ silent
        → Moves i (cs i) c
        → AtomicSteps room cs₀ ls₀ (goes cs i c) ls
    pushes :
        {cs : T → C} {ls : J → List A} (j : J) (x : A)
        → AtomicSteps room cs₀ ls₀ cs ls
        → wants (pusher j) (cs (pusher j)) ≡ calls_push j x
        → AtomicSteps room cs₀ ls₀
            (goes cs (pusher j) (pushed (pusher j) (cs (pusher j)) (Fifo.push room (ls j) x).0))
            (update queue_discrete ls j (Fifo.push room (ls j) x).1)
    pops :
        {cs : T → C} {ls : J → List A} (j : J)
        → AtomicSteps room cs₀ ls₀ cs ls
        → wants (popper j) (cs (popper j)) ≡ calls_pop j
        → AtomicSteps room cs₀ ls₀
            (goes cs (popper j) (popped (popper j) (cs (popper j)) (Fifo.pop (ls j)).0))
            (update queue_discrete ls j (Fifo.pop (ls j)).1)
