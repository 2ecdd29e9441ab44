-- ===== src/Queue/Network/Atomic.antt =====
-- Every state that the threads reach with interleaved accesses is one that they reach with calls
-- that take place at once.
use message_router.Base.{
  ℕ, ◌<◌, ◌≡◌, ◌≢◌, refl, sym, ap, subst, ◌∙◌, true, false, List, [], ◌∷◌, ◌++◌, none, some, arith,
  length, append_cancel_left, append_assoc,
}
use message_router.Queue.Defs.{capacity, next_index}
use message_router.Queue.Layout.{full_iff, empty_iff, head_ready}
use message_router.Queue.Fifo
use message_router.Queue.Threads.{
  PushPc, PopPc, System, Step, push_call, push_item, push_flag, push_tail, pop_call, pop_items,
  pop_unready, pop_ready, pop_copy, pop_clear, pop_head, started,
}
use message_router.Queue.Threads.Invariant.{Inv, Producing-at, Consuming-at, Holds-at}
use message_router.Queue.Threads.Keeping.{Step-Inv, started-Inv}
use message_router.Queue.Network.{
  Call, silent, calls_push, calls_pop, Program, update, goes, May, resumed, SharedSteps,
  AtomicSteps,
}
use message_router.Queue.Network.Calls.{Pushing, Popping, kept-Pushing, kept-Popping}
use message_router.Queue.Network.Simulation.{nothing, Simulated, within, push_returns, pop_returns}

module _ {A : Type 0} (P : Program A) (k : ℕ) (cs₀ : P.T → P.C) where
  open P use {
    T, J, C, thread_discrete, queue_discrete, wants, Moves, pushed, popped, pusher, popper,
  }

  pop_nil : (xs : List A) → length xs ≡ 0 → Fifo.pop xs ≡ (none, xs)
  unfolding Fifo.pop
  pop_nil [] e = refl
  pop_nil (x ∷ xs) e = absurd (omega arith)

  pop_cons : (xs rest : List A) (x : A) → xs ≡ x ∷ rest → Fifo.pop xs ≡ (some x, rest)
  unfolding Fifo.pop
  pop_cons xs rest x e = rw e refl

  module _ (cs : T → C) (qs : J → System A) (v : Simulated P k cs₀ cs qs) (j : J) where
    -- The list is what the queue holds.
    held_lem : v.lists j ≡ (v.inv j).held
    held_lem = append_cancel_left (qs j).received (sym (v.split j) ∙ (v.inv j).split)

    in_push : {pc : PushPc A} → (qs j).producer ≡ pc → Pushing P k j cs pc
    in_push at = subst (Pushing P k j cs) at (v.pushing j)

    in_pop : {pc : PopPc A} → (qs j).consumer ≡ pc → Popping P k j cs pc
    in_pop at = subst (Popping P k j cs) at (v.popping j)

    step_lem :
        (t : System A) (st : Step k (qs j) t)
        → May P k j cs st
        → Inv k t
        → Simulated P k cs₀ (resumed P k j cs st) (update queue_discrete qs j t)
    step_lem t (push_call x at) may i = within P k cs₀ cs qs v j t i (v.split j) may (v.popping j)
    step_lem t (Step.push_full x tail at full) may i =
        let f = (Producing-at (v.inv j) at).0 in
        let e = (full_iff (v.inv j).holds).0 (ap (next_index k) (sym f) ∙ full) in
        push_returns P k cs₀ cs qs v j t i x false (v.lists j) (in_push at)
          (Fifo.push_full (capacity k) (v.lists j) x (omega (arith, ap length held_lem)))
          (v.split j) refl refl
    step_lem t (Step.push_room x tail at room) may i =
        within P k cs₀ cs qs v j t i (v.split j) (in_push at) (v.popping j)
    step_lem t (push_item x tail at) may i =
        within P k cs₀ cs qs v j t i (v.split j) (in_push at) (v.popping j)
    step_lem t (push_flag x tail at) may i =
        within P k cs₀ cs qs v j t i (v.split j) (in_push at) (v.popping j)
    step_lem t (push_tail x tail at) may i =
        let f = Producing-at (v.inv j) at in
        push_returns P k cs₀ cs qs v j t i x true (v.lists j ++ (x ∷ [])) (in_push at)
          (Fifo.push_room (capacity k) (v.lists j) x (omega (arith, f.1, ap length held_lem)))
          (ap (λ l. l ++ (x ∷ [])) (v.split j) ∙ append_assoc (qs j).received (v.lists j) (x ∷ []))
          refl refl
    step_lem t (pop_call at) may i = within P k cs₀ cs qs v j t i (v.split j) (v.pushing j) may
    step_lem t (Step.pop_empty h at e) may i =
        let g = (Consuming-at (v.inv j) at).0 in
        pop_returns P k cs₀ cs qs v j t i none (v.lists j) (in_pop at)
          (pop_nil (v.lists j) (ap length held_lem ∙ (empty_iff (v.inv j).holds).0 (sym g ∙ e)))
          (v.split j) refl refl
    step_lem t (pop_items h at ne) may i =
        within P k cs₀ cs qs v j t i (v.split j) (v.pushing j) (in_pop at)
    step_lem t (pop_unready h at r) may i =
        let g = Consuming-at (v.inv j) at in
        let ready = head_ready (Holds-at (v.inv j) at) g.1 in absurd (cc (ready, g.0))
    step_lem t (pop_ready h at r) may i =
        within P k cs₀ cs qs v j t i (v.split j) (v.pushing j) (in_pop at)
    step_lem t (pop_copy h x at item) may i =
        within P k cs₀ cs qs v j t i (v.split j) (v.pushing j) (in_pop at)
    step_lem t (pop_clear h x at) may i =
        within P k cs₀ cs qs v j t i (v.split j) (v.pushing j) (in_pop at)
    step_lem t (pop_head h x at) may i =
        let g = Consuming-at (v.inv j) at in
        pop_returns P k cs₀ cs qs v j t i (some x) g.1 (in_pop at)
          (pop_cons (v.lists j) g.1 x (held_lem ∙ g.2))
          (v.split j
            ∙ ap (λ l. (qs j).received ++ l) (held_lem ∙ g.2)
            ∙ sym (append_assoc (qs j).received (x ∷ []) g.1))
          refl refl

  alone_lem :
      (cs : T → C) (qs : J → System A) (i : T) (c : C)
      → Simulated P k cs₀ cs qs
      → wants i (cs i) ≡ silent
      → Moves i (cs i) c
      → Simulated P k cs₀ (goes P k cs i c) qs
  alone_lem cs qs i c v w m = record {
    lists = v.lists;
    reached = AtomicSteps.alone i c v.reached w m;
    inv = v.inv;
    split = v.split;
    pushing = λ j.
        kept-Pushing P k cs i j c (qs j).producer (λ x e. no_push j x (sym w ∙ e)) (v.pushing j);
    popping =
        λ j. kept-Popping P k cs i j c (qs j).consumer (λ e. no_pop j (sym w ∙ e)) (v.popping j);
  }
    where
      no_push : (j : J) (x : A) → silent ≢ calls_push j x
      no_push j x e = cc

      no_pop : (j : J) → ◌≢◌ {A = Call J A} silent (calls_pop j)
      no_pop j e = cc

  module _ (blank : A) (small : k < 64) where
    SharedSteps-Simulated :
        {cs : T → C} {qs : J → System A}
        → SharedSteps P k cs₀ (λ j. started k blank) cs qs
        → Simulated P k cs₀ cs qs
    SharedSteps-Simulated SharedSteps.here = record {
      lists = nothing P k cs₀;
      reached = AtomicSteps.here;
      inv = λ j. started-Inv blank small;
      split = λ j. refl;
      pushing = λ j. tt;
      popping = λ j. tt;
    }
    SharedSteps-Simulated (SharedSteps.alone {cs} {qs} i c run w m) =
        alone_lem cs qs i c (SharedSteps-Simulated run) w m
    SharedSteps-Simulated (SharedSteps.at_queue {cs} {qs} j t run st may) =
        let v = SharedSteps-Simulated run in step_lem cs qs v j t st may (Step-Inv st (v.inv j))

    -- Any number of threads, any number of queues that begin empty with at most 2 ^ 63 slots, each
    -- with one thread that pushes and one that pops: wherever the threads get when the accesses of
    -- all their calls interleave in any way, they also get when each call takes place at once and
    -- does what a FIFO of `capacity()` items does. The lists in the queues are then what was sent
    -- and is not received.
    pub SharedSteps-AtomicSteps :
        {cs : T → C} {qs : J → System A}
        → SharedSteps P k cs₀ (λ j. started k blank) cs qs
        → (ls : J → List A) × AtomicSteps P k (capacity k) cs₀ (λ j. []) cs ls
          × ((j : J) → (qs j).sent ≡ (qs j).received ++ ls j)
    SharedSteps-AtomicSteps run = let v = SharedSteps-Simulated run in (v.lists, v.reached, v.split)
