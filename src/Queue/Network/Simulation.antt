-- ===== src/Queue/Network/Simulation.antt =====
-- What the interleaved calls have to do with calls that take place at once, and what the steps of a
-- call and its return do to it.
use message_router.Base.{ℕ, ◌≡◌, sym, subst, Bool, List, [], ◌++◌, Option}
use message_router.Queue.Defs.{capacity}
use message_router.Queue.Fifo
use message_router.Queue.Threads.{PushPc, PopPc, System}
use message_router.Queue.Threads.Invariant.{Inv}
use message_router.Queue.Network.{calls_push, calls_pop, Program, update, goes, AtomicSteps}
use message_router.Queue.Network.Calls.{
  update_all, Pushing, Popping, kept-Pushing, kept-Popping, push_apart, pop_apart, push_pop_apart,
  pop_push_apart,
}

module _ {A : Type 0} (P : Program A) (k : ℕ) (cs₀ : P.T → P.C) where
  open P use {
    T, J, C, thread_discrete, queue_discrete, wants, Moves, pushed, popped, pusher, popper,
  }

  -- All queues begin empty.
  abbrev pub nothing : J → List A
  nothing j = []

  pub record Simulated (cs : T → C) (qs : J → System A) : Type 0 where
    pub lists : J → List A
    pub reached : AtomicSteps P k (capacity k) cs₀ nothing cs lists
    pub inv : (j : J) → Inv k (qs j)
    pub split : (j : J) → (qs j).sent ≡ (qs j).received ++ lists j
    pub pushing : (j : J) → Pushing P k j cs (qs j).producer
    pub popping : (j : J) → Popping P k j cs (qs j).consumer

  module _ (cs : T → C) (qs : J → System A) (v : Simulated cs qs) (j : J) (t : System A)
      (i : Inv k t) where
    -- A step within a call.
    pub within :
        t.sent ≡ t.received ++ v.lists j
        → Pushing P k j cs t.producer
        → Popping P k j cs t.consumer
        → Simulated cs (update queue_discrete qs j t)
    within e f g = record {
      lists = v.lists;
      reached = v.reached;
      inv = update_all queue_discrete (λ h (s : System A). Inv k s) qs j t i (λ h ne. v.inv h);
      split =
          update_all queue_discrete (λ h (s : System A). s.sent ≡ s.received ++ v.lists h) qs j t e
            (λ h ne. v.split h);
      pushing =
          update_all queue_discrete (λ h (s : System A). Pushing P k h cs s.producer) qs j t f
            (λ h ne. v.pushing h);
      popping =
          update_all queue_discrete (λ h (s : System A). Popping P k h cs s.consumer) qs j t g
            (λ h ne. v.popping h);
    }

    same_lists :
        (ys : List A)
        → t.sent ≡ t.received ++ ys
        → (h : J)
        → (update queue_discrete qs j t h).sent
          ≡ (update queue_discrete qs j t h).received ++ update queue_discrete v.lists j ys h
    same_lists ys e h =
        elim (queue_discrete j h)
          as (λ d.
            let s : System A = elim d as (λ _. System A) [ yes e ↦ t | no ne ↦ qs h ] in
            s.sent ≡ s.received ++ elim d as (λ _. List A) [ yes e ↦ ys | no ne ↦ v.lists h ]) [
              | yes same ↦ e
              | no ne ↦ v.split h
            ]

    -- The last step of a call of `try_push`.
    pub push_returns :
        (x : A) (b : Bool) (ys : List A)
        → wants (pusher j) (cs (pusher j)) ≡ calls_push j x
        → Fifo.push (capacity k) (v.lists j) x ≡ (b, ys)
        → t.sent ≡ t.received ++ ys
        → t.producer ≡ PushPc.outside
        → t.consumer ≡ (qs j).consumer
        → Simulated
            (goes P k cs (pusher j) (pushed (pusher j) (cs (pusher j)) b))
            (update queue_discrete qs j t)
    push_returns x b ys w e f out same = record {
      lists = update queue_discrete v.lists j ys;
      reached =
          subst
            (λ (r : Bool × List A).
              AtomicSteps P k (capacity k) cs₀ nothing
                (goes P k cs (pusher j) (pushed (pusher j) (cs (pusher j)) r.0))
                (update queue_discrete v.lists j r.1))
            e (AtomicSteps.pushes j x v.reached w);
      inv = update_all queue_discrete (λ h (s : System A). Inv k s) qs j t i (λ h ne. v.inv h);
      split = same_lists ys f;
      pushing =
          update_all queue_discrete (λ h (s : System A). Pushing P k h cs' s.producer) qs j t
            (subst (Pushing P k j cs') (sym out) tt)
            (λ h ne.
              kept-Pushing P k cs (pusher j) h _ (qs h).producer
                (λ y. push_apart P k (pusher j) (cs (pusher j)) j h x y w ne) (v.pushing h));
      popping =
          update_all queue_discrete (λ h (s : System A). Popping P k h cs' s.consumer) qs j t
            (subst (Popping P k j cs') (sym same) (popping' j)) (λ h ne. popping' h);
    }
      where
        cs' : T → C
        cs' = goes P k cs (pusher j) (pushed (pusher j) (cs (pusher j)) b)

        popping' : (h : J) → Popping P k h cs' (qs h).consumer
        popping' h =
            kept-Popping P k cs (pusher j) h _ (qs h).consumer
              (push_pop_apart P k (pusher j) (cs (pusher j)) j h x w) (v.popping h)

    -- The last step of a call of `try_pop`.
    pub pop_returns :
        (o : Option A) (ys : List A)
        → wants (popper j) (cs (popper j)) ≡ calls_pop j
        → Fifo.pop (v.lists j) ≡ (o, ys)
        → t.sent ≡ t.received ++ ys
        → t.consumer ≡ PopPc.outside
        → t.producer ≡ (qs j).producer
        → Simulated
            (goes P k cs (popper j) (popped (popper j) (cs (popper j)) o))
            (update queue_discrete qs j t)
    pop_returns o ys w e f out same = record {
      lists = update queue_discrete v.lists j ys;
      reached =
          subst
            (λ (r : Option A × List A).
              AtomicSteps P k (capacity k) cs₀ nothing
                (goes P k cs (popper j) (popped (popper j) (cs (popper j)) r.0))
                (update queue_discrete v.lists j r.1))
            e (AtomicSteps.pops j v.reached w);
      inv = update_all queue_discrete (λ h (s : System A). Inv k s) qs j t i (λ h ne. v.inv h);
      split = same_lists ys f;
      pushing =
          update_all queue_discrete (λ h (s : System A). Pushing P k h cs' s.producer) qs j t
            (subst (Pushing P k j cs') (sym same) (pushing' j)) (λ h ne. pushing' h);
      popping =
          update_all queue_discrete (λ h (s : System A). Popping P k h cs' s.consumer) qs j t
            (subst (Popping P k j cs') (sym out) tt)
            (λ h ne.
              kept-Popping P k cs (popper j) h _ (qs h).consumer
                (pop_apart P k (popper j) (cs (popper j)) j h w ne) (v.popping h));
    }
      where
        cs' : T → C
        cs' = goes P k cs (popper j) (popped (popper j) (cs (popper j)) o)

        pushing' : (h : J) → Pushing P k h cs' (qs h).producer
        pushing' h =
            kept-Pushing P k cs (popper j) h _ (qs h).producer
              (λ y. pop_push_apart P k (popper j) (cs (popper j)) j h y w) (v.pushing h)
