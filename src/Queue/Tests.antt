-- ===== src/Queue/Tests.antt =====
-- The queue at a small size: 4 slots, so 3 messages.
use message_router.Base.{ℕ, ◌≡◌, ◌≢◌, refl, true, false, List, [], ◌∷◌, some, none, arith}
use message_router.Queue.Defs.{Spsc, init, try_push, try_pop, size}
use message_router.Queue.Layout.{Holds}
use message_router.Queue.Fifo
use message_router.Queue.Fifo.{Op, put, get, pushed, popped}
use message_router.Queue.Refine.{init-Holds, run, run_refines}
use message_router.Queue.Threads.{
  has_tail, has_head, has_room, saw_ready, System, Steps, started, next, push_call, push_room,
  pop_call, pop_items, pop_ready,
}
use message_router.Queue.Threads.Safety.{no_race}
use message_router.Queue.Threads.Atomic.{push_atomic}
use message_router.Queue.History.{calls, replies, accepted, handed_out}
use message_router.Queue.Threads.Linear.{history, history-run}
use message_router.Queue.RoundTrip.{run-drain}

abbrev fresh : Spsc ℕ
fresh = init 2 0

abbrev script : List (Op ℕ)
script = put 1 ∷ put 2 ∷ put 3 ∷ put 4 ∷ get ∷ put 5 ∷ get ∷ get ∷ get ∷ get ∷ []

script_replies :
    run 2 fresh script
    ≡ pushed true
      ∷ pushed true
      ∷ pushed true
      ∷ pushed false
      ∷ popped (some 1)
      ∷ pushed true
      ∷ popped (some 2)
      ∷ popped (some 3)
      ∷ popped (some 5)
      ∷ popped none
      ∷ []
unfolding run init try_push try_pop
script_replies = refl

-- The difference wraps where `tail` is behind `head`.
size_wrapped : size 2 (record fresh { head = 3; tail = 1 }) ≡ 2
unfolding size
size_wrapped = refl

fresh-Holds : Holds 2 0 fresh []
fresh-Holds = init-Holds 2 0 (omega arith)

run_refines_example : run 2 fresh script ≡ Fifo.run 3 [] script
run_refines_example = run_refines script fresh-Holds

-- After one `try_push` the producer is about to write again, and the consumer about to read.
abbrev one_sent : System ℕ
one_sent = record (started 2 0) { q = (try_push 2 fresh 7).1; sent = 7 ∷ [] }

one_sent-Steps : Steps 2 (started 2 0) one_sent
unfolding try_push init
one_sent-Steps = push_atomic 2 (started 2 0) 7 refl

-- The producer is about to write 8 to slot 1 while the consumer is about to read slot 0.
abbrev racing : System ℕ
racing = record one_sent { producer = has_room 8 1; consumer = saw_ready 0 }

racing-Steps : Steps 2 (started 2 0) racing
unfolding try_push init
racing-Steps =
    next
      (next
        (next
          (next (next one_sent-Steps (push_call 8 refl))
            (push_room 8 1 refl (λ e. absurd (omega arith))))
          (pop_call refl))
        (pop_items 0 refl (λ e. absurd (omega arith))))
      (pop_ready 0 refl refl)

no_race_example : ◌≢◌ {A = ℕ} 1 0
no_race_example = no_race 0 (omega arith) racing-Steps 8 1 0 refl refl

-- Both threads have loaded their own index.
abbrev loading : System ℕ
loading = record one_sent { producer = has_tail 8 1; consumer = has_head 0 }

loading-Steps : Steps 2 (started 2 0) loading
unfolding try_push init
loading-Steps = next (next one_sent-Steps (push_call 8 refl)) (pop_call refl)

history-run_example :
    (Fifo.run 3 [] (calls (history racing-Steps)) ≡ replies (history racing-Steps))
    × (accepted (history racing-Steps) ≡ 7 ∷ [])
    × (handed_out (history racing-Steps) ≡ [])
history-run_example = history-run 0 (omega arith) racing-Steps

run-drain_example :
    run 2 fresh (put 5 ∷ put 6 ∷ put 7 ∷ get ∷ get ∷ get ∷ get ∷ [])
    ≡ pushed true
      ∷ pushed true
      ∷ pushed true
      ∷ popped (some 5)
      ∷ popped (some 6)
      ∷ popped (some 7)
      ∷ popped none
      ∷ []
run-drain_example = run-drain (5 ∷ 6 ∷ 7 ∷ []) fresh-Holds (omega arith)
