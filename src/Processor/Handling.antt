-- ===== src/Processor/Handling.antt =====
-- What a processor does with the messages that it takes, while the other threads push to and pop
-- from its queues between its steps.
use message_router.Base.{
  ℕ, ◌≤◌, ◌<◌, ◌≡◌, ◌^◌, u64, refl, Bool, true, false, List, [], ◌∷◌, Option, none, some, inl, inr,
  arith, Bool-cases, ltb, ltb→lt, if◌then◌else◌,
}
use message_router.Base.Relay.{Settled, nothing, passed-Settled, failed-Settled}
use message_router.Lifecycle.{Life}
use message_router.Message.{Message, ProcessorId}
use message_router.Queue.Client.{QueueApi}
use message_router.Processor.{
  Processor, Pc, checking, popping, sending, ended, new_processor, simulate_processing, max_retries,
  State, popped, tried, loop_step,
}

module _ (F : QueueApi Message) (id : ProcessorId) where
  open F use {Q, push, pop}

  abbrev pub with_popped : Option Message × Q → List Message → List Message
  with_popped (none, input) ms = ms
  with_popped (some m, input) ms = m ∷ ms

  -- The message that the next step takes, and the one that it sends.
  abbrev pub takes : State F → List Message → List Message
  takes (p, popping, input, output) ms = with_popped (pop input) ms
  takes (p, _, input, output) ms = ms

  abbrev pub sends : State F → List Message → List Message
  sends (p, sending m retry, input, output) ms =
      if ltb retry max_retries then (if (push output m).0 then m ∷ ms else ms) else ms
  sends (p, _, input, output) ms = ms

  -- The processor's steps with what the other threads do in between: anything to the queues, and
  -- to `running_` and the thread.
  pub data Run : List Message → List Message → State F → Type 0 where
    begin : (input output : Q) → Run [] [] (new_processor id, checking, input, output)
    own :
        {taken sent : List Message} {s : State F}
        → (now : ℕ) → Run taken sent s
        → Run (takes s taken) (sends s sent) (loop_step F now s)
    others :
        {taken sent : List Message} {p : Processor} {pc : Pc} {input output : Q}
        → Run taken sent (p, pc, input, output)
        → (life : Life) (input' output' : Q)
        → Run taken sent (record p { life = life }, pc, input', output')

  -- The message that goes out is the one that came in, with the processor's number and a time
  -- of 64 bits.
  abbrev pub Filled : Message → Message → Type 0
  Filled m m' =
      (now : ℕ) × (now < 2 ^ 64) × (m' ≡ record m { processor_id = id; processing_timestamp = now })

  -- The message in hand is the last one taken, filled, and not yet sent or lost.
  abbrev pub Accounts : List Message → List Message → ℕ → Pc → Type 0
  Accounts taken sent n (sending m' retry) =
      (before : List Message) × (m : Message) × (taken ≡ m ∷ before)
      × Filled m m'
      × (retry ≤ max_retries)
      × Settled Filled before sent n
  Accounts taken sent n _ = Settled Filled taken sent n

  abbrev pub Accounted : List Message → List Message → State F → Type 0
  Accounted taken sent (p, pc, input, output) =
      (p.processor_id ≡ id) × Accounts taken sent p.messages_processed pc

  popped-Accounted :
      (taken sent : List Message) (now : ℕ) (p : Processor) (output : Q) (res : Option Message × Q)
      → p.processor_id ≡ id
      → Settled Filled taken sent p.messages_processed
      → Accounted (with_popped res taken) sent (popped F now p output res)
  unfolding simulate_processing
  popped-Accounted taken sent now p output (none, input) e s = (e, s)
  popped-Accounted taken sent now p output (some m, input) e s =
      (e, (taken, m, refl, (u64 now, omega arith, rw e refl), omega arith, s))

  tried-Accounted :
      (before sent : List Message) (p : Processor) (m m' : Message) (retry : ℕ) (input : Q)
      (res : Bool × Q)
      → p.processor_id ≡ id
      → Filled m m'
      → retry < max_retries
      → Settled Filled before sent p.messages_processed
      → Accounted (m ∷ before) (if res.0 then m' ∷ sent else sent) (tried F p m' retry input res)
  tried-Accounted before sent p m m' retry input (true, output) e f lt s =
      (e, passed-Settled Filled before sent _ m m' f s)
  tried-Accounted before sent p m m' retry input (false, output) e f lt s =
      (e, (before, m, refl, f, omega arith, s))

  own-Accounted :
      (taken sent : List Message) (now : ℕ) (s : State F)
      → Accounted taken sent s
      → Accounted (takes s taken) (sends s sent) (loop_step F now s)
  unfolding loop_step
  own-Accounted taken sent now (p, checking, input, output) a = elim (Bool-cases p.life.running) [
    | inl e ↦ rw e a
    | inr e ↦ rw e a
  ]
  own-Accounted taken sent now (p, popping, input, output) (e, a) =
      popped-Accounted taken sent now p output (pop input) e a
  own-Accounted taken sent now (p, ended, input, output) a = a
  own-Accounted taken sent now (p, sending m' retry, input, output) (i, (before, m, e, f, le, a)) =
      rw e (elim (Bool-cases (ltb retry max_retries)) [
        | inl lt ↦
            rw lt (
              tried-Accounted before sent p m m' retry input (push output m') i f (ltb→lt _ _ lt) a)
        | inr ge ↦ rw ge (i, failed-Settled Filled before sent _ m a)
      ])

  -- Whatever the other threads do, each message that a processor takes is sent once, in the order
  -- of taking and unchanged but for the processor's number and a processing time of 64 bits, or it is lost
  -- without a trace in any counter, except for one that the processor may still hold, with at most
  -- 1000 tries; `messages_processed` counts those sent, modulo 2 ^ 64.
  pub each_processed :
      (taken sent : List Message) (s : State F) → Run taken sent s → Accounted taken sent s
  unfolding new_processor
  each_processed taken sent s (begin input output) =
      (refl, record { lost = 0; relayed = nothing; count = refl })
  each_processed taken sent s (own {taken = t} {sent = u} {s = s'} now run) =
      own-Accounted t u now s' (each_processed t u s' run)
  each_processed taken sent s (others {p = p} {pc = pc} {input = i} {output = o} run life i' o') =
      each_processed taken sent (p, pc, i, o) run
