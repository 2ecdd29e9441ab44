-- ===== src/Processor/Retry.antt =====
-- The retry loop of a processor that no other thread disturbs.
use message_router.Base.{
  ℕ, zero, suc, ◌+◌, ◌≤◌, ◌<◌, ◌≡◌, refl, sym, subst, ap, ◌∙◌, Bool, true, false, List, [], ◌∷◌,
  ◌++◌, arith, length, iterate, lt→ltb, le→ltb,
}
use message_router.Message.{Message}
use message_router.Queue.Client.{QueueApi, push_room, push_full}
use message_router.Processor.{
  Processor, popping, sending, max_retries, count_processed, State, tried, loop_step,
}

module _ (F : QueueApi Message) where
  open F use {Q, room, contents, push}

  tried_refused :
      (p : Processor) (m : Message) (retry : ℕ) (input : Q) (res : Bool × Q)
      → res.0 ≡ false
      → tried F p m retry input res ≡ (p, sending m (retry + 1), input, res.1)
  tried_refused p m retry input (true, output) e = cc
  tried_refused p m retry input (false, output) e = refl

  tried_accepted :
      (p : Processor) (m : Message) (retry : ℕ) (input : Q) (res : Bool × Q)
      → res.0 ≡ true
      → tried F p m retry input res ≡ (count_processed p, popping, input, res.1)
  tried_accepted p m retry input (true, output) e = refl
  tried_accepted p m retry input (false, output) e = cc

  -- The processor `p` stands at the test of the inner loop, and the output queue holds `xs`.
  abbrev pub Popping : Processor → Q → List Message → State F → Type 0
  Popping p input xs s = (output : Q) × (s ≡ (p, popping, input, output)) × (contents output ≡ xs)

  module _ (now : ℕ) (p : Processor) (m : Message) (input : Q) where
    give_up :
        (more retry : ℕ) (output : Q)
        → more + retry ≡ max_retries
        → room ≤ length (contents output)
        → Popping p input
            (contents output)
            (iterate (suc more) (loop_step F now) (p, sending m retry, input, output))
    unfolding loop_step
    give_up zero retry output eq le =
        rw (le→ltb retry max_retries (omega arith)) (output, refl, refl)
    give_up (suc more) retry output eq le =
        let (refused, same) = push_full F output m le in
        let (output', gone, held) =
          give_up more (retry + 1) (push output m).1 (omega arith)
            (subst (λ l. room ≤ length l) (sym same) le) in
        (
          output',
          rw (lt→ltb retry max_retries (omega arith)) (
              ap (iterate (suc more) (loop_step F now))
                (tried_refused p m retry input (push output m) refused)
              ∙ gone),
          held ∙ same,
        )

    -- A processor with a message in hand that no other thread disturbs either sends it in one step
    -- and counts it, if its output queue has room, or drops it after 1000 tries, which are 1001
    -- steps, and is as if there had been no message.
    pub send_or_drop :
        (output : Q)
        → ((length (contents output) < room)
            → Popping
                (count_processed p)
                input
                (contents output ++ (m ∷ []))
                (loop_step F now (p, sending m 0, input, output)))
          × ((room ≤ length (contents output))
              → Popping p input
                  (contents output)
                  (iterate (suc max_retries) (loop_step F now) (p, sending m 0, input, output)))
    unfolding loop_step
    send_or_drop output = (
      λ lt.
          let (accepted, held) = push_room F output m lt in
          ((push output m).1, tried_accepted p m 0 input (push output m) accepted, held),
      λ le. give_up max_retries 0 output refl le,
    )
