-- ===== src/Router/Targets.antt =====
-- Where the two routers send what they take, with a configuration that names existing targets only.
use message_router.Base.{
  ℕ, zero, suc, ◌+◌, ◌<◌, ◌≤◌, ◌≡◌, ◌⊎◌, inl, inr, refl, ap, ◌∙◌, true, List, [], ◌∷◌, ◌++◌, map,
  some, arith, length, ltb, lt→ltb, ltb→lt, Bool-cases, get_elem?, get_elem?_lt, set, iterate,
}
use message_router.Base.Int.{rounds}
use message_router.Config.{
  SystemConfig, validate, get_processor_for_message, get_strategy_for_message,
}
use message_router.Config.Lookup.{InRange, lookup-lt}
use message_router.Message.{Message, MessageType}
use message_router.Queue.Client.{QueueApi, pop_first}
use message_router.Router.{
  Router, scanning, sending, max_retries, count_routed, count_error, pop_at, State, loop_step,
  stage1_step, stage2_step,
}
use message_router.Router.Retry.{send_or_give_up}

module _ (F : QueueApi Message) where
  open F use {Q, room, contents}

  pop_at_first :
      (ins : List Q) (i : ℕ) (q : Q) (m : Message) (ms : List Message)
      → get_elem? ins i ≡ some q
      → contents q ≡ m ∷ ms
      → (ins' : List Q) × (pop_at F ins i ≡ some (some m, ins'))
        × (map contents ins' ≡ set (map contents ins) i ms)
  unfolding pop_at
  pop_at_first [] i q m ms at e = cc
  pop_at_first (q' ∷ ins) zero q m ms at e =
      let same : q' ≡ q = cc in
      let (first, rest) = pop_first F q' m ms (ap contents same ∙ e) in
      ((F.pop q').1 ∷ ins, rw first refl, ap (λ l. l ∷ map contents ins) rest)
  pop_at_first (q' ∷ ins) (suc i) q m ms at e =
      let (ins', took, left) = pop_at_first ins i q m ms at e in
      (q' ∷ ins', rw took refl, ap (λ l. contents q' ∷ l) left)

  -- After `n` steps from the input queue `i` the router is there again as `r'`, and the queues hold
  -- these messages.
  abbrev pub BackAt :
      (State F → State F)
      → ℕ
      → ℕ
      → Router × List Q × List Q
      → Router × List (List Message) × List (List Message)
      → Type 0
  BackAt step n i (r, ins, outs) (r', held_in, held_out) =
      (ins' : List Q) × (outs' : List Q) × (iterate n step (r, scanning i, ins, outs)
        ≡ (r', scanning i, ins', outs'))
      × (map contents ins' ≡ held_in)
      × (map contents outs' ≡ held_out)

  -- The message `m`, which the input queue `i` has before `ms`, goes to the end of the output queue
  -- `p` in two steps if there is room; otherwise it is lost after all tries, with an error counted.
  abbrev pub Forwards :
      (State F → State F) → ℕ → Router → ℕ → Message → List Message → List Q → List Q → Type 0
  Forwards step p r i m ms ins outs =
      (out : Q) × (get_elem? outs p ≡ some out)
      × (((length (contents out) < room)
            × BackAt step 2 i (r, ins, outs)
                (
                  count_routed r,
                  set (map contents ins) i ms,
                  set (map contents outs) p (contents out ++ (m ∷ [])),
                ))
          ⊎ ((room ≤ length (contents out))
              × BackAt step (2 + max_retries) i (r, ins, outs)
                  (count_error r, set (map contents ins) i ms, map contents outs)))

  loop_step-Forwards :
      (choose : MessageType → ℕ) (r : Router) (i : ℕ) (m : Message) (ms : List Message) (q : Q)
      (ins outs : List Q)
      → choose m.msg_type < length outs
      → get_elem? ins i ≡ some q
      → contents q ≡ m ∷ ms
      → Forwards (loop_step F choose) (choose m.msg_type) r i m ms ins outs
  unfolding loop_step
  loop_step-Forwards choose r i m ms q ins outs lt at e =
      let p = choose m.msg_type in
      let (ins', took, left) = pop_at_first ins i q m ms at e in
      let (out, there) = get_elem?_lt outs p lt in
      let (sends, gives_up) = send_or_give_up F choose r i p m ins' outs out there in
      let took_it : loop_step F choose (r, scanning i, ins, outs)
          ≡ (r, sending i m p 0, ins', outs) =
        rw (took, lt→ltb _ _ lt) refl in
      (
        out,
        there,
        elim (Bool-cases (ltb (length (contents out)) room)) [
          | inl f ↦
              let (outs', sent, held) = sends (ltb→lt _ _ f) in
              inl (ltb→lt _ _ f, (ins', outs', ap (loop_step F choose) took_it ∙ sent, left, held))
          | inr f ↦
              let full : room ≤ length (contents out) = ground (arith, f) in
              let (outs', gone, held) = gives_up full in
              inr (
                full,
                (
                  ins',
                  outs',
                  ap (iterate (suc max_retries) (loop_step F choose)) took_it ∙ gone,
                  left,
                  held,
                ),
              )
        ],
      )

  -- With a valid configuration of which the rules name existing processors and strategies only, and
  -- one output queue for each processor (for each strategy): a router that no other thread disturbs
  -- and that has come to an input queue with messages takes the first of them away. The first
  -- router (the second) puts it behind what the queue of the processor (the strategy) holds that
  -- the rules give, if that queue has room, in two steps, and counts it as routed; otherwise it
  -- gives the message up after 1000 tries, which are 1002 steps with the taking and the giving up,
  -- and counts an error. In both cases it is at the same input queue again, and no other queue
  -- changes.
  pub takes_to_target :
      {Double : Type 0} (c : SystemConfig Double) (r : Router) (i : ℕ) (m : Message)
      (ms : List Message) (q : Q) (ins outs1 outs2 : List Q)
      → validate c ≡ true
      → InRange c
      → length outs1 ≡ rounds c.processors.count
      → length outs2 ≡ rounds c.strategies.count
      → get_elem? ins i ≡ some q
      → contents q ≡ m ∷ ms
      → Forwards (stage1_step F c) (get_processor_for_message c m.msg_type) r i m ms ins outs1
        × Forwards (stage2_step F c) (get_strategy_for_message c m.msg_type) r i m ms ins outs2
  unfolding stage1_step stage2_step
  takes_to_target c r i m ms q ins outs1 outs2 v range e1 e2 at e =
      let (lt1, lt2) = lookup-lt c m.msg_type v range in
      (
        loop_step-Forwards (get_processor_for_message c) r i m ms q ins outs1
            (omega (arith, e1, lt1)) at e,
        loop_step-Forwards (get_strategy_for_message c) r i m ms q ins outs2
            (omega (arith, e2, lt2)) at e,
      )
