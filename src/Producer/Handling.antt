-- ===== src/Producer/Handling.antt =====
-- The messages of a producer, while another thread pops from its queue between its steps.
use message_router.Base.{
  ℕ, ◌+◌, ◌*◌, ◌≤◌, ◌<◌, ◌≡◌, refl, sym, subst, Bool, true, false, List, [], ◌∷◌, inl, inr, arith,
  u64, add64, Bool-cases, ltb, ltb→lt, if◌then◌else◌, length,
}
use message_router.Base.Relay.{Settled, nothing, passed-Settled, failed-Settled}
use message_router.Lifecycle.{Life}
use message_router.Message.{Message, MessageType, ProducerId, new_message}
use message_router.Queue.Client.{QueueApi}
use message_router.Producer.{
  Producer, Pc, checking, reading, sending, ended, new_producer, make, max_retries, State, tried,
  loop_step,
}

-- The messages made, newest first: each is of the producer and of one of the four types, and the
-- numbers are 1, 2, 3 and so on, modulo 2 ^ 64.
pub data Numbered (id : ProducerId) : List Message → Type 0 where
  none_made : Numbered id []
  one_more :
      {ms : List Message} (t now : ℕ)
      → t < 4
      → Numbered id ms
      → Numbered id (new_message t id (u64 (length ms + 1)) (u64 now) ∷ ms)

module _ (F : QueueApi Message) (id : ProducerId) (interval : ℕ) where
  open F use {Q, push}

  -- The message that the next step makes, and the one that it sends.
  abbrev pub makes : ℕ → MessageType → State F → List Message → List Message
  makes now t (p, reading, next, q) ms = if ltb now next then ms else make p t now ∷ ms
  makes now t (p, _, next, q) ms = ms

  abbrev pub sends : State F → List Message → List Message
  sends (p, sending m made retry, next, q) ms =
      if ltb retry max_retries then (if (push q m).0 then m ∷ ms else ms) else ms
  sends (p, _, next, q) ms = ms

  -- The producer's steps from the time `begun` on, with what the other threads do in between:
  -- anything to the queue, and to `running_` and the thread. A type that is drawn is one of 0 to 3.
  pub data Run (begun : ℕ) : List Message → List Message → State F → Type 0 where
    begin : (q : Q) → Run begun [] [] (new_producer id, checking, begun, q)
    own :
        {made sent : List Message} {s : State F}
        → (now : ℕ) (t : MessageType) → t < 4
        → Run begun made sent s
        → Run begun (makes now t s made) (sends s sent) (loop_step F interval now t s)
    others :
        {made sent : List Message} {p : Producer} {pc : Pc} {next : ℕ} {q : Q}
        → Run begun made sent (p, pc, next, q)
        → (life : Life) (q' : Q) → Run begun made sent (record p { life = life }, pc, next, q')

  -- Every message takes up an interval; the time of the next one.
  abbrev pub Paced : ℕ → List Message → ℕ → Type 0
  Paced begun made next = begun + length made * interval ≤ next

  -- The message in hand is the last one made, and not yet sent or lost.
  abbrev pub Accounts : ℕ → List Message → List Message → ℕ → Pc → ℕ → Type 0
  Accounts begun made sent n (sending m now retry) next =
      (before : List Message) × (made ≡ m ∷ before)
      × (retry ≤ max_retries)
      × Settled (λ a b. a ≡ b) before sent n
      × Paced begun before now
  Accounts begun made sent n _ next = Settled (λ a b. a ≡ b) made sent n × Paced begun made next

  pub record Accounted (begun : ℕ) (made sent : List Message) (s : State F) : Type 0 where
    pub same_id : s.0.producer_id ≡ id
    pub next_number : s.0.next_sequence ≡ u64 (length made + 1)
    pub numbered : Numbered id made
    pub accounts : Accounts begun made sent s.0.messages_produced s.1 s.2

  made-Accounted :
      (begun : ℕ) (made sent : List Message) (now : ℕ) (t : MessageType) (p : Producer) (next : ℕ)
      (q : Q)
      → t < 4
      → next ≤ now
      → Accounted begun made sent (p, reading, next, q)
      → Accounted begun (make p t now ∷ made) sent (
        record p { next_sequence = add64 p.next_sequence 1 },
        sending (make p t now) now 0,
        next,
        q,
      )
  made-Accounted begun made sent now t p next q lt le a = record {
    same_id = a.same_id;
    next_number = omega (arith, a.next_number);
    numbered = rw (a.same_id, a.next_number) (one_more t now lt a.numbered);
    accounts = (made, refl, omega arith, a.accounts.0, omega (arith, a.accounts.1));
  }

  one_more-Paced :
      (begun now : ℕ) (m : Message) (before : List Message)
      → Paced begun before now
      → Paced begun (m ∷ before) (now + interval)
  one_more-Paced begun now m before le = omega (arith, le)

  same_made :
      {begun : ℕ} {made sent : List Message} {p : Producer} {pc : Pc} {next : ℕ} {q : Q}
      (sent' : List Message) (n : ℕ) (pc' : Pc) (next' : ℕ) (q' : Q)
      → Accounted begun made sent (p, pc, next, q)
      → Accounts begun made sent' n pc' next'
      → Accounted begun made sent' (record p { messages_produced = n }, pc', next', q')
  same_made sent' n pc' next' q' a acc = record {
    same_id = a.same_id;
    next_number = a.next_number;
    numbered = a.numbered;
    accounts = acc;
  }

  tried-Accounts :
      (begun : ℕ) (before sent : List Message) (m : Message) (now retry next : ℕ) (p : Producer)
      (q : Q) (res : Bool × Q)
      → retry < max_retries
      → Accounted begun (m ∷ before) sent (p, sending m now retry, next, q)
      → Settled (λ a b. a ≡ b) before sent p.messages_produced
      → Paced begun before now
      → Accounted begun
          (m ∷ before)
          (if res.0 then m ∷ sent else sent)
          (tried F interval p m now retry next res)
  tried-Accounts begun before sent m now retry next p q (true, q') lt a s le =
      same_made _ _ checking _ q' a
        (passed-Settled _ before sent _ m m refl s, one_more-Paced begun now m before le)
  tried-Accounts begun before sent m now retry next p q (false, q') lt a s le =
      same_made _ _ (sending m now (retry + 1)) next q' a (before, refl, omega arith, s, le)

  send-Accounted :
      (begun : ℕ) (made before sent : List Message) (m : Message) (now retry next : ℕ)
      (p : Producer) (q : Q)
      → made ≡ m ∷ before
      → Accounted begun made sent (p, sending m now retry, next, q)
      → Settled (λ a b. a ≡ b) before sent p.messages_produced
      → Paced begun before now
      → Accounted begun made (sends (p, sending m now retry, next, q) sent) (
          if ltb retry max_retries
          then tried F interval p m now retry next (push q m)
          else (p, checking, now + interval, q))
  send-Accounted begun made before sent m now retry next p q e a s le =
      subst
        (λ l.
          Accounted begun l sent (p, sending m now retry, next, q)
          → Accounted begun l (sends (p, sending m now retry, next, q) sent) (
              if ltb retry max_retries
              then tried F interval p m now retry next (push q m)
              else (p, checking, now + interval, q)))
        (sym e)
        (λ b. elim (Bool-cases (ltb retry max_retries)) [
          | inl lt ↦ rw lt (
              tried-Accounts begun before sent m now retry next p q (push q m) (ltb→lt _ _ lt) b s
                le)
          | inr ge ↦ rw ge (
              same_made sent _ checking _ q b
                (failed-Settled _ before sent _ m s, one_more-Paced begun now m before le))
        ])
        a

  own-Accounted :
      (begun : ℕ) (made sent : List Message) (now : ℕ) (t : MessageType) (s : State F)
      → t < 4
      → Accounted begun made sent s
      → Accounted begun (makes now t s made) (sends s sent) (loop_step F interval now t s)
  unfolding loop_step
  own-Accounted begun made sent now t (p, checking, next, q) lt a =
      elim p.life.running
        as (λ b.
          Accounted begun made sent (if b then (p, reading, next, q) else (p, ended, next, q))) [
            | true ↦ same_made sent _ reading next q a a.accounts
            | false ↦ same_made sent _ ended next q a a.accounts
          ]
  own-Accounted begun made sent now t (p, reading, next, q) lt a =
      elim (Bool-cases (ltb now next)) [
        | inl e ↦ rw e (same_made sent _ checking next q a a.accounts)
        | inr e ↦ rw e (made-Accounted begun made sent now t p next q lt (ground arith) a)
      ]
  own-Accounted begun made sent now t (p, ended, next, q) lt a = a
  own-Accounted begun made sent now t (p, sending m at retry, next, q) lt a =
      let (before, e, le, s, paced) = a.accounts in
      send-Accounted begun made before sent m at retry next p q e a s paced

  -- Whatever the other threads do, a producer makes messages of its own number and of the types 0
  -- to 3, numbered 1, 2, 3 and so on over all types (modulo 2 ^ 64); each is sent once, unchanged
  -- and in this order, or is lost without a trace in any counter, except for one that the producer
  -- may still hold, with at most 100 tries; `messages_produced` counts those sent, modulo 2 ^ 64;
  -- and the messages made take up at least an interval each, from the start of the loop to the
  -- time of the next message (to the time of the message in hand, for those before it).
  pub each_made :
      (begun : ℕ) (made sent : List Message) (s : State F)
      → Run begun made sent s
      → Accounted begun made sent s
  unfolding new_producer
  each_made begun made sent s (begin q) = record {
    same_id = refl;
    next_number = refl;
    numbered = none_made;
    accounts = (record { lost = 0; relayed = nothing; count = refl }, omega arith);
  }
  each_made begun made sent s (own {made = ms} {sent = u} {s = s'} now t lt run) =
      own-Accounted begun ms u now t s' lt (each_made begun ms u s' run)
  each_made begun made sent s (others {p = p} {pc = pc} {next = next} {q = q} run life q') =
      let a = each_made begun made sent (p, pc, next, q) run in
      record {
        same_id = a.same_id;
        next_number = a.next_number;
        numbered = a.numbered;
        accounts = a.accounts;
      }
