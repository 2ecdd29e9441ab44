-- ===== src/Router/Handling.antt =====
-- What a router does with the messages that it takes, while the other threads push to and pop from
-- its queues between its steps.
use message_router.Base.{
  ℕ, ◌+◌, ◌≤◌, ◌<◌, ◌≡◌, refl, Bool, true, false, List, [], ◌∷◌, Option, none, some, inl, inr,
  arith, Bool-cases, u64, add64, ltb, ltb→lt, if◌then◌else◌, length,
}
use message_router.Lifecycle.{Life}
use message_router.Message.{Message, MessageType}
use message_router.Queue.Client.{QueueApi}
use message_router.Router.{
  Router, Pc, checking, scanning, sending, ended, new_router, max_retries, pop_at, push_at, State,
  received, scanned, tried, loop_step,
}

-- What happened to each message taken, newest first in both lists: it was sent, to the queue that
-- the rules give, or it was lost; with the number of those lost.
pub data Handled (choose : MessageType → ℕ) : List Message → List (ℕ × Message) → ℕ → Type 0 where
  nothing : Handled choose [] [] 0
  routed :
      {taken : List Message} {sent : List (ℕ × Message)} {lost : ℕ}
      → (m : Message) → Handled choose taken sent lost
      → Handled choose (m ∷ taken) ((choose m.msg_type, m) ∷ sent) lost
  failed :
      {taken : List Message} {sent : List (ℕ × Message)} {lost : ℕ}
      → (m : Message) → Handled choose taken sent lost
      → Handled choose (m ∷ taken) sent (lost + 1)

-- The counters `n_routed` and `n_errors` are those of the history, modulo 2 ^ 64.
pub record Settled (choose : MessageType → ℕ) (taken : List Message) (sent : List (ℕ × Message))
    (n_routed n_errors : ℕ) : Type 0 where
  pub lost : ℕ
  pub handled : Handled choose taken sent lost
  pub routed_count : n_routed ≡ u64 (length sent)
  pub error_count : n_errors ≡ u64 lost

module _ (F : QueueApi Message) (choose : MessageType → ℕ) where
  open F use {Q, push}

  abbrev pub with_popped : Option (Option Message × List Q) → List Message → List Message
  with_popped none ms = ms
  with_popped (some (none, ins)) ms = ms
  with_popped (some (some m, ins)) ms = m ∷ ms

  -- The message that the next step takes, and the one that it sends.
  abbrev pub takes : State F → List Message → List Message
  takes (r, scanning i, ins, outs) ms = with_popped (pop_at F ins i) ms
  takes (r, _, ins, outs) ms = ms

  abbrev pub sends : State F → List (ℕ × Message) → List (ℕ × Message)
  sends (r, sending i m p retry, ins, outs) out =
      if ltb retry max_retries then (if (push_at F outs p m).0 then (p, m) ∷ out else out) else out
  sends (r, _, ins, outs) out = out

  -- The router's steps with what the other threads do in between: anything to the queues, and to
  -- `running_` and the thread.
  pub data Run : List Message → List (ℕ × Message) → State F → Type 0 where
    begin : (ins outs : List Q) → Run [] [] (new_router, checking, ins, outs)
    own :
        {taken : List Message} {sent : List (ℕ × Message)} {s : State F}
        → Run taken sent s
        → Run (takes s taken) (sends s sent) (loop_step F choose s)
    others :
        {taken : List Message} {sent : List (ℕ × Message)} {r : Router} {pc : Pc}
        → {ins outs : List Q} → Run taken sent (r, pc, ins, outs)
        → (life : Life) (ins' outs' : List Q)
        → Run taken sent (record r { life = life }, pc, ins', outs')

  -- The message in hand is the last one taken, and not yet sent or lost.
  abbrev pub Accounts : List Message → List (ℕ × Message) → ℕ → ℕ → Pc → Type 0
  Accounts taken sent n e (sending i m p retry) =
      (before : List Message) × (taken ≡ m ∷ before)
      × (p ≡ choose m.msg_type)
      × (retry ≤ max_retries)
      × Settled choose before sent n e
  Accounts taken sent n e _ = Settled choose taken sent n e

  routed-Settled :
      (taken : List Message) (sent : List (ℕ × Message)) (n e : ℕ) (m : Message)
      → Settled choose taken sent n e
      → Settled choose (m ∷ taken) ((choose m.msg_type, m) ∷ sent) (add64 n 1) e
  routed-Settled taken sent n e m s = record {
    lost = s.lost;
    handled = routed m s.handled;
    routed_count = omega (arith, s.routed_count);
    error_count = s.error_count;
  }

  failed-Settled :
      (taken : List Message) (sent : List (ℕ × Message)) (n e : ℕ) (m : Message)
      → Settled choose taken sent n e
      → Settled choose (m ∷ taken) sent n (add64 e 1)
  failed-Settled taken sent n e m s = record {
    lost = s.lost + 1;
    handled = failed m s.handled;
    routed_count = s.routed_count;
    error_count = omega (arith, s.error_count);
  }

  -- The accounts of a state.
  abbrev pub Accounted : List Message → List (ℕ × Message) → State F → Type 0
  Accounted taken sent (r, pc, ins, outs) =
      Accounts taken sent r.messages_routed r.routing_errors pc

  received-Accounted :
      (taken : List Message) (sent : List (ℕ × Message)) (r : Router) (i : ℕ) (m : Message)
      (ins outs : List Q)
      → Settled choose taken sent r.messages_routed r.routing_errors
      → Accounted (m ∷ taken) sent (received F (choose m.msg_type) r i m ins outs)
  received-Accounted taken sent r i m ins outs s =
      elim (Bool-cases (ltb (choose m.msg_type) (length outs))) [
        | inl e ↦ rw e (taken, refl, refl, omega arith, s)
        | inr e ↦ rw e (failed-Settled taken sent _ _ m s)
      ]

  scanned-Accounted :
      (taken : List Message) (sent : List (ℕ × Message)) (r : Router) (i : ℕ) (ins outs : List Q)
      (res : Option (Option Message × List Q))
      → Settled choose taken sent r.messages_routed r.routing_errors
      → Accounted (with_popped res taken) sent (scanned F choose r i ins outs res)
  scanned-Accounted taken sent r i ins outs none s = s
  scanned-Accounted taken sent r i ins outs (some (none, ins')) s = s
  scanned-Accounted taken sent r i ins outs (some (some m, ins')) s =
      received-Accounted taken sent r i m ins' outs s

  tried-Accounted :
      (before : List Message) (sent : List (ℕ × Message)) (r : Router) (i : ℕ) (m : Message)
      (retry : ℕ) (ins : List Q) (res : Bool × List Q)
      → retry < max_retries
      → Settled choose before sent r.messages_routed r.routing_errors
      → Accounted
          (m ∷ before)
          (if res.0 then (choose m.msg_type, m) ∷ sent else sent)
          (tried F r i m (choose m.msg_type) retry ins res)
  tried-Accounted before sent r i m retry ins (true, outs) lt s = routed-Settled before sent _ _ m s
  tried-Accounted before sent r i m retry ins (false, outs) lt s =
      (before, refl, refl, omega arith, s)

  own-Accounted :
      (taken : List Message) (sent : List (ℕ × Message)) (s : State F)
      → Accounted taken sent s
      → Accounted (takes s taken) (sends s sent) (loop_step F choose s)
  unfolding loop_step
  own-Accounted taken sent (r, checking, ins, outs) a = elim (Bool-cases r.life.running) [
    | inl e ↦ rw e a
    | inr e ↦ rw e a
  ]
  own-Accounted taken sent (r, scanning i, ins, outs) a =
      scanned-Accounted taken sent r i ins outs (pop_at F ins i) a
  own-Accounted taken sent (r, ended, ins, outs) a = a
  own-Accounted taken sent (r, sending i m p retry, ins, outs) (before, e, f, le, a) =
      rw (e, f)
        (elim (Bool-cases (ltb retry max_retries)) [
          | inl lt ↦ rw lt (
              tried-Accounted before sent r i m retry ins (push_at F outs (choose m.msg_type) m)
                (ltb→lt _ _ lt) a)
          | inr ge ↦ rw ge (failed-Settled before sent _ _ m a)
        ])

  -- Whatever the other threads do, each message that a router takes from its input queues is sent
  -- once, to the queue that the rules give for its type and in the order of taking, or it is lost
  -- and counted as an error, except for one that the router may still hold, with at most 1000
  -- tries; `messages_routed` and `routing_errors` count those sent and those lost, modulo 2 ^ 64.
  pub each_handled :
      (taken : List Message) (sent : List (ℕ × Message)) (s : State F)
      → Run taken sent s
      → Accounted taken sent s
  unfolding new_router
  each_handled taken sent s (begin ins outs) = record {
    lost = 0;
    handled = nothing;
    routed_count = refl;
    error_count = refl;
  }
  each_handled taken sent s (own {taken = t} {sent = u} {s = s'} run) =
      own-Accounted t u s' (each_handled t u s' run)
  each_handled taken sent s
        (others {r = r} {pc = pc} {ins = ins} {outs = outs} run life ins' outs') =
      each_handled taken sent (r, pc, ins, outs) run
