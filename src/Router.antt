-- ===== src/Router.antt =====
-- src/stage1_router.cpp and src/stage2_router.cpp, which are the same class but for the rule that
-- they ask: `choose` is `get_processor_for_message` in the one and `get_strategy_for_message` in
-- the other. A loop step is one test of `running_`, one `try_pop` or one `try_push` with what
-- follows it up to the next such call. `found_message` decides only about a yield(), which has no
-- effect on the state.
pub mod Handling
pub mod Retry
pub mod Targets
mod Tests
use message_router.Base.{
  ℕ, zero, suc, ◌+◌, Bool, true, false, List, [], ◌∷◌, Option, none, some, add64, ltb,
  if◌then◌else◌, length,
}
use message_router.Config.{SystemConfig, get_processor_for_message, get_strategy_for_message}
use message_router.Message.{Message, MessageType}
use message_router.Lifecycle
use message_router.Lifecycle.{Life, Fate, returns, ◌>>=◌}
use message_router.Queue.Client.{QueueApi}

pub record Router : Type 0 where
  pub life : Life
  pub messages_routed : ℕ
  pub routing_errors : ℕ

unfoldable pub new_router : Router
new_router = record { life = Lifecycle.fresh; messages_routed = 0; routing_errors = 0 }

-- The two classes have the same members and the same constructor.
abbrev pub Stage1Router : Type 0
Stage1Router = Router

abbrev pub Stage2Router : Type 0
Stage2Router = Router

abbrev pub new_stage2_router : Stage2Router
new_stage2_router = new_router

abbrev with_life : Router → Fate Life → Fate Router
with_life r f = do l ← f; returns (record r { life = l })

unfoldable pub start : Router → Fate Router
start r = with_life r (Lifecycle.start r.life)

unfoldable pub stop : Router → Fate Router
stop r = with_life r (Lifecycle.stop r.life)

-- The destructor.
unfoldable pub destroy : Router → Fate (Unit {0})
destroy r = Lifecycle.destroy r.life

-- Where `routing_loop` stands: at the test of `running_`; at the `try_pop` of the input queue `i`;
-- at the test of the retry loop with a message for the output queue `p`; or behind the loop.
pub data Pc : Type 0 where
  checking : Pc
  scanning : ℕ → Pc
  sending : ℕ → Message → ℕ → ℕ → Pc
  ended : Pc

-- `retry < 1000`
abbrev pub max_retries : ℕ
max_retries = 1000

abbrev pub count_routed : Router → Router
count_routed r = record r { messages_routed = add64 r.messages_routed 1 }

abbrev pub count_error : Router → Router
count_error r = record r { routing_errors = add64 r.routing_errors 1 }

module _ (F : QueueApi Message) where
  open F use {Q, push, pop}

  -- `queues[i]->try_pop(message)`; `none` where the loop over the queues has ended.
  unfoldable pub pop_at : List Q → ℕ → Option (Option Message × List Q)
  pop_at [] i = none
  pop_at (q ∷ qs) zero = some ((pop q).0, (pop q).1 ∷ qs)
  pop_at (q ∷ qs) (suc i) = elim (pop_at qs i) [ none ↦ none | some (m, rest) ↦ some (m, q ∷ rest) ]

  -- `queues[p]->try_push(message)`; the caller has tested `p`.
  unfoldable pub push_at : List Q → ℕ → Message → Bool × List Q
  push_at [] p m = (false, [])
  push_at (q ∷ qs) zero m = ((push q m).0, (push q m).1 ∷ qs)
  push_at (q ∷ qs) (suc p) m = ((push_at qs p m).0, q ∷ (push_at qs p m).1)

  abbrev pub State : Type 0
  State = Router × Pc × List Q × List Q

  -- A message that was popped: to be sent to the queue that the rules give, or an error.
  abbrev pub received : ℕ → Router → ℕ → Message → List Q → List Q → State
  received p r i m ins outs =
      if ltb p (length outs)
      then (r, sending i m p 0, ins, outs)
      else (count_error r, scanning i, ins, outs)

  abbrev pub scanned :
      (MessageType → ℕ) → Router → ℕ → List Q → List Q → Option (Option Message × List Q) → State
  scanned choose r i ins outs none = (r, checking, ins, outs)
  scanned choose r i ins outs (some (none, ins')) = (r, scanning (i + 1), ins', outs)
  scanned choose r i ins outs (some (some m, ins')) = received (choose m.msg_type) r i m ins' outs

  abbrev pub tried : Router → ℕ → Message → ℕ → ℕ → List Q → Bool × List Q → State
  tried r i m p retry ins (true, outs) = (count_routed r, scanning i, ins, outs)
  tried r i m p retry ins (false, outs) = (r, sending i m p (retry + 1), ins, outs)

  unfoldable pub loop_step : (MessageType → ℕ) → State → State
  loop_step choose (r, checking, ins, outs) =
      if r.life.running then (r, scanning 0, ins, outs) else (r, ended, ins, outs)
  loop_step choose (r, scanning i, ins, outs) = scanned choose r i ins outs (pop_at ins i)
  loop_step choose (r, sending i m p retry, ins, outs) =
      if ltb retry max_retries
      then tried r i m p retry ins (push_at outs p m)
      else (count_error r, scanning i, ins, outs)
  loop_step choose (r, ended, ins, outs) = (r, ended, ins, outs)

  -- `Stage1Router::routing_loop`
  unfoldable pub stage1_step : {Double : Type 0} → SystemConfig Double → State → State
  unfolding loop_step
  stage1_step config = loop_step (get_processor_for_message config)

  -- `Stage2Router::routing_loop`
  unfoldable pub stage2_step : {Double : Type 0} → SystemConfig Double → State → State
  unfolding loop_step
  stage2_step config = loop_step (get_strategy_for_message config)
