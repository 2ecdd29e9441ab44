-- ===== src/Pipeline/Shared.antt =====
-- The threads of a run as a `Program`: each with its loop, one call of a queue at a time. With it
-- the accesses of all calls of a run interleave (`SharedSteps`).
pub mod Views
pub mod Routing
pub mod Seen
pub mod Stage1Steps
pub mod Stage2Steps
pub mod ProducerSteps
pub mod ProcessorLoop
pub mod ProcessorSteps
pub mod StrategySteps
pub mod Cases
pub mod Refines
mod Tests
use native.Mathlib.Decide.{ℕ_discrete}
use message_router.Base.{
  ℕ, suc, ◌+◌, ◌<◌, ◌≡◌, refl, Bool, true, false, ◌&&◌, List, [], ◌∷◌, Option, none, some, ltb,
  if◌then◌else◌, replicate,
}
use message_router.Base.Int.{rounds}
use message_router.Config.{SystemConfig, get_processor_for_message, get_strategy_for_message}
use message_router.Lifecycle.{Life}
use message_router.Message.{Message, MessageType}
use message_router.Queue.Client.{QueueApi}
use message_router.Queue.Defs.{capacity}
use message_router.Queue.Fifo
use message_router.Queue.Network.{Call, silent, calls_push, calls_pop, Program}
use message_router.Producer
use message_router.Producer.{Producer, new_producer}
use message_router.Router
use message_router.Router.{Router, new_router, new_stage2_router}
use message_router.Processor
use message_router.Processor.{Processor, new_processor, simulate_processing}
use message_router.Strategy
use message_router.Strategy.{Strategy, new_strategy, process_message}

pub data Thread : Type 0 where
  producer_thread : ℕ → Thread
  stage1_thread : Thread
  processor_thread : ℕ → Thread
  stage2_thread : Thread
  strategy_thread : ℕ → Thread

pub data QueueName : Type 0 where
  producer_queue stage1_queue processor_queue stage2_queue : ℕ → QueueName

-- Where a thread stands; a processor has the readings of the clock before it.
pub data Place : Type 0 where
  absent : Place
  at_producer : Producer → Producer.Pc → ℕ → Place
  at_router : Router → Router.Pc → Place
  at_processor : Processor → Processor.Pc → (ℕ → ℕ) → Place
  at_strategy : Strategy → Strategy.Pc → Place

pub discrete_thread : Discrete Thread
discrete_thread = hlevel (ℕ_discrete)

pub discrete_queue : Discrete QueueName
discrete_queue = hlevel (ℕ_discrete)

-- A queue as the list that it holds.
abbrev pub list_api : ℕ → QueueApi Message
list_api k = record {
  Q = List Message;
  room = capacity k;
  contents = λ q. q;
  new = [];
  push = Fifo.push (capacity k);
  pop = Fifo.pop;
  new_law = refl;
  push_law = λ q x. (refl, refl);
  pop_law = λ q. (refl, refl);
}

-- A router's call, its steps without a call, and where it goes on after a call; `n` queues come in
-- and `m` go out.
abbrev pub router_wants :
    ℕ → ℕ → (ℕ → QueueName) → (ℕ → QueueName) → Router.Pc → Call QueueName Message
router_wants n m ins outs (Router.scanning i) = if ltb i n then calls_pop (ins i) else silent
router_wants n m ins outs (Router.sending i x p retry) =
    if ltb retry Router.max_retries && ltb p m then calls_push (outs p) x else silent
router_wants n m ins outs _ = silent

abbrev pub router_alone : Router → Router.Pc → Router × Router.Pc
router_alone r Router.checking =
    if r.life.running then (r, Router.scanning 0) else (r, Router.ended)
router_alone r (Router.scanning i) = (r, Router.checking)
router_alone r (Router.sending i x p retry) =
    if ltb retry Router.max_retries
    then (r, Router.sending i x p (retry + 1))
    else (Router.count_error r, Router.scanning i)
router_alone r Router.ended = (r, Router.ended)

abbrev pub router_popped :
    (MessageType → ℕ) → ℕ → Router → Router.Pc → Option Message → Router × Router.Pc
router_popped choose m r (Router.scanning i) none = (r, Router.scanning (i + 1))
router_popped choose m r (Router.scanning i) (some x) =
    if ltb (choose x.msg_type) m
    then (r, Router.sending i x (choose x.msg_type) 0)
    else (Router.count_error r, Router.scanning i)
router_popped choose m r pc o = (r, pc)

abbrev pub router_pushed : Router → Router.Pc → Bool → Router × Router.Pc
router_pushed r (Router.sending i x p retry) true = (Router.count_routed r, Router.scanning i)
router_pushed r (Router.sending i x p retry) false = (r, Router.sending i x p (retry + 1))
router_pushed r pc b = (r, pc)

abbrev pub router_place : Router × Router.Pc → Place
router_place (r, pc) = at_router r pc

module _ {Double : Type 0} (config : SystemConfig Double) (interval : ℕ) where
  abbrev pub producer_alone : ℕ → MessageType → Producer → Producer.Pc → ℕ → Place
  producer_alone now t p Producer.checking next =
      if p.life.running
      then at_producer p Producer.reading next
      else at_producer p Producer.ended next
  producer_alone now t p Producer.reading next =
      if ltb now next
      then at_producer p Producer.checking next
      else at_producer (Producer.count_made p) (Producer.sending (Producer.make p t now) now 0) next
  producer_alone now t p (Producer.sending x made retry) next =
      at_producer p Producer.checking (made + interval)
  producer_alone now t p Producer.ended next = at_producer p Producer.ended next

  abbrev pub processor_alone : Processor → Processor.Pc → (ℕ → ℕ) → Place
  processor_alone p Processor.checking clock =
      if p.life.running
      then at_processor p Processor.popping clock
      else at_processor p Processor.ended clock
  processor_alone p (Processor.sending x retry) clock = at_processor p Processor.popping clock
  processor_alone p pc clock = at_processor p pc clock

  abbrev pub strategy_alone : Strategy → Strategy.Pc → Place
  strategy_alone s Strategy.checking =
      if s.life.running then at_strategy s Strategy.popping else at_strategy s Strategy.ended
  strategy_alone s pc = at_strategy s pc

  abbrev pub stage1_wants : Router.Pc → Call QueueName Message
  stage1_wants =
      router_wants (rounds config.producers.count) (rounds config.processors.count) producer_queue
        stage1_queue

  abbrev pub stage2_wants : Router.Pc → Call QueueName Message
  stage2_wants =
      router_wants (rounds config.processors.count) (rounds config.strategies.count) processor_queue
        stage2_queue

  abbrev pub wants : Thread → Place → Call QueueName Message
  wants (producer_thread i) (at_producer p (Producer.sending x made retry) next) =
      if ltb retry Producer.max_retries then calls_push (producer_queue i) x else silent
  wants stage1_thread (at_router r pc) = stage1_wants pc
  wants (processor_thread i) (at_processor p Processor.popping clock) = calls_pop (stage1_queue i)
  wants (processor_thread i) (at_processor p (Processor.sending x retry) clock) =
      if ltb retry Processor.max_retries then calls_push (processor_queue i) x else silent
  wants stage2_thread (at_router r pc) = stage2_wants pc
  wants (strategy_thread i) (at_strategy s Strategy.popping) = calls_pop (stage2_queue i)
  wants _ _ = silent

  -- A step without a call; main() may have changed the flag and the handle before it.
  abbrev pub Moves : Thread → Place → Place → Type 0
  Moves (producer_thread i) (at_producer p pc next) c =
      (life : Life) × (now : ℕ) × (t : MessageType) × (t < 4)
      × (c ≡ producer_alone now t (record p { life = life }) pc next)
  Moves stage1_thread (at_router r pc) c =
      (life : Life) × (c ≡ router_place (router_alone (record r { life = life }) pc))
  Moves (processor_thread i) (at_processor p pc clock) c =
      (life : Life) × (c ≡ processor_alone (record p { life = life }) pc clock)
  Moves stage2_thread (at_router r pc) c =
      (life : Life) × (c ≡ router_place (router_alone (record r { life = life }) pc))
  Moves (strategy_thread i) (at_strategy s pc) c =
      (life : Life) × (c ≡ strategy_alone (record s { life = life }) pc)
  Moves _ _ c = ⊥

  abbrev pub pushed : Thread → Place → Bool → Place
  pushed (producer_thread i) (at_producer p (Producer.sending x made retry) next) true =
      at_producer (Producer.count_produced p) Producer.checking (made + interval)
  pushed (producer_thread i) (at_producer p (Producer.sending x made retry) next) false =
      at_producer p (Producer.sending x made (retry + 1)) next
  pushed (processor_thread i) (at_processor p (Processor.sending x retry) clock) true =
      at_processor (Processor.count_processed p) Processor.popping clock
  pushed (processor_thread i) (at_processor p (Processor.sending x retry) clock) false =
      at_processor p (Processor.sending x (retry + 1)) clock
  pushed stage1_thread (at_router r pc) b = router_place (router_pushed r pc b)
  pushed stage2_thread (at_router r pc) b = router_place (router_pushed r pc b)
  pushed t c b = c

  -- A processor uses up a reading of the clock for each message.
  abbrev pub popped : Thread → Place → Option Message → Place
  popped (processor_thread i) (at_processor p pc clock) none =
      at_processor p Processor.checking clock
  popped (processor_thread i) (at_processor p pc clock) (some x) =
      at_processor p (Processor.sending (simulate_processing p.processor_id (clock 0) x) 0)
        (λ n. clock (suc n))
  popped stage1_thread (at_router r pc) o =
      router_place
        (router_popped (get_processor_for_message config) (rounds config.processors.count) r pc o)
  popped stage2_thread (at_router r pc) o =
      router_place
        (router_popped (get_strategy_for_message config) (rounds config.strategies.count) r pc o)
  popped (strategy_thread i) (at_strategy s pc) none = at_strategy s Strategy.checking
  popped (strategy_thread i) (at_strategy s pc) (some x) =
      at_strategy (process_message s x) Strategy.popping
  popped t c o = c

  abbrev pub pusher : QueueName → Thread
  pusher (producer_queue i) = producer_thread i
  pusher (stage1_queue i) = stage1_thread
  pusher (processor_queue i) = processor_thread i
  pusher (stage2_queue i) = stage2_thread

  abbrev pub popper : QueueName → Thread
  popper (producer_queue i) = stage1_thread
  popper (stage1_queue i) = processor_thread i
  popper (processor_queue i) = stage2_thread
  popper (stage2_queue i) = strategy_thread i

  abbrev pub threads : Program Message
  threads = record {
    T = Thread;
    J = QueueName;
    C = Place;
    thread_discrete = discrete_thread;
    queue_discrete = discrete_queue;
    wants = wants;
    Moves = Moves;
    pushed = pushed;
    popped = popped;
    pusher = pusher;
    popper = popper;
  }
