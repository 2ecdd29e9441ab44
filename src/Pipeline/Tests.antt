-- ===== src/Pipeline/Tests.antt =====
-- One message's way through a pipeline with one thread of each kind.
use mathlib.Core.List.{Sublist}
use message_router.Base.{
  ℕ, ◌<◌, ◌^◌, ◌≡◌, refl, [], ◌∷◌, ◌++◌, true, All, arith, map, some, get_elem?,
}
use message_router.Config.{
  processor_of, strategy_of, get_strategy_for_message, get_processor_for_message,
}
use message_router.Lifecycle.{Life, joinable}
use message_router.Message.{Key}
use message_router.Samples.{tiny, small_queue}
use message_router.Queue.Defs
use message_router.Queue.Fifo
use message_router.Producer
use message_router.Processor
use message_router.Router
use message_router.Router.{pop_at, push_at}
use message_router.Strategy
use message_router.Pipeline.{
  Lossless, Pipeline, Step, started, producer_moves, stage1_moves, processor_moves, stage2_moves,
  strategy_moves, Steps, here, next,
}
use message_router.Pipeline.Pick.{pick}
use message_router.Pipeline.Lanes.{done, under_way}
use message_router.Pipeline.Order.{no_other_loss, end_to_end}
use message_router.Pipeline.Fields.Delivered.{right_way, delivered-Marked}
use message_router.Pipeline.Ascending.{Ascending}
use message_router.Pipeline.Numbers.{delivered-Ascending}
use message_router.Pipeline.Counts.{history, strategies_count}
use message_router.Strategy.{Strategy}
use message_router.Strategy.History.{Records}

abbrev on : Life
on = record { running = true; thread = joinable }

abbrev begun : ℕ → ℕ
begun i = 0

infixl 3 ◌▹◌
abbrev ◌▹◌ :
    {s t u : Pipeline small_queue.Q}
    → Steps small_queue tiny 100 s t
    → Step small_queue tiny 100 t u
    → Steps small_queue tiny 100 s u
run ▹ step = next run step

abbrev Reached : Type 0
Reached =
    (s : Pipeline small_queue.Q) × Steps small_queue tiny 100 (started small_queue tiny begun) s

-- Three steps of each thread, and two of the strategy: the message goes all the way.
abbrev sent : Reached
unfolding Producer.loop_step Producer.new_producer Router.loop_step Router.stage1_step
    Router.stage2_step Router.new_router pop_at push_at processor_of strategy_of Processor.loop_step
    Processor.new_processor Processor.simulate_processing Strategy.loop_step Strategy.new_strategy
    Fifo.push Fifo.pop Defs.try_push Defs.try_pop Defs.init
sent = (
  _,
  here
      ▹ producer_moves 0 _ _ _ _ on 5 0 refl refl (omega arith)
      ▹ producer_moves 0 _ _ _ _ on 5 0 refl refl (omega arith)
      ▹ producer_moves 0 _ _ _ _ on 5 0 refl refl (omega arith),
)

abbrev routed : Reached
unfolding Producer.loop_step Producer.new_producer Router.loop_step Router.stage1_step
    Router.stage2_step Router.new_router pop_at push_at processor_of strategy_of Processor.loop_step
    Processor.new_processor Processor.simulate_processing Strategy.loop_step Strategy.new_strategy
    Fifo.push Fifo.pop Defs.try_push Defs.try_pop Defs.init
routed = (_, sent.1 ▹ stage1_moves on ▹ stage1_moves on ▹ stage1_moves on)

abbrev processed : Reached
unfolding Producer.loop_step Producer.new_producer Router.loop_step Router.stage1_step
    Router.stage2_step Router.new_router pop_at push_at processor_of strategy_of Processor.loop_step
    Processor.new_processor Processor.simulate_processing Strategy.loop_step Strategy.new_strategy
    Fifo.push Fifo.pop Defs.try_push Defs.try_pop Defs.init
processed = (
  _,
  routed.1
      ▹ processor_moves 0 _ _ _ _ on 7 refl refl refl
      ▹ processor_moves 0 _ _ _ _ on 7 refl refl refl
      ▹ processor_moves 0 _ _ _ _ on 7 refl refl refl,
)

abbrev handed : Reached
unfolding Producer.loop_step Producer.new_producer Router.loop_step Router.stage1_step
    Router.stage2_step Router.new_router pop_at push_at processor_of strategy_of Processor.loop_step
    Processor.new_processor Processor.simulate_processing Strategy.loop_step Strategy.new_strategy
    Fifo.push Fifo.pop Defs.try_push Defs.try_pop Defs.init
handed = (_, processed.1 ▹ stage2_moves on ▹ stage2_moves on ▹ stage2_moves on)

abbrev ran : Reached
unfolding Producer.loop_step Producer.new_producer Router.loop_step Router.stage1_step
    Router.stage2_step Router.new_router pop_at push_at processor_of strategy_of Processor.loop_step
    Processor.new_processor Processor.simulate_processing Strategy.loop_step Strategy.new_strategy
    Fifo.push Fifo.pop Defs.try_push Defs.try_pop Defs.init
ran = (_, handed.1 ▹ strategy_moves 0 _ _ _ on refl refl ▹ strategy_moves 0 _ _ _ on refl refl)

abbrev key : Key
key = (0, 0)

-- The message is delivered.
ran_delivers : map (λ d. d.1.sequence_number) (ran.0.delivered) ≡ 1 ∷ []
unfolding Producer.loop_step Producer.new_producer Router.loop_step Router.stage1_step
    Router.stage2_step Router.new_router pop_at push_at processor_of strategy_of Processor.loop_step
    Processor.new_processor Processor.simulate_processing Strategy.loop_step Strategy.new_strategy
    Fifo.push Fifo.pop Defs.try_push Defs.try_pop Defs.init
ran_delivers = refl

end_to_end_example :
    Sublist
      (done small_queue tiny key (ran.0) ++ under_way small_queue tiny key (ran.0))
      (pick key (ran.0.made))
end_to_end_example = end_to_end small_queue tiny 100 key begun (ran.0) (ran.1)

-- The run gives no message up.
ran-Lossless : Lossless small_queue tiny 100 (ran.1)
unfolding Producer.loop_step Producer.new_producer Router.loop_step Router.stage1_step
    Router.stage2_step Router.new_router pop_at push_at processor_of strategy_of Processor.loop_step
    Processor.new_processor Processor.simulate_processing Strategy.loop_step Strategy.new_strategy
    Fifo.push Fifo.pop Defs.try_push Defs.try_pop Defs.init
ran-Lossless = (
  (
    (
      (((((((((((tt, refl), refl), refl), refl), refl), refl), refl), refl), refl), refl), refl),
      refl,
    ),
    refl,
  ),
  refl,
)

no_other_loss_example :
    done small_queue tiny key (ran.0) ++ under_way small_queue tiny key (ran.0)
    ≡ pick key (ran.0.made)
no_other_loss_example = no_other_loss small_queue tiny 100 key begun (ran.0) (ran.1) ran-Lossless

right_way_example :
    All
      (λ d.
        (d.0 ≡ get_strategy_for_message tiny d.1.msg_type)
        × (d.1.processor_id ≡ get_processor_for_message tiny d.1.msg_type))
      (ran.0.delivered)
right_way_example = right_way small_queue tiny 100 begun (ran.0) (ran.1)

delivered-Marked_example :
    All
      (λ d.
        (d.1.msg_type < 4)
        × (d.1.producer_id < 1)
        × (d.1.sequence_number < 2 ^ 64)
        × (d.1.timestamp < 2 ^ 64)
        × (d.1.processor_id < 1))
      (ran.0.delivered)
delivered-Marked_example = delivered-Marked small_queue tiny 100 begun (ran.0) (ran.1)

delivered-Ascending_example : Ascending (done small_queue tiny key (ran.0))
unfolding Producer.loop_step Producer.new_producer Router.loop_step Router.stage1_step
    Router.stage2_step Router.new_router pop_at push_at processor_of strategy_of Processor.loop_step
    Processor.new_processor Processor.simulate_processing Strategy.loop_step Strategy.new_strategy
    Fifo.push Fifo.pop Defs.try_push Defs.try_pop Defs.init
delivered-Ascending_example =
    delivered-Ascending small_queue tiny 100 key begun (ran.0) (ran.1) (omega arith)

-- The strategy that the message has reached.
abbrev reached : (t : Strategy) × (get_elem? (ran.0.strategies) 0 ≡ some (t, Strategy.popping))
unfolding Producer.loop_step Producer.new_producer Router.loop_step Router.stage1_step
    Router.stage2_step Router.new_router pop_at push_at processor_of strategy_of Processor.loop_step
    Processor.new_processor Processor.simulate_processing Strategy.loop_step Strategy.new_strategy
    Fifo.push Fifo.pop Defs.try_push Defs.try_pop Defs.init
reached = (_, refl)

strategies_count_example : Records (history 0 (ran.0.delivered)) (reached.0)
strategies_count_example =
    strategies_count small_queue tiny 100 begun (ran.0) (ran.1) 0 (reached.0) Strategy.popping
      (reached.1)
