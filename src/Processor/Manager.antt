-- ===== src/Processor/Manager.antt =====
-- `ProcessorManager`. The processor at index `i` has the queues at index `i`.
use message_router.Base.{
  ℕ, ◌<◌, ◌≤◌, ◌≡◌, List, Option, none, some, arith, length, get_elem?, get_elem?_lt,
}
use message_router.Base.Int.{rounds}
use message_router.Config.{SystemConfig}
use message_router.Lifecycle.{Fate, returns, ◌>>=◌}
use message_router.Lifecycle
use message_router.Manager.{create, for_each, add_up, delete_all}
use message_router.Manager.Laws.{made, create-made}
use message_router.Processor
use message_router.Processor.{
  Processor, new_processor, start, stop, with_life, get_messages_processed,
}

-- The vector of the components; the vectors of queues are read by the constructor only.
abbrev pub ProcessorManager : Type 0
ProcessorManager = List Processor

module _ {Queue : Type 0} where
  -- `input_queues[i]`, `output_queues[i]` and the processor that is made with them.
  abbrev pub make_processor : List Queue → List Queue → ℕ → Option Processor
  make_processor input_queues output_queues i = elim (get_elem? input_queues i) [
    | none ↦ none
    | some input ↦ elim (get_elem? output_queues i) [
      | none ↦ none
      | some output ↦ some (new_processor i)
    ]
  ]

  -- The constructor; `none` is a read beyond a list of queues.
  unfoldable pub new_manager :
      {Double : Type 0} → SystemConfig Double → List Queue → List Queue → Option ProcessorManager
  new_manager config input_queues output_queues =
      create (make_processor input_queues output_queues) (rounds config.processors.count) 0

unfoldable pub start_all : ProcessorManager → Fate ProcessorManager
unfolding start
start_all = for_each start

unfoldable pub stop_all : ProcessorManager → Fate ProcessorManager
unfolding stop
stop_all = for_each stop

-- The join of one processor's thread in `wait_for_completion`.
abbrev pub wait : Processor → Fate Processor
wait p = with_life p (Lifecycle.join p.life)

unfoldable pub wait_for_completion : ProcessorManager → Fate ProcessorManager
wait_for_completion = for_each wait

-- The destructor.
unfoldable pub destroy : ProcessorManager → Fate (Unit {0})
unfolding stop_all delete_all
destroy m = do stopped ← stop_all m; delete_all Processor.destroy stopped

unfoldable pub get_total_messages_processed : ProcessorManager → ℕ
get_total_messages_processed = add_up get_messages_processed 0

-- With a queue of each kind for every processor, the constructor makes `count` of them, numbered from 0.
pub new_processors_lem :
    {Queue : Type 0} {Double : Type 0} (config : SystemConfig Double) (inputs outputs : List Queue)
    → rounds config.processors.count ≤ length inputs
    → rounds config.processors.count ≤ length outputs
    → new_manager config inputs outputs
      ≡ some (made new_processor (rounds config.processors.count) 0)
unfolding new_manager
new_processors_lem config inputs outputs le le' =
    create-made (make_processor inputs outputs) new_processor _ 0
      λ i lt. has i (omega arith) (omega arith)
  where
    has :
        (i : ℕ)
        → i < length inputs
        → i < length outputs
        → make_processor inputs outputs i ≡ some (new_processor i)
    has i lt lt' =
        let (q, e) = get_elem?_lt inputs i lt in
        let (q', e') = get_elem?_lt outputs i lt' in rw (e, e', make_processor)
