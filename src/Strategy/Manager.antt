-- ===== src/Strategy/Manager.antt =====
-- `StrategyManager`. The strategy at index `i` reads the queue at index `i`.
use message_router.Base.{
  ℕ, ◌<◌, ◌≤◌, ◌≡◌, List, Option, none, some, arith, length, get_elem?, get_elem?_lt, get_elem?_le,
}
use message_router.Base.Int.{rounds}
use message_router.Config.{SystemConfig}
use message_router.Lifecycle.{Fate, returns, ◌>>=◌}
use message_router.Lifecycle
use message_router.Manager.{create, for_each, add_up, delete_all}
use message_router.Manager.Laws.{made, create-made, create_beyond}
use message_router.Strategy
use message_router.Strategy.{
  Strategy, new_strategy, start, stop, with_life, get_messages_delivered, get_ordering_violations,
}

-- The vector of the components; the vectors of queues are read by the constructor only.
abbrev pub StrategyManager : Type 0
StrategyManager = List Strategy

module _ {Queue : Type 0} where
  -- `input_queues[i]` and the strategy that is made with it.
  abbrev pub make_strategy : List Queue → ℕ → Option Strategy
  make_strategy input_queues i = elim (get_elem? input_queues i) [
    | none ↦ none
    | some q ↦ some (new_strategy i)
  ]

  -- The constructor; `none` is a read beyond `input_queues`.
  unfoldable pub new_manager :
      {Double : Type 0} → SystemConfig Double → List Queue → Option StrategyManager
  new_manager config input_queues =
      create (make_strategy input_queues) (rounds config.strategies.count) 0

unfoldable pub start_all : StrategyManager → Fate StrategyManager
unfolding start
start_all = for_each start

unfoldable pub stop_all : StrategyManager → Fate StrategyManager
unfolding stop
stop_all = for_each stop

-- The join of one strategy's thread in `wait_for_completion`.
abbrev pub wait : Strategy → Fate Strategy
wait s = with_life s (Lifecycle.join s.life)

unfoldable pub wait_for_completion : StrategyManager → Fate StrategyManager
wait_for_completion = for_each wait

-- The destructor.
unfoldable pub destroy : StrategyManager → Fate (Unit {0})
unfolding stop_all delete_all
destroy m = do stopped ← stop_all m; delete_all Strategy.destroy stopped

unfoldable pub get_total_messages_delivered : StrategyManager → ℕ
get_total_messages_delivered = add_up get_messages_delivered 0

unfoldable pub get_total_ordering_violations : StrategyManager → ℕ
get_total_ordering_violations = add_up get_ordering_violations 0

-- The constructor makes `count` strategies, numbered from 0, exactly if there is a queue for each.
pub new_manager_lem :
    {Queue : Type 0} {Double : Type 0} (config : SystemConfig Double) (queues : List Queue)
    → ((rounds config.strategies.count ≤ length queues)
        → new_manager config queues ≡ some (made new_strategy (rounds config.strategies.count) 0))
      × ((length queues < rounds config.strategies.count) → new_manager config queues ≡ none)
unfolding new_manager
new_manager_lem config queues = (
  λ enough. create-made _ new_strategy _ 0 λ i lt. has i (omega arith),
  λ few.
      create_beyond _ _ 0 (length queues) (omega arith) (omega arith)
        (rw (get_elem?_le queues (length queues) (omega arith), make_strategy)),
)
  where
    has : (i : ℕ) → i < length queues → make_strategy queues i ≡ some (new_strategy i)
    has i lt = let (q, e) = get_elem?_lt queues i lt in rw (e, make_strategy)
