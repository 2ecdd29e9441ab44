-- ===== src/Producer/Manager.antt =====
-- `ProducerManager`. The producer at index `i` has the queue at index `i`.
use message_router.Base.{
  ℕ, ◌<◌, ◌≤◌, ◌≡◌, List, Option, none, some, arith, length, get_elem?, get_elem?_lt,
}
use message_router.Base.Int.{rounds}
use message_router.Config.{SystemConfig}
use message_router.Lifecycle.{Fate, returns, ◌>>=◌}
use message_router.Lifecycle
use message_router.Manager.{create, for_each, add_up, delete_all}
use message_router.Manager.Laws.{made, create-made}
use message_router.Producer
use message_router.Producer.{Producer, new_producer, start, stop, with_life, get_messages_produced}

-- The vector of the components; the vectors of queues are read by the constructor only.
abbrev pub ProducerManager : Type 0
ProducerManager = List Producer

module _ {Queue : Type 0} where
  -- `output_queues[i]` and the producer that is made with it.
  abbrev pub make_producer : List Queue → ℕ → Option Producer
  make_producer output_queues i = elim (get_elem? output_queues i) [
    | none ↦ none
    | some q ↦ some (new_producer i)
  ]

  -- The constructor; `none` is a read beyond a list of queues.
  unfoldable pub new_manager :
      {Double : Type 0} → SystemConfig Double → List Queue → Option ProducerManager
  new_manager config output_queues =
      create (make_producer output_queues) (rounds config.producers.count) 0

unfoldable pub start_all : ProducerManager → Fate ProducerManager
unfolding start
start_all = for_each start

unfoldable pub stop_all : ProducerManager → Fate ProducerManager
unfolding stop
stop_all = for_each stop

-- The join of one producer's thread in `wait_for_completion`.
abbrev pub wait : Producer → Fate Producer
wait p = with_life p (Lifecycle.join p.life)

unfoldable pub wait_for_completion : ProducerManager → Fate ProducerManager
wait_for_completion = for_each wait

-- The destructor.
unfoldable pub destroy : ProducerManager → Fate (Unit {0})
unfolding stop_all delete_all
destroy m = do stopped ← stop_all m; delete_all Producer.destroy stopped

unfoldable pub get_total_messages_produced : ProducerManager → ℕ
get_total_messages_produced = add_up get_messages_produced 0

-- With a queue for every producer, the constructor makes `count` of them, numbered from 0.
pub new_producers_lem :
    {Queue : Type 0} {Double : Type 0} (config : SystemConfig Double) (queues : List Queue)
    → rounds config.producers.count ≤ length queues
    → new_manager config queues ≡ some (made new_producer (rounds config.producers.count) 0)
unfolding new_manager
new_producers_lem config queues le =
    create-made (make_producer queues) new_producer _ 0 λ i lt. has i (omega arith)
  where
    has : (i : ℕ) → i < length queues → make_producer queues i ≡ some (new_producer i)
    has i lt = let (q, e) = get_elem?_lt queues i lt in rw (e, make_producer)
