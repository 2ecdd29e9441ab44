-- ===== src/Monitor.antt =====
-- include/monitor.h and src/monitor.cpp. The statistics that they keep (`PerformanceStats`) are
-- declared outside of the repository, and so are `get_total_messages_lost` and `reset_all_stats` of
-- the managers: their results are arguments. Times are nanoseconds.
pub mod Stats
pub mod Reports
pub mod Printed
pub mod Pace
pub mod Percentiles
pub mod Unwaited
mod Tests
use message_router.Base.{
  ℕ, ◌+◌, ◌-◌, ◌/◌, ◌^◌, ◌≡◌, ◌≢◌, Bool, true, false, List, [], ◌∷◌, ltb, leb, if◌then◌else◌, ◌&&◌,
  ◌==◌,
}
use message_router.Lifecycle
use message_router.Lifecycle.{Life, Fate, returns, ◌>>=◌, launch, join, release}
use message_router.Message.{Message}
use message_router.Queue.Defs.{Spsc, size}
use message_router.Producer.{Producer}
use message_router.Producer.Manager as Producers
use message_router.Processor.{Processor}
use message_router.Processor.Manager as Processors
use message_router.Strategy.{Strategy}
use message_router.Strategy.Manager as Strategies

-- The atomic counters of `PerformanceStats` that the code names.
pub data Counter : Type 0 where
  messages_produced messages_lost messages_processed messages_delivered ordering_violations :
      Counter
  stage1_queue_depths stage2_queue_depths : ℕ → Counter

-- `PerformanceStats`: a store changes the value that a load of the same counter gives, and no other.
pub record StatsApi : Type 1 where
  pub Stats : Type 0
  pub load : Stats → Counter → ℕ
  pub store : Stats → Counter → ℕ → Stats
  pub reset : Stats → Stats
  pub load_store : (s : Stats) (c : Counter) (v : ℕ) → load (store s c v) c ≡ v
  pub load_other : (s : Stats) (c d : Counter) (v : ℕ) → d ≢ c → load (store s c v) d ≡ load s d

-- The lists that `config_`, the managers and the two vectors give at the time of a look.
pub record View : Type 0 where
  pub producers : List Producer
  pub total_lost : ℕ
  pub processors : List Processor
  pub strategies : List Strategy
  pub stage1_queues : List (Spsc Message)
  pub stage2_queues : List (Spsc Message)

-- `duration_cast<milliseconds>`
abbrev pub elapsed : ℕ → ℕ → ℕ
elapsed from now = (now - from) / 10 ^ 6

-- The time of the report of a turn.
abbrev pub reported : Bool → ℕ → List ℕ → List ℕ
reported true now ts = now ∷ ts
reported false now ts = ts

module _ (P : StatsApi) where
  open P use {Stats, load, store, reset}

  pub record Monitor : Type 0 where
    pub life : Life
    pub stats : Stats
    pub start_time : ℕ
    pub last_report_time : ℕ

  unfoldable pub new_monitor : Stats → ℕ → Monitor
  new_monitor stats now = record {
    life = Lifecycle.fresh;
    stats = stats;
    start_time = now;
    last_report_time = now;
  }

  -- `for (size_t i = first; i < queues.size() && i < 8; ++i)`
  unfoldable pub store_depths : ℕ → (ℕ → Counter) → ℕ → List (Spsc Message) → Stats → Stats
  store_depths k depth first [] s = s
  store_depths k depth first (q ∷ qs) s =
      if ltb first 8
      then store_depths k depth (first + 1) qs (store s (depth first) (size k q))
      else s

  -- The counters of the managers, before the depths of the queues.
  unfoldable pub store_totals : View → Stats → Stats
  store_totals v s =
      let s1 = store s messages_produced (Producers.get_total_messages_produced v.producers) in
      let s2 = store s1 messages_lost v.total_lost in
      let s3 = store s2 messages_processed (Processors.get_total_messages_processed v.processors) in
      let s4 = store s3 messages_delivered (Strategies.get_total_messages_delivered v.strategies) in
      store s4 ordering_violations (Strategies.get_total_ordering_violations v.strategies)

  unfoldable pub update_stats : ℕ → View → Stats → Stats
  unfolding store_depths store_totals
  update_stats k v s =
      store_depths k stage2_queue_depths 0 v.stage2_queues
        (store_depths k stage1_queue_depths 0 v.stage1_queues (store_totals v s))

  -- One turn of `monitor_loop`, and whether it prints a report.
  unfoldable pub turn : ℕ → ℕ → View → Monitor → Bool × Monitor
  unfolding update_stats
  turn k now v m =
      if leb 1000 (elapsed m.last_report_time now)
      then (true, record m { stats = update_stats k v m.stats; last_report_time = now })
      else (false, m)

  -- `monitor_loop` with the readings of the clock and of the rest of the system, one for each turn
  -- that begins before `running_` is found false: the times of the reports, and the monitor then.
  unfoldable pub monitor_loop : ℕ → List (ℕ × View) → Monitor → List ℕ × Monitor
  unfolding turn
  monitor_loop k [] m = ([], m)
  monitor_loop k ((now, v) ∷ rest) m =
      let (prints, m1) = turn k now v m in
      let (ts, m2) = monitor_loop k rest m1 in (reported prints now ts, m2)

  -- `reset_stats()`; the managers' `reset_all_stats()` is not the monitor's state.
  unfoldable pub reset_stats : ℕ → Monitor → Monitor
  reset_stats now m = record m { stats = reset m.stats; start_time = now; last_report_time = now }

  -- The verdict of `print_final_report`.
  unfoldable pub test_passed : Monitor → Bool
  test_passed m = load m.stats messages_lost == 0 && load m.stats ordering_violations == 0

-- `start`, `stop`, which does not join, `wait_for_completion` and the destructor: they work on the
-- flag and the thread only.
unfoldable pub start : Life → Fate Life
unfolding launch
start l = if l.running then returns l else launch (record l { running = true })

unfoldable pub stop : Life → Life
stop l = if l.running then record l { running = false } else l

unfoldable pub wait_for_completion : Life → Fate Life
unfolding join
wait_for_completion = join

unfoldable pub destroy : Life → Fate (Unit {0})
unfolding stop release
destroy l = release (stop l)
