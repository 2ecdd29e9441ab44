-- ===== src/Monitor/Tests.antt =====
-- A monitor whose statistics are a function.
use native.Mathlib.Decide.{ℕ_discrete}
use message_router.Base.{
  ℕ, ◌*◌, ◌/◌, ◌^◌, ◌≡◌, ◌↔◌, refl, List, [], ◌∷◌, ◌++◌, some, arith, map, leb, if◌then◌else◌,
}
use message_router.Lifecycle.{fresh, terminates, starts, stops}
use message_router.Samples.{msg}
use message_router.Queue.Defs.{init, try_push}
use message_router.Monitor.{
  Counter, StatsApi, View, Monitor, new_monitor, update_stats, monitor_loop,
}
use message_router.Monitor.Stats.{Looked, update_stats-Looked}
use message_router.Base.Output.{text, number, quotient, setprecision, fixed, endl, last_text}
use message_router.Queue.Fifo
use message_router.Producer.{new_producer}
use message_router.Processor.{new_processor}
use message_router.Strategy.{new_strategy}
use message_router.Queue.Refine.{init-Holds, push_refines}
use message_router.Strategy.Manager as Strategies
use message_router.Monitor.Reports.{print_report, print_final_report}
use message_router.Monitor.Printed.{
  Held, figures, separated, print_report-update_stats, final_verdict,
}
use message_router.Monitor.Pace.{Timed, monitor_loop-Timed}
use message_router.Monitor.Unwaited.{use_monitor, Unwaited-terminates}
use message_router.Monitor.Percentiles.{calculate_percentiles, Nth, percentiles_lem}

Counter-discrete : Discrete Counter
Counter-discrete = hlevel (ℕ_discrete)

abbrev table : StatsApi
table = record {
  Stats = Counter → ℕ;
  load = λ s c. s c;
  store = λ s c v d. elim (Counter-discrete d c) [ yes e ↦ v | no ne ↦ s d ];
  reset = λ s c. 0;
  load_store = λ s c v.
      elim (Counter-discrete c c) as (λ b. elim b as (λ _. ℕ) [ yes e ↦ v | no ne ↦ s c ] ≡ v) [
        | yes e ↦ refl
        | no ne ↦ absurd (ne refl)
      ];
  load_other = λ s c d v away.
      elim (Counter-discrete d c) as (λ b. elim b as (λ _. ℕ) [ yes e ↦ v | no ne ↦ s d ] ≡ s d) [
        | yes e ↦ absurd (away e)
        | no ne ↦ refl
      ];
}

abbrev nothing : Counter → ℕ
nothing c = 0

-- No components, and one queue with a message.
abbrev view : View
view = record {
  producers = [];
  total_lost = 2;
  processors = [];
  strategies = [];
  stage1_queues = (try_push 2 (init 2 (msg 0 0 0)) (msg 0 0 1)).1 ∷ [];
  stage2_queues = [];
}

update_stats-Looked_example : Looked table 2 view nothing (update_stats table 2 view nothing)
update_stats-Looked_example = update_stats-Looked table 2 view nothing

-- Half a second, one second and one and a half after the start.
abbrev readings : List (ℕ × View)
readings = (5 * 10 ^ 8, view) ∷ (10 ^ 9, view) ∷ (15 * 10 ^ 8, view) ∷ []

abbrev new : Monitor table
new = new_monitor table nothing 0

monitor_loop-Timed_example :
    Timed new.last_report_time
      (map (λ r. r.0) readings)
      (monitor_loop table 2 readings new).0
      (monitor_loop table 2 readings new).1.last_report_time
monitor_loop-Timed_example = monitor_loop-Timed table 2 readings new

Unwaited-terminates_example : use_monitor (starts ∷ stops ∷ []) fresh ≡ terminates
Unwaited-terminates_example = Unwaited-terminates (starts ∷ stops ∷ []) tt refl

-- Insertion sort.
abbrev put : ℕ → List ℕ → List ℕ
put x [] = x ∷ []
put x (y ∷ ys) = let rest = put x ys in if leb x y then x ∷ y ∷ ys else y ∷ rest

abbrev sort : List ℕ → List ℕ
sort [] = []
sort (x ∷ xs) = put x (sort xs)

abbrev scale : ℕ → ℕ → ℕ
scale n q = n * q / 1000

abbrev latencies : List ℕ
latencies = 30 ∷ 10 ∷ 20 ∷ []

percentiles_lem_example :
    (a : ℕ) × (b : ℕ) × (c : ℕ) × (d : ℕ) × (calculate_percentiles sort scale latencies
      ≡ some (a, b, c, d))
    × Nth latencies 1 a
    × Nth latencies 2 b
    × Nth latencies 2 c
    × Nth latencies 2 d
percentiles_lem_example =
    percentiles_lem sort scale latencies (omega arith) (λ p. omega arith) (λ e. cc)
      (λ q. omega arith)

-- The same queues, and a component of each kind that has counted.
abbrev busy : View
busy = record view {
  producers = record (new_producer 0) { messages_produced = 5 } ∷ [];
  processors = record (new_processor 0) { messages_processed = 4 } ∷ [];
  strategies = record (new_strategy 0) { messages_delivered = 3 } ∷ [];
}

view-Held : Held 2 view.stage1_queues ((msg 0 0 1 ∷ []) ∷ [])
unfolding Fifo.push
view-Held = ((push_refines (msg 0 0 1) (init-Holds 2 (msg 0 0 0) (omega arith))).1, tt)

-- The report after a look.
print_report-update_stats_example :
    print_report table (10 ^ 9) 1 0 (record new { stats = update_stats table 2 busy nothing })
    ≡ fixed
      ∷ setprecision 2
      ∷ (figures (
            ("[", quotient 1000 1000, "s] ")
            ∷ ("Produced: ", quotient 5 1_000_000, "M | ")
            ∷ ("Processed: ", quotient 4 1_000_000, "M | ")
            ∷ ("Delivered: ", quotient 3 1_000_000, "M | ")
            ∷ [])
          ++ (text "Lost: "
              ∷ number 2
              ∷ endl
              ∷ text "        Stage1 Queues: ["
              ∷ (separated (1 ∷ [])
                  ++ (text "]"
                      ∷ text " | Stage2 Queues: ["
                      ∷ (separated []
                          ++ (text "]"
                              ∷ endl
                              ∷ text
                                  "        Latencies(μs) - Stage1: 0.34 | Processing: 0.18 | Stage2: 0.41 | Total: 1.23"
                              ∷ endl
                              ∷ []))))))
unfolding new_monitor
print_report-update_stats_example =
    print_report-update_stats table 2 (10 ^ 9) busy new ((msg 0 0 1 ∷ []) ∷ []) [] view-Held tt

final_verdict_example :
    (last_text (
        print_final_report table "baseline"
          (10 ^ 9)
          (record new { stats = update_stats table 2 view nothing }))
      ≡ some "PASSED")
    ↔ ((◌≡◌ {A = ℕ} 2 0) × (Strategies.get_total_ordering_violations [] ≡ 0))
unfolding new_monitor
final_verdict_example = final_verdict table 2 (10 ^ 9) "baseline" view new
