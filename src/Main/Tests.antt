-- ===== src/Main/Tests.antt =====
-- main() with configs/baseline.json.
use message_router.Base.{
  refl, ◌<◌, ◌==◌, ◌≢◌, ◌⊎◌, if◌then◌else◌, List, [], ◌∷◌, map, ℕ, ◌*◌, ◌^◌, ◌≡◌, ◌≤◌, some, arith,
}
use message_router.Samples.{baseline, small_queue}
use message_router.Config.{validate}
use message_router.Lifecycle.{returns}
use message_router.Main.{make_system, main, wait_loop}
use message_router.Main.Exit.{built, accepts, make_system_lem, main_lem}
use message_router.Strategy.{Strategy}
use message_router.Main.Summary.{print_summary, summary_ignores_order}
use message_router.Main.Signals.{running_at, waiting_ends}

make_system_lem_example : make_system small_queue baseline ≡ some (built small_queue baseline)
make_system_lem_example = make_system_lem small_queue baseline

main_lem_example : main small_queue 2 (some baseline) (λ s. s) ≡ some (returns 0)
unfolding accepts validate
main_lem_example = main_lem small_queue 2 (some baseline) (λ s. s) (λ s v. v)

-- The clock gains 150 ms with each turn, and SIGINT arrives before the fourth test.
abbrev interrupted : ℕ → List ℕ
interrupted n = if n == 3 then 2 ∷ [] else []

waiting_ends_example :
    (k : ℕ) × (wait_loop (running_at interrupted) (λ n. n * (15 * 10 ^ 7)) 10 101 0 ≡ some k)
    × (k ≤ 100)
    × (((j : ℕ) × (j ≤ k) × (interrupted j ≢ [])) ⊎ (10 * 10 ^ 9 ≤ k * (15 * 10 ^ 7)))
    × ((j : ℕ) → j < k → (interrupted j ≡ []) × (j * (15 * 10 ^ 7) < 10 * 10 ^ 9))
waiting_ends_example = waiting_ends interrupted (λ n. n * (15 * 10 ^ 7)) 10 (λ n. omega arith)

-- All strategies report violations.
abbrev suspicious : Strategy → Strategy
suspicious t = record t { ordering_violations = 7 }

summary_ignores_order_example :
    print_summary baseline (record (built small_queue baseline) {
      strategies = map suspicious (built small_queue baseline).strategies;
    })
    ≡ print_summary baseline (built small_queue baseline)
summary_ignores_order_example =
    summary_ignores_order baseline (built small_queue baseline) suspicious (λ t. refl)
