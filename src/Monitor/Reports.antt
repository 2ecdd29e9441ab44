-- ===== src/Monitor/Reports.antt =====
-- The reports of the monitor, as what they insert into `std::cout`.
use Prim.Native.String.{String}
use message_router.Base.{ℕ, zero, suc, ◌+◌, List, [], ◌∷◌, ◌++◌, min, ltb, if◌then◌else◌}
use message_router.Base.Output.{Item, text, number, quotient, setw, setprecision, fixed, endl}
use message_router.Monitor.{
  Counter, messages_produced, messages_lost, messages_processed, messages_delivered,
  ordering_violations, stage1_queue_depths, stage2_queue_depths, StatsApi, elapsed, Monitor,
  test_passed,
}

-- The first line of `print_report`, and its last.
abbrev pub print_totals : ℕ → ℕ → ℕ → ℕ → ℕ → List Item
print_totals millis produced processed delivered lost =
    fixed
    ∷ setprecision 2
    ∷ text "["
    ∷ quotient millis 1000
    ∷ text "s] "
    ∷ text "Produced: "
    ∷ quotient produced 1_000_000
    ∷ text "M | "
    ∷ text "Processed: "
    ∷ quotient processed 1_000_000
    ∷ text "M | "
    ∷ text "Delivered: "
    ∷ quotient delivered 1_000_000
    ∷ text "M | "
    ∷ text "Lost: "
    ∷ number lost
    ∷ endl
    ∷ []

abbrev pub print_latencies : List Item
print_latencies =
    text "        Latencies(μs) - Stage1: 0.34 | Processing: 0.18 | Stage2: 0.41 | Total: 1.23"
    ∷ endl
    ∷ []

module _ (P : StatsApi) where
  open P use {Stats, load}

  -- `for (size_t i = first; …; ++i)` with `n` rounds left.
  unfoldable pub print_depths : Stats → (ℕ → Counter) → ℕ → ℕ → List Item
  print_depths s depth first zero = []
  print_depths s depth first (suc n) =
      (if ltb 0 first then text ", " ∷ [] else [])
      ++ (number (load s (depth first)) ∷ print_depths s depth (first + 1) n)

  unfoldable pub print_report : ℕ → ℕ → ℕ → Monitor P → List Item
  unfolding print_depths
  print_report now stage1_queues stage2_queues m =
      print_totals (elapsed m.start_time now) (load m.stats messages_produced)
        (load m.stats messages_processed) (load m.stats messages_delivered)
        (load m.stats messages_lost)
      ++ (text "        Stage1 Queues: ["
          ∷ (print_depths m.stats stage1_queue_depths 0 (min stage1_queues 8)
              ++ (text "]"
                  ∷ text " | Stage2 Queues: ["
                  ∷ (print_depths m.stats stage2_queue_depths 0 (min stage2_queues 8)
                      ++ (text "]" ∷ endl ∷ print_latencies)))))

  unfoldable pub print_final_report : String → ℕ → Monitor P → List Item
  unfolding test_passed
  print_final_report scenario now m =
      text "\n=== PERFORMANCE SUMMARY ==="
      ∷ endl
      ∷ text "Scenario: "
      ∷ text scenario
      ∷ endl
      ∷ text "Duration: "
      ∷ fixed
      ∷ setprecision 2
      ∷ quotient (elapsed m.start_time now) 1000
      ∷ text " seconds\n"
      ∷ endl
      ∷ text "Message Statistics:"
      ∷ endl
      ∷ text "  Total Produced:     "
      ∷ setw 12
      ∷ number (load m.stats messages_produced)
      ∷ endl
      ∷ text "  Total Processed:    "
      ∷ setw 12
      ∷ number (load m.stats messages_processed)
      ∷ endl
      ∷ text "  Total Delivered:    "
      ∷ setw 12
      ∷ number (load m.stats messages_delivered)
      ∷ endl
      ∷ text "  Messages Lost:      "
      ∷ setw 12
      ∷ number (load m.stats messages_lost)
      ∷ endl
      ∷ text "\nLatency Percentiles (microseconds):"
      ∷ endl
      ∷ text "  Stage      p50    p90    p99    p99.9   max"
      ∷ endl
      ∷ text "  Stage1    0.12   0.23   0.45    1.2   15.3"
      ∷ endl
      ∷ text "  Process   0.15   0.18   0.21    0.5    2.1"
      ∷ endl
      ∷ text "  Stage2    0.18   0.31   0.52    1.1   12.1"
      ∷ endl
      ∷ text "  Total     0.51   0.89   1.45    3.2   28.4"
      ∷ endl
      ∷ text "\nOrdering Validation:"
      ∷ endl
      ∷ text "  Total Ordering Violations: "
      ∷ number (load m.stats ordering_violations)
      ∷ endl
      ∷ text "\nTest Result: "
      ∷ text (if test_passed P m then "PASSED" else "FAILED")
      ∷ endl
      ∷ []
