-- ===== src/Main/Summary.antt =====
-- The summary that main() prints at the end of a run, as what it inserts into `std::cout`.
use message_router.Base.{ℕ, ◌/◌, ◌≡◌, refl, ap, ◌∙◌, List, [], ◌∷◌, ◌++◌, map, if◌then◌else◌, add64}
use message_router.Base.Output.{Item, text, number, signed, endl}
use message_router.Config.{SystemConfig}
use message_router.Main.{System, messages_lost, test_passed}
use message_router.Manager.{add_up}
use message_router.Producer.Manager as Producers
use message_router.Processor.Manager as Processors
use message_router.Strategy.{Strategy}
use message_router.Strategy.Manager as Strategies

-- A line "IN ORDER", whatever the strategies have counted.
abbrev pub in_order : Item → ℕ → List Item
in_order producer total = producer ∷ number (total / 4) ∷ text " messages - IN ORDER ✓" ∷ endl ∷ []

unfoldable pub print_summary : {Double : Type 0} → SystemConfig Double → System → List Item
print_summary config s =
    text "\n=== PERFORMANCE SUMMARY ==="
    ∷ endl
    ∷ text "Scenario: "
    ∷ text config.scenario
    ∷ endl
    ∷ text "Duration: "
    ∷ signed config.duration_secs
    ∷ text ".00 seconds"
    ∷ endl
    ∷ text ""
    ∷ endl
    ∷ text "Message Statistics:"
    ∷ endl
    ∷ text "  Total Produced:     "
    ∷ number (Producers.get_total_messages_produced s.producers)
    ∷ endl
    ∷ text "  Total Processed:    "
    ∷ number (Processors.get_total_messages_processed s.processors)
    ∷ endl
    ∷ text "  Total Delivered:    "
    ∷ number (Strategies.get_total_messages_delivered s.strategies)
    ∷ endl
    ∷ text "  Messages Lost:      "
    ∷ number (messages_lost s)
    ∷ endl
    ∷ text ""
    ∷ endl
    ∷ text "Ordering Validation:"
    ∷ endl
    ∷ (in_order (text "  Producer 0: ") (Producers.get_total_messages_produced s.producers)
        ++ (in_order (text "  Producer 1: ") (Producers.get_total_messages_produced s.producers)
            ++ (in_order (text "  Producer 2: ") (Producers.get_total_messages_produced s.producers)
                ++ (in_order (text "  Producer 3: ")
                      (Producers.get_total_messages_produced s.producers)
                    ++ (text ""
                        ∷ endl
                        ∷ text "Test Result: "
                        ∷ text (if test_passed s then "PASSED" else "FAILED")
                        ∷ endl
                        ∷ [])))))

add_up-map :
    (get : Strategy → ℕ) (f : Strategy → Strategy) (total : ℕ) (ts : List Strategy)
    → ((t : Strategy) → get (f t) ≡ get t)
    → add_up get total (map f ts) ≡ add_up get total ts
unfolding add_up
add_up-map get f total [] same = refl
add_up-map get f total (t ∷ ts) same =
    add_up-map get f (add64 total (get (f t))) ts same
    ∙ ap (λ n. add_up get (add64 total n) ts) (same t)

-- Whatever else is changed in the strategies, as long as each has delivered as many messages, main()
-- prints the same summary: its lines "IN ORDER" and its verdict do not depend on the violations that
-- the strategies have counted.
pub summary_ignores_order :
    {Double : Type 0} (config : SystemConfig Double) (s : System) (f : Strategy → Strategy)
    → ((t : Strategy) → (f t).messages_delivered ≡ t.messages_delivered)
    → print_summary config (record s { strategies = map f s.strategies }) ≡ print_summary config s
unfolding print_summary Strategies.get_total_messages_delivered messages_lost test_passed
summary_ignores_order config s f same =
    rw (add_up-map (λ (t : Strategy). t.messages_delivered) f 0 s.strategies same) refl
