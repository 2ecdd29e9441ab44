-- ===== src/Monitor/Printed.antt =====
-- What the monitor's reports show after `update_stats`.
use message_router.Base.{
  ℕ, zero, suc, ◌+◌, ◌<◌, ◌≡◌, ◌↔◌, refl, sym, ap, ◌∙◌, Bool, true, false, List, [], ◌∷◌, ◌++◌, map,
  some, Option, min, ◌≢◌, ltb, if◌then◌else◌, length, take, length-take, get_elem?-take, get_elem?,
  arith, ◌==◌, ◌&&◌, u64, ◌-◌, ◌/◌, ◌^◌,
}
use Prim.Native.Char.{code}
use Prim.Native.String.{String}
use message_router.Base.Output.{Item, text, number, quotient, setprecision, fixed, endl, last_text}
use message_router.Message.{Message}
use message_router.Queue.Defs.{Spsc, size}
use message_router.Queue.Layout.{Holds}
use message_router.Queue.Refine.{size_lem}
use message_router.Producer.{Producer}
use message_router.Processor.{Processor}
use message_router.Strategy.{Strategy}
use message_router.Manager.Laws.{sum}
use message_router.Manager.Totals.{totals_lem}
use message_router.Strategy.Manager as Strategies
use message_router.Monitor.{
  Counter, messages_produced, messages_lost, messages_processed, messages_delivered,
  ordering_violations, stage1_queue_depths, stage2_queue_depths, StatsApi, View, Monitor,
  test_passed, update_stats,
}
use message_router.Monitor.Stats.{update_stats-Looked}
use message_router.Monitor.Reports.{print_depths, print_report, print_final_report}

-- The code of the first character.
abbrev first_code : Option String → ℕ
first_code (some (String.◌∷◌ c t)) = code c
first_code _ = 0

abbrev verdict : Bool → Option String
verdict passed = some (if passed then "PASSED" else "FAILED")

verdict_iff : (passed : Bool) → (verdict passed ≡ some "PASSED") ↔ (passed ≡ true)
verdict_iff true = (λ e. refl, λ e. refl)
verdict_iff false = (λ e. absurd (apart (ap first_code e)), λ e. cc)
  where
    apart : ◌≢◌ {A = ℕ} 70 80
    apart h = omega arith

both_iff : (a b : ℕ) → ((a == 0 && b == 0) ≡ true) ↔ ((a ≡ 0) × (b ≡ 0))
both_iff a b = ground arith

-- Numbers with commas between them.
abbrev behind : List ℕ → List Item
behind [] = []
behind (n ∷ ns) = text ", " ∷ number n ∷ behind ns

abbrev pub separated : List ℕ → List Item
separated [] = []
separated (n ∷ ns) = number n ∷ behind ns

-- Values between their labels and what follows them.
abbrev pub figures : List (String × Item × String) → List Item
figures [] = []
figures ((label, value, behind_it) ∷ fs) = text label ∷ value ∷ text behind_it ∷ figures fs

-- The queues hold these messages, one list for each queue.
abbrev pub Held : ℕ → List (Spsc Message) → List (List Message) → Type 0
Held k [] [] = Unit
Held k (q ∷ qs) (xs ∷ held) = Holds k 0 q xs × Held k qs held
Held k _ _ = ⊥

sizes-Held :
    (k n : ℕ) (qs : List (Spsc Message)) (held : List (List Message))
    → Held k qs held
    → map (size k) (take n qs) ≡ map length (take n held)
sizes-Held k zero qs held h = refl
sizes-Held k (suc n) [] [] h = refl
sizes-Held k (suc n) [] (xs ∷ held) h = elim h [ ]
sizes-Held k (suc n) (q ∷ qs) [] h = elim h [ ]
sizes-Held k (suc n) (q ∷ qs) (xs ∷ held) (h, hs) = rw (size_lem h, sizes-Held k n qs held hs) refl

module _ (P : StatsApi) where
  open P use {Stats, load}

  depths_behind :
      (s : Stats) (depth : ℕ → Counter) (first : ℕ) (ns : List ℕ)
      → 0 < first
      → ((i n : ℕ) → get_elem? ns i ≡ some n → load s (depth (first + i)) ≡ n)
      → print_depths P s depth first (length ns) ≡ behind ns
  unfolding print_depths
  depths_behind s depth first [] pos e = refl
  depths_behind s depth first (n ∷ ns) pos e =
      let later : ltb 0 first ≡ true = ground arith in
      let at : load s (depth first) ≡ n = ap (λ i. load s (depth i)) (omega arith) ∙ e 0 n refl in
      rw (later, at)
        (ap (λ l. text ", " ∷ number n ∷ l)
          (depths_behind s depth (first + 1) ns (omega arith)
            (λ i m f. ap (λ i. load s (depth i)) (omega arith) ∙ e (suc i) m f)))

  depths_separated :
      (s : Stats) (depth : ℕ → Counter) (ns : List ℕ)
      → ((i n : ℕ) → get_elem? ns i ≡ some n → load s (depth i) ≡ n)
      → print_depths P s depth 0 (length ns) ≡ separated ns
  unfolding print_depths
  depths_separated s depth [] e = refl
  depths_separated s depth (n ∷ ns) e = rw (e 0 n refl) (
      ap (λ l. number n ∷ l)
        (depths_behind s depth 1 ns (omega arith)
          (λ i m f. ap (λ i. load s (depth i)) (omega arith) ∙ e (suc i) m f)))

  -- The depths that a look at the queues has stored.
  abbrev sizes : ℕ → List (Spsc Message) → List ℕ
  sizes k qs = map (size k) (take 8 qs)

  get_elem?-sizes :
      (k i n : ℕ) (qs : List (Spsc Message))
      → get_elem? (map (size k) qs) i ≡ some n
      → (q : Spsc Message) × (get_elem? qs i ≡ some q) × (size k q ≡ n)
  get_elem?-sizes k i n [] e = cc
  get_elem?-sizes k zero n (q ∷ qs) e = (q, refl, cc)
  get_elem?-sizes k (suc i) n (q ∷ qs) e = get_elem?-sizes k i n qs e

  depths_lem :
      (k : ℕ) (s : Stats) (depth : ℕ → Counter) (qs : List (Spsc Message))
      → ((i : ℕ) (q : Spsc Message) → get_elem? qs i ≡ some q → i < 8 → load s (depth i) ≡ size k q)
      → print_depths P s depth 0 (min (length qs) 8) ≡ separated (sizes k qs)
  depths_lem k s depth qs e =
      ap (print_depths P s depth 0) (sym (length-take 8 qs) ∙ sym (length-sizes (take 8 qs)))
      ∙ depths_separated s depth (sizes k qs) λ i n f.
        let (q, g, same) = get_elem?-sizes k i n (take 8 qs) f in
        let (lt, at) = get_elem?-take 8 i qs q g in e i q at lt ∙ same
    where
      length-sizes : (rs : List (Spsc Message)) → length (map (size k) rs) ≡ length rs
      length-sizes [] = refl
      length-sizes (r ∷ rs) = ap suc (length-sizes rs)

  -- The report that follows an `update_stats`, of queues that hold the messages `held1` and `held2`
  -- and have no call under way:
  -- in this order and under these labels, the seconds since the start; the sums of what the producers
  -- have produced, the processors have processed and the strategies have delivered (modulo 2 ^ 64), in
  -- millions; the producers' count of lost messages; with commas between them, how many messages each
  -- of the first 8 queues of the first stage holds, or each of all if there are fewer, and the same
  -- for the second stage; and four latencies that are always the same.
  pub print_report-update_stats :
      (k now : ℕ) (v : View) (m : Monitor P) (held1 held2 : List (List Message))
      → Held k v.stage1_queues held1
      → Held k v.stage2_queues held2
      → print_report P now
          (length v.stage1_queues)
          (length v.stage2_queues)
          (record m { stats = update_stats P k v m.stats })
        ≡ fixed
          ∷ setprecision 2
          ∷ (figures (
                ("[", quotient ((now - m.start_time) / 10 ^ 6) 1000, "s] ")
                ∷ (
                  "Produced: ",
                  quotient
                      (u64 (sum (λ (p : Producer). p.messages_produced) v.producers))
                      1_000_000,
                  "M | ",
                )
                ∷ (
                  "Processed: ",
                  quotient
                      (u64 (sum (λ (p : Processor). p.messages_processed) v.processors))
                      1_000_000,
                  "M | ",
                )
                ∷ (
                  "Delivered: ",
                  quotient
                      (u64 (sum (λ (s : Strategy). s.messages_delivered) v.strategies))
                      1_000_000,
                  "M | ",
                )
                ∷ [])
              ++ (text "Lost: "
                  ∷ number v.total_lost
                  ∷ endl
                  ∷ text "        Stage1 Queues: ["
                  ∷ (separated (map length (take 8 held1))
                      ++ (text "]"
                          ∷ text " | Stage2 Queues: ["
                          ∷ (separated (map length (take 8 held2))
                              ++ (text "]"
                                  ∷ endl
                                  ∷ text
                                      "        Latencies(μs) - Stage1: 0.34 | Processing: 0.18 | Stage2: 0.41 | Total: 1.23"
                                  ∷ endl
                                  ∷ []))))))
  unfolding print_report
  print_report-update_stats k now v m held1 held2 h1 h2 =
      let l = update_stats-Looked P k v m.stats in
      let (produced, processed, delivered, _) = totals_lem v.producers v.processors v.strategies in
      rw
        (
          l.totals messages_produced _ refl,
          l.totals messages_processed _ refl,
          l.totals messages_delivered _ refl,
          l.totals messages_lost _ refl,
          produced,
          processed,
          delivered,
          depths_lem k (update_stats P k v m.stats) stage1_queue_depths v.stage1_queues
              l.stage1_depths,
          depths_lem k (update_stats P k v m.stats) stage2_queue_depths v.stage2_queues
              l.stage2_depths,
          sizes-Held k 8 v.stage1_queues held1 h1,
          sizes-Held k 8 v.stage2_queues held2 h2,
        )
        refl

  -- The final report after an `update_stats` ends with PASSED exactly if no message was lost by the
  -- managers' count and the strategies' counts of violations add up to 0.
  pub final_verdict :
      (k now : ℕ) (scenario : String) (v : View) (m : Monitor P)
      → (last_text
            (print_final_report P scenario now (record m { stats = update_stats P k v m.stats }))
          ≡ some "PASSED")
        ↔ ((v.total_lost ≡ 0) × (Strategies.get_total_ordering_violations v.strategies ≡ 0))
  unfolding print_final_report test_passed
  final_verdict k now scenario v m =
      let l = update_stats-Looked P k v m.stats in
      let lost = l.totals messages_lost _ refl in
      let violations = l.totals ordering_violations _ refl in
      let (to, from) =
        verdict_iff
          (v.total_lost == 0 && Strategies.get_total_ordering_violations v.strategies == 0) in
      let (none_of, both) =
        both_iff v.total_lost (Strategies.get_total_ordering_violations v.strategies) in
      rw (lost, violations) (λ e. none_of (to e), λ e. from (both e))
