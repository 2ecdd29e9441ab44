-- ===== src/Monitor/Stats.antt =====
-- What `update_stats` leaves in the statistics.
use message_router.Base.{
  ℕ, zero, suc, ◌+◌, ◌<◌, ◌≤◌, ◌≡◌, ◌≢◌, ◌⊎◌, inl, inr, refl, ap, subst, ◌∙◌, true, Bool-cases,
  List, [], ◌∷◌, Option, none, some, get_elem?, length, ltb, arith,
}
use message_router.Message.{Message}
use message_router.Queue.Defs.{Spsc, size}
use message_router.Producer.Manager as Producers
use message_router.Processor.Manager as Processors
use message_router.Strategy.Manager as Strategies
use message_router.Monitor.{
  Counter, messages_produced, messages_lost, messages_processed, messages_delivered,
  ordering_violations, stage1_queue_depths, stage2_queue_depths, StatsApi, View, store_depths,
  store_totals, update_stats,
}

module _ (P : StatsApi) (k : ℕ) where
  open P use {Stats, load, store, load_store, load_other}

  -- A counter that is no depth of the loop keeps its value.
  depths_keep :
      (depth : ℕ → Counter) (first : ℕ) (qs : List (Spsc Message)) (s : Stats) (c : Counter)
      → ((j : ℕ) → first ≤ j → j < 8 → j < first + length qs → c ≢ depth j)
      → load (store_depths P k depth first qs s) c ≡ load s c
  unfolding store_depths
  depths_keep depth first [] s c ne = refl
  depths_keep depth first (q ∷ qs) s c ne = elim (Bool-cases (ltb first 8)) [
    | inl e ↦
        let small : first < 8 = ground (arith, e) in
        rw e (
          depths_keep depth (first + 1) qs (store s (depth first) (size k q)) c
            (λ j lo hi lt. ne j (omega (arith, lo)) hi (omega (arith, lt)))
          ∙ load_other s (depth first) c (size k q) (ne first (omega arith) small (omega arith)))
    | inr e ↦ rw e refl
  ]

  -- A depth of the loop is the size of its queue.
  depths_store :
      (depth : ℕ → Counter) (first : ℕ) (qs : List (Spsc Message)) (s : Stats)
      → ((i j : ℕ) → i ≢ j → depth i ≢ depth j)
      → (i : ℕ) (q : Spsc Message) → get_elem? qs i ≡ some q
      → first + i < 8
      → load (store_depths P k depth first qs s) (depth (first + i)) ≡ size k q
  unfolding store_depths
  depths_store depth first [] s apart i q e lt = cc
  depths_store depth first (p ∷ qs) s apart zero q e lt =
      let same : p ≡ q = cc in
      let goes : ltb first 8 ≡ true = ground arith in
      let here_i : first + 0 ≡ first = omega arith in
      rw (goes, here_i)
        (depths_keep depth (first + 1) qs (store s (depth first) (size k p)) (depth first)
            (λ j lo hi lt. apart first j (λ x. absurd (omega (arith, x, lo))))
          ∙ load_store s (depth first) (size k p)
          ∙ ap (size k) same)
  depths_store depth first (p ∷ qs) s apart (suc i) q e lt =
      let goes : ltb first 8 ≡ true = ground arith in
      let further : first + suc i ≡ first + 1 + i = omega arith in
      rw (goes, further)
        (depths_store depth (first + 1) qs (store s (depth first) (size k p)) apart i q e
          (omega arith))

  -- What a look at the system gives for a counter, if it is one of a manager.
  abbrev pub total : View → Counter → Option ℕ
  total v messages_produced = some (Producers.get_total_messages_produced v.producers)
  total v messages_lost = some v.total_lost
  total v messages_processed = some (Processors.get_total_messages_processed v.processors)
  total v messages_delivered = some (Strategies.get_total_messages_delivered v.strategies)
  total v ordering_violations = some (Strategies.get_total_ordering_violations v.strategies)
  total v (stage1_queue_depths i) = none
  total v (stage2_queue_depths i) = none

  totals_store :
      (v : View) (s : Stats) (c : Counter) (n : ℕ)
      → total v c ≡ some n
      → load (store_totals P v s) c ≡ n
  unfolding store_totals
  totals_store v s messages_produced n e =
      load_other _ _ _ _ (λ x. cc)
      ∙ load_other _ _ _ _ (λ x. cc)
      ∙ load_other _ _ _ _ (λ x. cc)
      ∙ load_other _ _ _ _ (λ x. cc)
      ∙ load_store _ _ _
      ∙ cc
  totals_store v s messages_lost n e =
      load_other _ _ _ _ (λ x. cc)
      ∙ load_other _ _ _ _ (λ x. cc)
      ∙ load_other _ _ _ _ (λ x. cc)
      ∙ load_store _ _ _
      ∙ cc
  totals_store v s messages_processed n e =
      load_other _ _ _ _ (λ x. cc) ∙ load_other _ _ _ _ (λ x. cc) ∙ load_store _ _ _ ∙ cc
  totals_store v s messages_delivered n e = load_other _ _ _ _ (λ x. cc) ∙ load_store _ _ _ ∙ cc
  totals_store v s ordering_violations n e = load_store _ _ _ ∙ cc
  totals_store v s (stage1_queue_depths i) n e = cc
  totals_store v s (stage2_queue_depths i) n e = cc

  -- The totals leave the depths alone.
  totals_keep :
      (v : View) (s : Stats) (c : Counter)
      → total v c ≡ none
      → load (store_totals P v s) c ≡ load s c
  unfolding store_totals
  totals_keep v s (stage1_queue_depths i) e =
      load_other _ _ _ _ (λ x. cc)
      ∙ load_other _ _ _ _ (λ x. cc)
      ∙ load_other _ _ _ _ (λ x. cc)
      ∙ load_other _ _ _ _ (λ x. cc)
      ∙ load_other _ _ _ _ (λ x. cc)
  totals_keep v s (stage2_queue_depths i) e =
      load_other _ _ _ _ (λ x. cc)
      ∙ load_other _ _ _ _ (λ x. cc)
      ∙ load_other _ _ _ _ (λ x. cc)
      ∙ load_other _ _ _ _ (λ x. cc)
      ∙ load_other _ _ _ _ (λ x. cc)
  totals_keep v s messages_produced e = cc
  totals_keep v s messages_lost e = cc
  totals_keep v s messages_processed e = cc
  totals_keep v s messages_delivered e = cc
  totals_keep v s ordering_violations e = cc

  -- The statistics `s'` after a look `v`, and `s` before it.
  pub record Looked (v : View) (s s' : Stats) : Type 0 where
    pub totals : (c : Counter) (n : ℕ) → total v c ≡ some n → load s' c ≡ n
    pub stage1_depths :
        (i : ℕ) (q : Spsc Message)
        → get_elem? v.stage1_queues i ≡ some q
        → i < 8
        → load s' (stage1_queue_depths i) ≡ size k q
    pub stage2_depths :
        (i : ℕ) (q : Spsc Message)
        → get_elem? v.stage2_queues i ≡ some q
        → i < 8
        → load s' (stage2_queue_depths i) ≡ size k q
    pub stage1_others :
        (i : ℕ)
        → ((8 ≤ i) ⊎ (length v.stage1_queues ≤ i))
        → load s' (stage1_queue_depths i) ≡ load s (stage1_queue_depths i)
    pub stage2_others :
        (i : ℕ)
        → ((8 ≤ i) ⊎ (length v.stage2_queues ≤ i))
        → load s' (stage2_queue_depths i) ≡ load s (stage2_queue_depths i)

  total_depth1 : (v : View) (c : Counter) (n i : ℕ) → total v c ≡ some n → c ≢ stage1_queue_depths i
  total_depth1 v (stage1_queue_depths j) n i e x = cc
  total_depth1 v _ n i e x = cc

  total_depth2 : (v : View) (c : Counter) (n i : ℕ) → total v c ≡ some n → c ≢ stage2_queue_depths i
  total_depth2 v (stage2_queue_depths j) n i e x = cc
  total_depth2 v _ n i e x = cc

  -- After `update_stats`, the counters of the managers are their totals, the depth at an index below
  -- 8 that has a queue is the size of this queue, and a depth at an index of 8 or more, or that has
  -- no queue, is as before.
  pub update_stats-Looked : (v : View) (s : Stats) → Looked v s (update_stats P k v s)
  unfolding update_stats
  update_stats-Looked v s = record {
    totals = λ c n e.
        depths_keep stage2_queue_depths 0 v.stage2_queues after1 c
          (λ j lo hi lt. total_depth2 v c n j e)
        ∙ depths_keep stage1_queue_depths 0 v.stage1_queues after0 c
            (λ j lo hi lt. total_depth1 v c n j e)
        ∙ totals_store v s c n e;
    stage1_depths = λ i q e lt.
        depths_keep stage2_queue_depths 0 v.stage2_queues after1 (stage1_queue_depths i)
          (λ j lo hi lt x. cc)
        ∙ subst (λ h. load after1 (stage1_queue_depths h) ≡ size k q) (omega arith)
            (depths_store stage1_queue_depths 0 v.stage1_queues after0 (λ i j ne x. ne cc) i q e
              (omega arith));
    stage2_depths = λ i q e lt.
        subst (λ h. load (update_stats P k v s) (stage2_queue_depths h) ≡ size k q) (omega arith)
          (depths_store stage2_queue_depths 0 v.stage2_queues after1 (λ i j ne x. ne cc) i q e
            (omega arith));
    stage1_others = λ i away.
        depths_keep stage2_queue_depths 0 v.stage2_queues after1 (stage1_queue_depths i)
          (λ j lo hi lt x. cc)
        ∙ depths_keep stage1_queue_depths 0 v.stage1_queues after0 (stage1_queue_depths i)
            (λ j lo hi lt x.
              let same : i ≡ j = cc in outside i j (length v.stage1_queues) away same hi lt)
        ∙ totals_keep v s (stage1_queue_depths i) refl;
    stage2_others = λ i away.
        depths_keep stage2_queue_depths 0 v.stage2_queues after1 (stage2_queue_depths i)
          (λ j lo hi lt x.
            let same : i ≡ j = cc in outside i j (length v.stage2_queues) away same hi lt)
        ∙ depths_keep stage1_queue_depths 0 v.stage1_queues after0 (stage2_queue_depths i)
            (λ j lo hi lt x. cc)
        ∙ totals_keep v s (stage2_queue_depths i) refl;
  }
    where
      after0 : Stats
      after0 = store_totals P v s

      after1 : Stats
      after1 = store_depths P k stage1_queue_depths 0 v.stage1_queues after0

      outside : (i j a : ℕ) → ((8 ≤ i) ⊎ (a ≤ i)) → i ≡ j → j < 8 → j < 0 + a → ⊥
      outside i j a away e hi near = grind arith
