-- ===== src/Monitor/Pace.antt =====
-- When `monitor_loop` reports.
use message_router.Base.{
  ℕ, ◌+◌, ◌*◌, ◌^◌, ◌<◌, ◌≤◌, ◌≡◌, ◌⊎◌, map, refl, Bool-cases, List, [], ◌∷◌, length, leb, inl, inr,
  arith,
}
use message_router.Monitor.{
  StatsApi, View, Monitor, elapsed, turn, reported, update_stats, monitor_loop,
}

-- Each time is a second or more after the one before it, the first after `last`.
abbrev pub Paced : ℕ → List ℕ → Type 0
Paced last [] = Unit
Paced last (t ∷ ts) = (last + 10 ^ 9 ≤ t) × Paced t ts

-- The turns that print nothing are less than a second after the report before them; `last` is the
-- time of that report, and the list has the times of the turns.
abbrev pub Prompt : ℕ → List ℕ → List ℕ → Type 0
Prompt last [] ts = ts ≡ []
Prompt last (now ∷ rest) [] = (now < last + 10 ^ 9) × Prompt last rest []
Prompt last (now ∷ rest) (t ∷ ts) =
    ((t ≡ now) × Prompt now rest ts) ⊎ ((now < last + 10 ^ 9) × Prompt last rest (t ∷ ts))

-- The time of the last report.
abbrev pub latest : ℕ → List ℕ → ℕ
latest last [] = last
latest last (t ∷ ts) = latest t ts

elapsed_le : (last now : ℕ) → 1000 ≤ elapsed last now → last + 10 ^ 9 ≤ now
elapsed_le last now h = omega (arith, h)

elapsed_lt : (last now : ℕ) → elapsed last now < 1000 → now < last + 10 ^ 9
elapsed_lt last now h = omega (arith, h)

Paced-latest : (last : ℕ) (ts : List ℕ) → Paced last ts → last + 10 ^ 9 * length ts ≤ latest last ts
Paced-latest last [] p = omega arith
Paced-latest last (t ∷ ts) p = omega (arith, p.0, Paced-latest t ts p.1)

-- The times of the turns `turns` and of the reports `ts`, and that of the last report.
pub record Timed (last : ℕ) (turns ts : List ℕ) (after : ℕ) : Type 0 where
  pub paced : Paced last ts
  pub prompt : Prompt last turns ts
  pub last_report : after ≡ latest last ts
  pub rare : last + 10 ^ 9 * length ts ≤ after

skip :
    (last now : ℕ) (turns ts : List ℕ)
    → now < last + 10 ^ 9
    → Prompt last turns ts
    → Prompt last (now ∷ turns) ts
skip last now turns [] lt p = (lt, p)
skip last now turns (t ∷ ts) lt p = inr (lt, p)

module _ (P : StatsApi) (k : ℕ) where
  reported-Timed :
      (now : ℕ) (v : View) (turns : List ℕ) (m : Monitor P) (loop : Monitor P → List ℕ × Monitor P)
      → ((m1 : Monitor P)
          → Timed m1.last_report_time turns (loop m1).0 (loop m1).1.last_report_time)
      → Timed m.last_report_time
          (now ∷ turns)
          (reported (turn P k now v m).0 now (loop (turn P k now v m).1).0)
          (loop (turn P k now v m).1).1.last_report_time
  unfolding turn
  reported-Timed now v turns m loop rest =
      elim (Bool-cases (leb 1000 (elapsed m.last_report_time now))) [
        | inl e ↦
            let far = elapsed_le m.last_report_time now (ground (arith, e)) in
            let r =
              rest (record m { stats = update_stats P k v m.stats; last_report_time = now }) in
            rw e (record {
              paced = (far, r.paced);
              prompt = inl (refl, r.prompt);
              last_report = r.last_report;
              rare = omega (arith, far, r.rare);
            })
        | inr e ↦
            let near = elapsed_lt m.last_report_time now (ground (arith, e)) in
            let r = rest m in
            rw e (record {
              paced = r.paced;
              prompt = skip m.last_report_time now turns (loop m).0 near r.prompt;
              last_report = r.last_report;
              rare = r.rare;
            })
      ]

  -- In `monitor_loop`, whatever the clock reads: the first report is at least one second after the
  -- `last_report_time_` with which the loop begins, and each later one at least one second after the
  -- one before it. So there are at most as many reports as whole seconds from that first time to the
  -- last report. Each turn that prints none is less than a second after the report before it, or
  -- after that first time if there is none. In the end `last_report_time_` is the time of the last
  -- report, or as it was if there is none.
  pub monitor_loop-Timed :
      (readings : List (ℕ × View)) (m : Monitor P)
      → Timed m.last_report_time
          (map (λ r. r.0) readings)
          (monitor_loop P k readings m).0
          (monitor_loop P k readings m).1.last_report_time
  unfolding monitor_loop
  monitor_loop-Timed [] m = record {
    paced = tt;
    prompt = refl;
    last_report = refl;
    rare = omega arith;
  }
  monitor_loop-Timed ((now, v) ∷ rest) m =
      reported-Timed now v (map (λ r. r.0) rest) m (monitor_loop P k rest) (monitor_loop-Timed rest)
