-- ===== src/Main/Waiting.antt =====
-- The loop of main() that waits for the end of the run.
use native.Mathlib.Decide.{ℕ_discrete}
use message_router.Base.{
  ℕ, zero, suc, ◌+◌, ◌*◌, ◌^◌, ◌≤◌, ◌≡◌, refl, Bool, true, false, some, inl, inr, arith, ◌<◌, ◌⊎◌,
  subst, Bool-cases, ltb, le→ltb, if◌then◌else◌,
}
use message_router.Main.{wait_loop}

-- Each turn sleeps for 100 ms at least.
abbrev pub Sleeps : (ℕ → ℕ) → Type 0
Sleeps elapsed = (n : ℕ) → elapsed n + 10 ^ 8 ≤ elapsed (suc n)

elapsed_at : (elapsed : ℕ → ℕ) (n : ℕ) → Sleeps elapsed → n * 10 ^ 8 ≤ elapsed n
elapsed_at elapsed zero s = omega arith
elapsed_at elapsed (suc n) s =
    let step : elapsed n + 10 ^ 8 ≤ elapsed (suc n) = s n in
    let before : n * 10 ^ 8 ≤ elapsed n = elapsed_at elapsed n s in omega (arith, step, before)

-- The loop, begun at `turn`, ends at `k`: the first turn at which `g_running` is false or the time
-- is over.
pub record EndsAt (is_running : ℕ → Bool) (elapsed : ℕ → ℕ) (duration turn k : ℕ) : Type 0 where
  pub at_end : (is_running k ≡ false) ⊎ (duration * 10 ^ 9 ≤ elapsed k)
  pub before : (j : ℕ) → turn ≤ j → j < k → (is_running j ≡ true) × (elapsed j < duration * 10 ^ 9)

module _ (is_running : ℕ → Bool) (elapsed : ℕ → ℕ) (duration : ℕ) where
  -- It ends at once.
  EndsAt-now :
      (turn : ℕ)
      → ((is_running turn ≡ false) ⊎ (duration * 10 ^ 9 ≤ elapsed turn))
      → EndsAt is_running elapsed duration turn turn
  EndsAt-now turn e = record { at_end = e; before = λ j lo hi. absurd (omega arith) }

  -- It goes on.
  EndsAt-later :
      (turn k : ℕ)
      → is_running turn ≡ true
      → elapsed turn < duration * 10 ^ 9
      → EndsAt is_running elapsed duration (turn + 1) k
      → EndsAt is_running elapsed duration turn k
  EndsAt-later turn k on early v = record {
    at_end = v.at_end;
    before = λ j lo hi. elim (ℕ_discrete turn j) [
      | yes e ↦ subst (λ h. (is_running h ≡ true) × (elapsed h < duration * 10 ^ 9)) e (on, early)
      | no ne ↦ v.before j (omega arith) hi
    ];
  }

  ends_from :
      (left turn : ℕ)
      → Sleeps elapsed
      → left + turn ≡ 10 * duration
      → (k : ℕ) × (wait_loop is_running elapsed duration (suc left) turn ≡ some k)
        × (k ≤ 10 * duration)
        × EndsAt is_running elapsed duration turn k
  unfolding wait_loop
  ends_from zero turn s e =
      let over : duration * 10 ^ 9 ≤ elapsed turn = omega (arith, elapsed_at elapsed turn s) in
      (
        turn,
        rw (le→ltb (elapsed turn) (duration * 10 ^ 9) over)
            (elim (is_running turn) as (λ b. (if b then some turn else some turn) ≡ some turn) [
              | true ↦ refl
              | false ↦ refl
            ]),
        omega arith,
        EndsAt-now turn (inr over),
      )
  ends_from (suc left) turn s e =
      let (k, found, le, v) = ends_from left (turn + 1) s (omega arith) in
      elim (Bool-cases (is_running turn)) [
        | inr stopped ↦ (turn, rw stopped refl, omega arith, EndsAt-now turn (inl stopped))
        | inl on ↦ elim (Bool-cases (ltb (elapsed turn) (duration * 10 ^ 9))) [
          | inl early ↦
              (k, rw (on, early) found, le, EndsAt-later turn k on (ground (arith, early)) v)
          | inr after ↦ (
            turn,
            rw (on, after) refl,
            omega arith,
            EndsAt-now turn (inr (ground (arith, after))),
          )
        ]
      ]

-- With sleeps of 100 ms or more, main() leaves its waiting loop, after at most 10 turns for each
-- second of the duration and one more: at the first turn at which a signal has come or the duration
-- is over.
pub wait_loop_ends :
    (is_running : ℕ → Bool) (elapsed : ℕ → ℕ) (duration : ℕ)
    → Sleeps elapsed
    → (k : ℕ) × (wait_loop is_running elapsed duration (suc (10 * duration)) 0 ≡ some k)
      × (k ≤ 10 * duration)
      × EndsAt is_running elapsed duration 0 k
wait_loop_ends is_running elapsed duration s =
    ends_from is_running elapsed duration (10 * duration) 0 s (omega arith)
