-- ===== src/Main/Signals.antt =====
-- `g_running`, which the signal handler clears, and the loop of main() that waits for it or for the
-- end of the duration.
use native.Mathlib.Decide.{ℕ_discrete}
use message_router.Base.{
  ℕ, zero, suc, ◌*◌, ◌^◌, ◌≤◌, ◌<◌, ◌≡◌, ◌≢◌, ◌⊎◌, inl, inr, refl, Bool, true, false, List, [], ◌∷◌,
  some, arith,
}
use message_router.Main.{wait_loop}
use message_router.Main.Waiting.{Sleeps, wait_loop_ends}

-- What is left in `g_running` by a signal; the handler's line of output is left out.
unfoldable pub signal_handler : ℕ → Bool → Bool
signal_handler signal g_running = false

-- The signals (SIGINT or SIGTERM) that arrive, one after the other.
unfoldable pub deliver : List ℕ → Bool → Bool
unfolding signal_handler
deliver [] g_running = g_running
deliver (signal ∷ signals) g_running = deliver signals (signal_handler signal g_running)

-- What the loop's test loads at a turn: `signals n` arrive between the tests of the turns `n - 1` and
-- `n`, `signals 0` before the first.
unfoldable pub running_at : (ℕ → List ℕ) → ℕ → Bool
unfolding deliver
running_at signals zero = deliver (signals 0) true
running_at signals (suc n) = deliver (signals (suc n)) (running_at signals n)

deliver-false : (signals : List ℕ) → deliver signals false ≡ false
unfolding deliver signal_handler
deliver-false [] = refl
deliver-false (signal ∷ signals) = deliver-false signals

deliver-true :
    (signals : List ℕ) (on : Bool) → deliver signals on ≡ true → (signals ≡ []) × (on ≡ true)
unfolding deliver signal_handler
deliver-true [] on e = (refl, e)
deliver-true (signal ∷ signals) on e = absurd (let off = deliver-false signals in cc)

deliver_stopped :
    (signals : List ℕ) (on : Bool) → deliver signals on ≡ false → (signals ≢ []) ⊎ (on ≡ false)
unfolding deliver
deliver_stopped [] on e = inr e
deliver_stopped (signal ∷ signals) on e = inl (λ x. cc)

-- The flag is up as long as no signal has arrived.
running_none :
    (signals : ℕ → List ℕ) (n : ℕ) → running_at signals n ≡ true → (j : ℕ) → j ≤ n → signals j ≡ []
unfolding running_at
running_none signals zero e zero le = (deliver-true (signals 0) true e).0
running_none signals zero e (suc j) le = absurd (omega arith)
running_none signals (suc n) e j le =
    let (now, before) = deliver-true (signals (suc n)) (running_at signals n) e in
    elim (ℕ_discrete j (suc n)) [
      | yes same ↦ rw same now
      | no ne ↦ running_none signals n before j (omega arith)
    ]

running_some :
    (signals : ℕ → List ℕ) (n : ℕ)
    → running_at signals n ≡ false
    → (j : ℕ) × (j ≤ n) × (signals j ≢ [])
unfolding running_at
running_some signals zero e = elim (deliver_stopped (signals 0) true e) [
  | inl some_now ↦ (0, omega arith, some_now)
  | inr off ↦ cc
]
running_some signals (suc n) e = elim (deliver_stopped (signals (suc n)) (running_at signals n) e) [
  | inl some_now ↦ (suc n, omega arith, some_now)
  | inr off ↦ let (j, le, arrived) = running_some signals n off in (j, omega arith, arrived)
]

-- With sleeps of 100 ms or more, whatever signals arrive: main() leaves its waiting loop after at
-- most 10 turns for each second of the duration and one more. When it leaves, a signal has arrived or
-- the duration is over; at each turn before, no signal had arrived and the duration was not over.
pub waiting_ends :
    (signals : ℕ → List ℕ) (elapsed : ℕ → ℕ) (duration : ℕ)
    → Sleeps elapsed
    → (k : ℕ) × (wait_loop (running_at signals) elapsed duration (suc (10 * duration)) 0 ≡ some k)
      × (k ≤ 10 * duration)
      × (((j : ℕ) × (j ≤ k) × (signals j ≢ [])) ⊎ (duration * 10 ^ 9 ≤ elapsed k))
      × ((j : ℕ) → j < k → (signals j ≡ []) × (elapsed j < duration * 10 ^ 9))
waiting_ends signals elapsed duration s =
    let (k, found, le, v) = wait_loop_ends (running_at signals) elapsed duration s in
    (
      k,
      found,
      le,
      elim v.at_end [ inl off ↦ inl (running_some signals k off) | inr over ↦ inr over ],
      λ j lt.
          let (on, early) = v.before j (omega arith) lt in
          (running_none signals j on j (omega arith), early),
    )
