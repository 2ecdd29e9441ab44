-- ===== src/Monitor/Unwaited.antt =====
-- A monitor that is destroyed without `wait_for_completion`: its `stop` does not join.
use message_router.Base.{ℕ, zero, suc, ◌≢◌, ◌≡◌, refl, Bool, true, false, List, [], ◌∷◌}
use message_router.Lifecycle.{
  Fate, returns, terminates, ◌>>=◌, Thread, absent, joinable, joined, Life, fresh, launch, join,
  release, Call, starts, stops, waits,
}
use message_router.Monitor.{start, stop, wait_for_completion, destroy}

-- What a client does with a monitor between its construction and its destruction.
unfoldable pub call : Call → Life → Fate Life
unfolding start stop wait_for_completion
call starts l = start l
call stops l = returns (stop l)
call waits l = wait_for_completion l

unfoldable pub use_monitor : List Call → Life → Fate (Unit {0})
unfolding call destroy
use_monitor [] l = destroy l
use_monitor (c ∷ cs) l = do next_life ← call c l; use_monitor cs next_life

-- Whether there is a `start`, and whether there is a `wait_for_completion`.
abbrev pub starts_once : List Call → Bool
starts_once [] = false
starts_once (starts ∷ cs) = true
starts_once (_ ∷ cs) = starts_once cs

abbrev pub Unwaited : List Call → Type 0
Unwaited [] = Unit
Unwaited (waits ∷ cs) = ⊥
Unwaited (_ ∷ cs) = Unwaited cs

-- A thread that nobody joins ends the process.
left_running :
    (cs : List Call) (running : Bool)
    → Unwaited cs
    → use_monitor cs (record { running = running; thread = joinable }) ≡ terminates
unfolding use_monitor call start stop destroy launch release
left_running [] true u = refl
left_running [] false u = refl
left_running (starts ∷ cs) true u = left_running cs true u
left_running (starts ∷ cs) false u = refl
left_running (stops ∷ cs) true u = left_running cs false u
left_running (stops ∷ cs) false u = left_running cs false u
left_running (waits ∷ cs) running u = absurd u

-- A new monitor that is started at least once and never waited for ends the process, at the latest
-- when it is destroyed, whether it has been stopped or not.
pub Unwaited-terminates :
    (cs : List Call) → Unwaited cs → starts_once cs ≡ true → use_monitor cs fresh ≡ terminates
unfolding use_monitor call start stop launch
Unwaited-terminates [] u e = cc
Unwaited-terminates (starts ∷ cs) u e = left_running cs true u
Unwaited-terminates (stops ∷ cs) u e = Unwaited-terminates cs u e
Unwaited-terminates (waits ∷ cs) u e = absurd u

-- `start`, `stop` and `wait_for_completion`, again and again.
abbrev pub rounds_of : ℕ → List Call
rounds_of zero = []
rounds_of (suc n) = starts ∷ stops ∷ waits ∷ rounds_of n

waited_at :
    (n : ℕ) (t : Thread)
    → t ≢ joinable
    → use_monitor (rounds_of n) (record { running = false; thread = t }) ≡ returns tt
unfolding use_monitor call start stop wait_for_completion destroy launch join release
waited_at zero absent ne = refl
waited_at zero joinable ne = absurd (ne refl)
waited_at zero joined ne = refl
waited_at (suc n) absent ne = waited_at n joined (λ e. cc)
waited_at (suc n) joinable ne = absurd (ne refl)
waited_at (suc n) joined ne = waited_at n joined (λ e. cc)

-- Stopped and waited for each time that it is started, a new monitor is destroyed safely.
pub waited_returns : (n : ℕ) → use_monitor (rounds_of n) fresh ≡ returns tt
waited_returns n = waited_at n absent (λ e. cc)
