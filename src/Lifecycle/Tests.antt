-- ===== src/Lifecycle/Tests.antt =====
-- A component that is started twice and stopped.
use message_router.Base.{◌≡◌, ◌≢◌, refl, true, false, [], ◌∷◌}
use message_router.Lifecycle.{
  returns, terminates, Life, fresh, joinable, joined, stop, destroy, starts, stops, waits, calls,
}
use message_router.Lifecycle.Safety.{never_terminates}

abbrev running : Life
running = record { running = true; thread = joinable }

abbrev ended : Life
ended = record { running = false; thread = joined }

never_terminates_example :
    (calls (starts ∷ starts ∷ stops ∷ waits ∷ starts ∷ []) fresh ≢ terminates)
    × ((l : Life)
        → calls (starts ∷ starts ∷ stops ∷ waits ∷ starts ∷ []) fresh ≡ returns l
        → destroy l ≡ returns tt)
never_terminates_example = never_terminates (starts ∷ starts ∷ stops ∷ waits ∷ starts ∷ [])

started_twice : calls (starts ∷ starts ∷ []) fresh ≡ returns running
unfolding calls
started_twice = refl

then_stopped : stop running ≡ returns ended
unfolding stop
then_stopped = refl
