-- ===== src/Lifecycle/Safety.antt =====
-- No order of calls ends the process, and after stop() nothing is left to wait for.
use message_router.Base.{◌≡◌, ◌≢◌, ◌⊎◌, inr, refl, subst, Bool, true, false, List, [], ◌∷◌, arith}
use message_router.Lifecycle.{
  Fate, returns, terminates, blocks, ◌>>=◌, Thread, joinable, Life, fresh, join, stop, destroy,
  Call, starts, stops, waits, call, calls,
}

-- The thread is to be joined exactly while the component runs.
abbrev pub IsSound : Life → Type 0
IsSound l =
    ((l.running ≡ true) × (l.thread ≡ joinable)) ⊎ ((l.running ≡ false) × (l.thread ≢ joinable))

-- A result that is sound, if the call returns; it does not end the process.
abbrev pub Sound : Fate Life → Type 0
Sound (returns l) = IsSound l
Sound terminates = ⊥
Sound blocks = Unit

call-Sound_at :
    (c : Call) (b : Bool) (t : Thread)
    → IsSound (record { running = b; thread = t })
    → Sound (call c (record { running = b; thread = t }))
unfolding call
call-Sound_at starts true joinable h = ground arith
call-Sound_at stops _ _ h = ground arith
call-Sound_at waits _ _ h = ground arith
call-Sound_at c b t h = ground arith

bind-Sound :
    (f : Fate Life) (g : Life → Fate Life)
    → Sound f
    → ((l : Life) → IsSound l → Sound (g l))
    → Sound (f >>= g)
bind-Sound (returns l) g s rest = rest l s
bind-Sound terminates g s rest = s
bind-Sound blocks g s rest = tt

calls-Sound : (cs : List Call) (l : Life) → IsSound l → Sound (calls cs l)
unfolding calls
calls-Sound [] l h = h
calls-Sound (c ∷ cs) l h =
    bind-Sound (call c l) (calls cs) (call-Sound_at c l.running l.thread h) (calls-Sound cs)

destroy_at :
    (b : Bool) (t : Thread)
    → IsSound (record { running = b; thread = t })
    → destroy (record { running = b; thread = t }) ≡ returns tt
unfolding destroy
destroy_at true joinable h = refl
destroy_at b t h = ground arith

fresh-IsSound : IsSound fresh
fresh-IsSound = inr (refl, λ e. cc)

-- No sequence of start, stop and wait_for_completion on a new component ends the process, and
-- whatever state it leaves, the destructor returns.
pub never_terminates :
    (cs : List Call)
    → (calls cs fresh ≢ terminates)
      × ((l : Life) → calls cs fresh ≡ returns l → destroy l ≡ returns tt)
never_terminates cs =
    (λ e. subst Sound e sound, λ l e. destroy_at l.running l.thread (subst Sound e sound))
  where
    sound : Sound (calls cs fresh)
    sound = calls-Sound cs fresh fresh-IsSound

stop_at :
    (b : Bool) (t : Thread) (m : Life)
    → IsSound (record { running = b; thread = t })
    → stop (record { running = b; thread = t }) ≡ returns m
    → (join m ≡ returns m) × (m.running ≡ false)
unfolding stop join
stop_at true joinable m h e = ground arith
stop_at b t m h e = ground arith

-- After stop() there is nothing left to wait for: wait_for_completion returns and changes nothing.
pub wait_after_stop :
    (cs : List Call) (l m : Life)
    → calls cs fresh ≡ returns l
    → stop l ≡ returns m
    → (join m ≡ returns m) × (m.running ≡ false)
wait_after_stop cs l m e h =
    stop_at l.running l.thread m (subst Sound e (calls-Sound cs fresh fresh-IsSound)) h
