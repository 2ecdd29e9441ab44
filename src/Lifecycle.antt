-- ===== src/Lifecycle.antt =====
-- The `running_` flag and the `std::thread` that every component has (start, stop, the destructor
-- and the managers' joins in src/strategy.cpp, processor.cpp, producer.cpp, stage1_router.cpp,
-- stage2_router.cpp), and the fates of a call that C++ does not let return.
pub mod Safety
mod Tests
use message_router.Base.{Bool, true, false, List, [], ◌∷◌, if◌then◌else◌}

-- A call returns, ends the process by std::terminate, or waits for ever.
pub data Fate {ℓ} (A : Type ℓ) : Type ℓ where
  returns : A → Fate A
  terminates : Fate A
  blocks : Fate A

infixl 5 ◌>>=◌
abbrev pub ◌>>=◌ {ℓ κ} : {A : Type ℓ} {B : Type κ} → Fate A → (A → Fate B) → Fate B
returns a >>= f = f a
terminates >>= f = terminates
blocks >>= f = blocks

-- The `unique_ptr<std::thread>`: null, a thread to be joined, or one that has been joined.
pub data Thread : Type 0 where
  absent : Thread
  joinable : Thread
  joined : Thread

pub record Life : Type 0 where
  pub running : Bool
  pub thread : Thread

-- A constructed component.
abbrev pub fresh : Life
fresh = record { running = false; thread = absent }

-- Assigning a new thread destroys the old one, which ends the process if that is joinable.
unfoldable pub launch : Life → Fate Life
launch l = elim l.thread [ joinable ↦ terminates | _ ↦ returns (record l { thread = joinable }) ]

-- `if (thread_ && thread_->joinable()) thread_->join()`: the loops end once `running_` is false,
-- and only then.
unfoldable pub join : Life → Fate Life
join l = elim l.thread [
  | joinable ↦ if l.running then blocks else returns (record l { thread = joined })
  | _ ↦ returns l
]

-- The destructor of the `unique_ptr`.
unfoldable pub release : Life → Fate (Unit {0})
release l = elim l.thread [ joinable ↦ terminates | _ ↦ returns tt ]

unfoldable pub start : Life → Fate Life
unfolding launch
start l = if l.running then returns l else launch (record l { running = true })

unfoldable pub stop : Life → Fate Life
unfolding join
stop l = if l.running then join (record l { running = false }) else returns l

-- `stop()`, the join of the destructor, and the members' destructors.
unfoldable pub destroy : Life → Fate (Unit {0})
unfolding stop join release
destroy l = do stopped ← stop l; ended ← join stopped; release ended

-- What a client does with a component between its construction and its destruction; `wait` is a
-- manager's wait_for_completion.
pub data Call : Type 0 where
  starts stops waits : Call

unfoldable pub call : Call → Life → Fate Life
unfolding start stop join
call starts = start
call stops = stop
call waits = join

unfoldable pub calls : List Call → Life → Fate Life
unfolding call
calls [] l = returns l
calls (c ∷ cs) l = do next ← call c l; calls cs next
