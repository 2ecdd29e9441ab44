-- ===== src/Strategy/Drain.antt =====
-- The inner loop of `strategy_loop`.
use message_router.Base.{suc, ◌≡◌, refl, sym, subst, List, [], ◌∷◌, iterate, length}
use message_router.Message.{Message}
use message_router.Queue.Client.{QueueApi, pop_empty, pop_first}
use message_router.Strategy.{Strategy, Pc, checking, popping, popped, loop_step, process_message}
use message_router.Strategy.History.{process}

module _ (F : QueueApi Message) where
  open F use {Q, contents, pop}

  pub step_empty :
      (s : Strategy) (q : Q)
      → contents q ≡ []
      → loop_step F (s, popping, q) ≡ (s, checking, (pop q).1)
  unfolding loop_step
  step_empty s q e = rw ((pop_empty F q e).0, popped)

  pub step_first :
      (s : Strategy) (q : Q) (x : Message) (xs : List Message)
      → contents q ≡ x ∷ xs
      → loop_step F (s, popping, q) ≡ (process_message s x, popping, (pop q).1)
  unfolding loop_step
  step_first s q x xs e = rw ((pop_first F q x xs e).0, popped)

  -- The loop has processed `xs` from `s`, and stands at the test of `running_`.
  abbrev pub Drained : Strategy → List Message → Strategy × Pc × Q → Type 0
  Drained s xs (s', pc, q') = (s' ≡ process s xs) × (pc ≡ checking) × (contents q' ≡ [])

  -- While no other thread pushes, the inner loop processes everything that the queue holds, oldest
  -- first and each message once, in one step for each and one more to find the queue empty.
  pub drain :
      (xs : List Message) (s : Strategy) (q : Q)
      → contents q ≡ xs
      → Drained s xs (iterate (suc (length xs)) (loop_step F) (s, popping, q))
  drain [] s q e = subst (Drained s []) (sym (step_empty s q e)) (refl, refl, (pop_empty F q e).1)
  drain (x ∷ xs) s q e =
      subst (λ st. Drained s (x ∷ xs) (iterate (suc (length xs)) (loop_step F) st))
        (sym (step_first s q x xs e))
        (drain xs (process_message s x) (pop q).1 (pop_first F q x xs e).1)
