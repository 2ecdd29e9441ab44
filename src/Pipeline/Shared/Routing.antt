-- ===== src/Pipeline/Shared/Routing.antt =====
-- What a step of a router does, by the call that the router wants to make.
use message_router.Base.{
  ℕ, ◌≤◌, ◌<◌, ◌≡◌, ◌≢◌, refl, sym, ap, Bool, true, false, ◌&&◌, List, [], ◌∷◌, some, get_elem?,
  set, length, arith, Bool-cases, inl, inr, ltb, ltb→lt, lt→ltb, get_elem?_le,
}
use message_router.Message.{Message, MessageType}
use message_router.Queue.Defs.{capacity}
use message_router.Queue.Fifo
use message_router.Queue.Network.{Call, silent, calls_push, calls_pop}
use message_router.Router
use message_router.Router.{Router, pop_at, push_at}
use message_router.Pipeline.Shared.{
  QueueName, list_api, router_wants, router_alone, router_popped, router_pushed,
}
use message_router.Pipeline.Shared.Views.{pop_at-some, pop_at-none, push_at-some, push_at-none}

abbrev Lists : Type 0
Lists = List (List Message)

-- A call is not a step without one, nor one of the other end.
pub push_not_silent : (j : QueueName) (x : Message) → calls_push j x ≢ silent
push_not_silent j x e = cc

pub pop_not_silent : (j : QueueName) → ◌≢◌ {A = Call QueueName Message} (calls_pop j) silent
pop_not_silent j e = cc

pub push_not_pop : (i j : QueueName) (x : Message) → calls_push i x ≢ calls_pop j
push_not_pop i j x e = cc

pub pop_inj :
    (i j : QueueName) → ◌≡◌ {A = Call QueueName Message} (calls_pop i) (calls_pop j) → i ≡ j
pop_inj i j e = cc

pub push_inj :
    (i j : QueueName) (x y : Message) → calls_push i x ≡ calls_push j y → (i ≡ j) × (x ≡ y)
push_inj i j x y e = (cc, cc)

both_lt : (a b c d : ℕ) → (ltb a b && ltb c d) ≡ true → (a < b) × (c < d)
both_lt a b c d e = ground arith

not_both : (a b c d : ℕ) → (ltb a b && ltb c d) ≡ false → a < b → d ≤ c
not_both a b c d e = ground arith

module _ (k n m : ℕ) (ins_name outs_name : ℕ → QueueName) where
  -- The program counter at which a router wants to call `try_pop`, and `try_push`.
  pub wants_pop :
      (pc : Router.Pc) (j : QueueName)
      → router_wants n m ins_name outs_name pc ≡ calls_pop j
      → (i : ℕ) × (pc ≡ Router.scanning i) × (j ≡ ins_name i) × (i < n)
  wants_pop Router.checking j e = absurd (pop_not_silent j (sym e))
  wants_pop (Router.scanning i) j e = elim (Bool-cases (ltb i n)) [
    | inl lt ↦ (i, refl, pop_inj j (ins_name i) (sym (rw lt at e)), ltb→lt _ _ lt)
    | inr ge ↦ absurd (pop_not_silent j (sym (rw ge at e)))
  ]
  wants_pop (Router.sending i x p retry) j e =
      elim (Bool-cases (ltb retry Router.max_retries && ltb p m)) [
        | inl ok ↦ absurd (push_not_pop (outs_name p) j x (rw ok at e))
        | inr off ↦ absurd (pop_not_silent j (sym (rw off at e)))
      ]
  wants_pop Router.ended j e = absurd (pop_not_silent j (sym e))

  pub wants_push :
      (pc : Router.Pc) (j : QueueName) (y : Message)
      → router_wants n m ins_name outs_name pc ≡ calls_push j y
      → (i : ℕ) × (p : ℕ) × (retry : ℕ) × (pc ≡ Router.sending i y p retry)
        × (j ≡ outs_name p)
        × (retry < Router.max_retries)
        × (p < m)
  wants_push Router.checking j y e = absurd (push_not_silent j y (sym e))
  wants_push (Router.scanning i) j y e = elim (Bool-cases (ltb i n)) [
    | inl lt ↦ absurd (push_not_pop j (ins_name i) y (sym (rw lt at e)))
    | inr ge ↦ absurd (push_not_silent j y (sym (rw ge at e)))
  ]
  wants_push (Router.sending i x p retry) j y e =
      elim (Bool-cases (ltb retry Router.max_retries && ltb p m)) [
        | inl ok ↦
            let (name, same) = push_inj (outs_name p) j x y (rw ok at e) in
            let (lt, lt') = both_lt retry Router.max_retries p m ok in
            (i, p, retry, ap (λ z. Router.sending i z p retry) same, sym name, lt, lt')
        | inr off ↦ absurd (push_not_silent j y (sym (rw off at e)))
      ]
  wants_push Router.ended j y e = absurd (push_not_silent j y (sym e))

  module _ (choose : MessageType → ℕ) (ins outs : Lists) (r : Router) (ins_length : length ins ≡ n)
      (outs_length : length outs ≡ m) where
    -- A step without a call.
    pub routes_alone :
        (pc : Router.Pc)
        → router_wants n m ins_name outs_name pc ≡ silent
        → Router.loop_step (list_api k) choose (r, pc, ins, outs)
          ≡ ((router_alone r pc).0, (router_alone r pc).1, ins, outs)
    unfolding Router.loop_step
    routes_alone Router.checking e = elim (Bool-cases r.life.running) [
      | inl on ↦ rw on refl
      | inr off ↦ rw off refl
    ]
    routes_alone (Router.scanning i) e = elim (Bool-cases (ltb i n)) [
      | inl lt ↦ absurd (pop_not_silent (ins_name i) (rw lt at e))
      | inr ge ↦ rw (pop_at-none k ins i (get_elem?_le ins i (ground (arith, ge, ins_length)))) refl
    ]
    routes_alone (Router.sending i x p retry) e = elim (Bool-cases (ltb retry Router.max_retries)) [
      | inr over ↦ rw over refl
      | inl on ↦ elim (Bool-cases (ltb retry Router.max_retries && ltb p m)) [
        | inl ok ↦ absurd (push_not_silent (outs_name p) x (rw ok at e))
        | inr off ↦
            let beyond : m ≤ p = not_both retry Router.max_retries p m off (ltb→lt _ _ on) in
            rw (on, push_at-none k outs p x (get_elem?_le outs p (omega (arith, outs_length)))) refl
      ]
    ]
    routes_alone Router.ended e = refl

    -- A step with a call of `try_pop`, and one with a call of `try_push`.
    pub routes_popped :
        (i : ℕ) (q : List Message)
        → get_elem? ins i ≡ some q
        → Router.loop_step (list_api k) choose (r, Router.scanning i, ins, outs) ≡ (
          (router_popped choose m r (Router.scanning i) (Fifo.pop q).0).0,
          (router_popped choose m r (Router.scanning i) (Fifo.pop q).0).1,
          set ins i (Fifo.pop q).1,
          outs,
        )
    unfolding Router.loop_step Fifo.pop
    routes_popped i [] e = rw (pop_at-some k ins i [] e) refl
    routes_popped i (x ∷ q) e =
        rw (pop_at-some k ins i (x ∷ q) e, outs_length)
          (elim (Bool-cases (ltb (choose x.msg_type) m)) [
            | inl lt ↦ rw lt refl
            | inr ge ↦ rw ge refl
          ])

    pub routes_pushed :
        (i : ℕ) (x : Message) (p retry : ℕ) (q : List Message)
        → get_elem? outs p ≡ some q
        → retry < Router.max_retries
        → Router.loop_step (list_api k) choose (r, Router.sending i x p retry, ins, outs) ≡ (
          (router_pushed r (Router.sending i x p retry) (Fifo.push (capacity k) q x).0).0,
          (router_pushed r (Router.sending i x p retry) (Fifo.push (capacity k) q x).0).1,
          ins,
          set outs p (Fifo.push (capacity k) q x).1,
        )
    unfolding Router.loop_step
    routes_pushed i x p retry q e lt =
        rw (lt→ltb _ _ lt, push_at-some k outs p x q e)
          (after (Fifo.push (capacity k) q x).0 (Fifo.push (capacity k) q x).1)
      where
        after :
            (b : Bool) (l : List Message)
            → Router.tried (list_api k) r i x p retry ins (b, set outs p l) ≡ (
              (router_pushed r (Router.sending i x p retry) b).0,
              (router_pushed r (Router.sending i x p retry) b).1,
              ins,
              set outs p l,
            )
        after true l = refl
        after false l = refl
