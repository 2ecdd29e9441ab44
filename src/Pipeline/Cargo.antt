-- ===== src/Pipeline/Cargo.antt =====
-- What each step of a thread leaves of a property that every message on its way has.
pub mod Ends
use native.Mathlib.Decide.{ℕ_discrete}
use message_router.Base.{
  ℕ, ◌≡◌, ◌≢◌, refl, sym, subst, Bool, true, false, List, [], ◌∷◌, Option, none, some, ltb,
  if◌then◌else◌, length, get_elem?, set, replicate, All, All-append,
}
use message_router.Message.{Message, MessageType, StrategyId}
use message_router.Queue.Client.{
  QueueApi, Popped, Pushed, pop-Popped, push-Pushed, Popped-none, Popped-some, Pushed-true,
  Pushed-false,
}
use message_router.Producer
use message_router.Producer.{Producer}
use message_router.Router
use message_router.Router.{Router, pop_at, push_at, received, scanned, tried}
use message_router.Processor
use message_router.Processor.{Processor, simulate_processing}
use message_router.Strategy
use message_router.Strategy.{Strategy}
use message_router.Pipeline.{makes, delivered_by, delivers}
use message_router.Pipeline.Queues.{
  contents_at, PoppedAt, PoppedIf, pop_at-PoppedIf, PushedAt, push_at-PushedAt, contents_at-get,
  contents_at-set_self, contents_at-set_ne, contents_at-replicate,
}

module _ (F : QueueApi Message) where
  open F use {Q}

  -- What `P` says of an index and a message holds in every queue.
  abbrev pub Loaded : (ℕ → Message → Type 0) → List Q → Type 0
  Loaded P qs = (j : ℕ) → All (P j) (contents_at F qs j)

  module _ (P : ℕ → Message → Type 0) where
    pub new-Loaded : (n : ℕ) → Loaded P (replicate n F.new)
    new-Loaded n j = subst (All (P j)) (sym (contents_at-replicate F n j)) tt

    pub get-Loaded :
        (qs : List Q) (i : ℕ) (q : Q)
        → get_elem? qs i ≡ some q
        → Loaded P qs
        → All (P i) (F.contents q)
    get-Loaded qs i q e l = subst (All (P i)) (contents_at-get F qs i q e) (l i)

    pub set-Loaded :
        (qs : List Q) (i : ℕ) (q q' : Q)
        → get_elem? qs i ≡ some q'
        → All (P i) (F.contents q)
        → Loaded P qs
        → Loaded P (set qs i q)
    set-Loaded qs i q q' e a l j = elim (ℕ_discrete j i) [
      | yes same ↦
          subst (λ h. All (P h) (contents_at F (set qs i q) h)) (sym same)
            (subst (All (P i)) (sym (contents_at-set_self F qs i q e)) a)
      | no ne ↦ subst (All (P j)) (sym (contents_at-set_ne F qs i j q ne)) (l j)
    ]

    same-Loaded :
        (qs qs' : List Q)
        → ((j : ℕ) → contents_at F qs' j ≡ contents_at F qs j)
        → Loaded P qs
        → Loaded P qs'
    same-Loaded qs qs' same l j = subst (All (P j)) (sym (same j)) (l j)

    popped-Loaded :
        (qs qs' : List Q) (i : ℕ) (m : Message)
        → PoppedAt F qs i (some m, qs')
        → Loaded P qs
        → P i m × Loaded P qs'
    popped-Loaded qs qs' i m (first, rest) l =
        let here_i : All (P i) (m ∷ contents_at F qs' i) = subst (All (P i)) first (l i) in
        (
          here_i.0,
          λ j. elim (ℕ_discrete j i) [
            | yes e ↦ subst (λ h. All (P h) (contents_at F qs' h)) (sym e) here_i.1
            | no ne ↦ subst (All (P j)) (sym (rest j ne)) (l j)
          ],
        )

    pushed-Loaded :
        (qs : List Q) (i : ℕ) (m : Message) (res : Bool × List Q)
        → PushedAt F qs i m res
        → P i m
        → Loaded P qs
        → Loaded P res.1
    pushed-Loaded qs i m (false, qs') same p l = λ j. same-Loaded qs qs' same l j
    pushed-Loaded qs i m (true, qs') (last, rest) p l = λ j. elim (ℕ_discrete j i) [
      | yes e ↦
          subst (λ h. All (P h) (contents_at F qs' h)) (sym e)
            (subst (All (P i)) (sym last)
              (All-append (P i) (contents_at F qs i) (m ∷ []) (l i) (p, tt)))
      | no ne ↦ subst (All (P j)) (sym (rest j ne)) (l j)
    ]

  -- One queue.
  module _ (P : Message → Type 0) where
    pub popped-All :
        (ms : List Message) (m : Message) (q : Q)
        → Popped F ms (some m, q)
        → All P ms
        → P m × All P (F.contents q)
    popped-All ms m q e a = subst (All P) (Popped-some F ms m q e) a

    pub pushed-All :
        (ms : List Message) (m : Message) (res : Bool × Q)
        → Pushed F ms m res
        → P m
        → All P ms
        → All P (F.contents res.1)
    pushed-All ms m (true, q) e p a =
        subst (All P) (sym (Pushed-true F ms m q e)) (All-append P ms (m ∷ []) a (p, tt))
    pushed-All ms m (false, q) e p a = subst (All P) (sym (Pushed-false F ms m q e)) a

  -- A router: what it holds goes to the queue that the rules give.
  module _ (choose : MessageType → ℕ) (P : Message → Type 0) where
    abbrev pub Routed : ℕ → Message → Type 0
    Routed j m = P m × (j ≡ choose m.msg_type)

    abbrev pub RouterHolds : Router.Pc → Type 0
    RouterHolds (Router.sending i m p retry) = Routed p m
    RouterHolds _ = Unit

    abbrev pub RouterCargo : Router.State F → Type 0
    RouterCargo (r, pc, ins, outs) = RouterHolds pc × Loaded (λ j. P) ins × Loaded Routed outs

    scanned-Cargo :
        (r : Router) (i : ℕ) (ins outs : List Q) (res : Option (Option Message × List Q))
        → PoppedIf F ins i res
        → Loaded (λ j. P) ins
        → Loaded Routed outs
        → RouterCargo (scanned F choose r i ins outs res)
    scanned-Cargo r i ins outs none e l o = (tt, l, o)
    scanned-Cargo r i ins outs (some (none, ins')) e l o =
        (tt, same-Loaded (λ j. P) ins ins' e l, o)
    scanned-Cargo r i ins outs (some (some m, ins')) e l o =
        let (p, l') = popped-Loaded (λ j. P) ins ins' i m e l in
        elim (ltb (choose m.msg_type) (length outs))
          as (λ b. RouterCargo (
            if b
            then (r, Router.sending i m (choose m.msg_type) 0, ins', outs)
            else (Router.count_error r, Router.scanning i, ins', outs))) [
              | true ↦ ((p, refl), l', o)
              | false ↦ (tt, l', o)
            ]

    tried-Cargo :
        (r : Router) (i : ℕ) (m : Message) (p retry : ℕ) (ins outs : List Q) (res : Bool × List Q)
        → Routed p m
        → Loaded (λ j. P) ins
        → Loaded Routed res.1
        → RouterCargo (tried F r i m p retry ins res)
    tried-Cargo r i m p retry ins outs (true, outs') h l o = (tt, l, o)
    tried-Cargo r i m p retry ins outs (false, outs') h l o = (h, l, o)

    pub router-Cargo :
        (r : Router) (pc : Router.Pc) (ins outs : List Q)
        → RouterCargo (r, pc, ins, outs)
        → RouterCargo (Router.loop_step F choose (r, pc, ins, outs))
    unfolding Router.loop_step
    router-Cargo r Router.checking ins outs (h, l, o) =
        elim r.life.running
          as (λ b.
            RouterCargo
              (if b then (r, Router.scanning 0, ins, outs) else (r, Router.ended, ins, outs))) [
                | true ↦ (tt, l, o)
                | false ↦ (tt, l, o)
              ]
    router-Cargo r (Router.scanning i) ins outs (h, l, o) =
        scanned-Cargo r i ins outs (pop_at F ins i) (pop_at-PoppedIf F ins i) l o
    router-Cargo r (Router.sending i m p retry) ins outs (h, l, o) =
        elim (ltb retry Router.max_retries)
          as (λ b. RouterCargo (
            if b
            then tried F r i m p retry ins (push_at F outs p m)
            else (Router.count_error r, Router.scanning i, ins, outs))) [
              | true ↦ tried-Cargo r i m p retry ins outs (push_at F outs p m) h l (
                  pushed-Loaded Routed outs p m (push_at F outs p m) (push_at-PushedAt F outs p m) h
                    o)
              | false ↦ (tt, l, o)
            ]
    router-Cargo r Router.ended ins outs c = c
