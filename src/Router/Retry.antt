-- ===== src/Router/Retry.antt =====
-- The retry loop of a router that no other thread disturbs.
use message_router.Base.{
  ℕ, zero, suc, ◌+◌, ◌≤◌, ◌<◌, ◌≡◌, refl, sym, subst, ap, ◌∙◌, Bool, true, false, List, [], ◌∷◌,
  ◌++◌, map, some, arith, length, get_elem?, set, iterate, lt→ltb, le→ltb,
}
use message_router.Message.{Message, MessageType}
use message_router.Queue.Client.{QueueApi, push_room, push_full}
use message_router.Router.{
  Router, sending, scanning, max_retries, count_routed, count_error, push_at, State, tried,
  loop_step,
}

module _ (F : QueueApi Message) where
  open F use {Q, room, contents, push}

  some_inj : {q' q : Q} → some q' ≡ some q → q' ≡ q
  some_inj e = cc

  push_at_room :
      (outs : List Q) (p : ℕ) (q : Q) (m : Message)
      → get_elem? outs p ≡ some q
      → length (contents q) < room
      → ((push_at F outs p m).0 ≡ true)
        × (map contents (push_at F outs p m).1 ≡ set (map contents outs) p (contents q ++ (m ∷ [])))
  unfolding push_at
  push_at_room [] p q m e lt = cc
  push_at_room (q' ∷ outs) zero q m e lt =
      subst
        (λ t.
          ((push q' m).0 ≡ true)
          × (contents (push q' m).1 ∷ map contents outs
              ≡ (contents t ++ (m ∷ [])) ∷ map contents outs))
        (some_inj e)
        (let here =
            push_room F q' m (subst (λ t. length (contents t) < room) (sym (some_inj e)) lt) in
          (here.0, ap (λ l. l ∷ map contents outs) here.1))
  push_at_room (q' ∷ outs) (suc p) q m e lt =
      let (ok, same) = push_at_room outs p q m e lt in (ok, ap (λ l. contents q' ∷ l) same)

  push_at_full :
      (outs : List Q) (p : ℕ) (q : Q) (m : Message)
      → get_elem? outs p ≡ some q
      → room ≤ length (contents q)
      → ((push_at F outs p m).0 ≡ false)
        × (map contents (push_at F outs p m).1 ≡ map contents outs)
        × (q' : Q) × (get_elem? (push_at F outs p m).1 p ≡ some q')
        × (contents q' ≡ contents q)
  unfolding push_at
  push_at_full [] p q m e le = cc
  push_at_full (q' ∷ outs) zero q m e le =
      let same : q' ≡ q = some_inj e in
      let here = push_full F q' m (subst (λ t. room ≤ length (contents t)) (sym same) le) in
      (
        here.0,
        ap (λ l. l ∷ map contents outs) here.1,
        (push q' m).1,
        refl,
        here.1 ∙ ap contents same,
      )
  push_at_full (q' ∷ outs) (suc p) q m e le =
      let (refused, same, q'', at', kept) = push_at_full outs p q m e le in
      (refused, ap (λ l. contents q' ∷ l) same, q'', at', kept)

  tried_refused :
      (r : Router) (i : ℕ) (m : Message) (p retry : ℕ) (ins : List Q) (res : Bool × List Q)
      → res.0 ≡ false
      → tried F r i m p retry ins res ≡ (r, sending i m p (retry + 1), ins, res.1)
  tried_refused r i m p retry ins (true, outs) e = cc
  tried_refused r i m p retry ins (false, outs) e = refl

  tried_accepted :
      (r : Router) (i : ℕ) (m : Message) (p retry : ℕ) (ins : List Q) (res : Bool × List Q)
      → res.0 ≡ true
      → tried F r i m p retry ins res ≡ (count_routed r, scanning i, ins, res.1)
  tried_accepted r i m p retry ins (true, outs) e = refl
  tried_accepted r i m p retry ins (false, outs) e = cc

  -- The loop gave up: an error is counted, and the queues hold what they held.
  abbrev pub GaveUp : Router → ℕ → List Q → List Q → State F → Type 0
  GaveUp r i ins outs s =
      (outs' : List Q) × (s ≡ (count_error r, scanning i, ins, outs'))
      × (map contents outs' ≡ map contents outs)

  -- The message was sent: it is the last one of the queue `p`, which held `xs`.
  abbrev pub Sent : Router → ℕ → ℕ → Message → List Message → List Q → List Q → State F → Type 0
  Sent r i p m xs ins outs s =
      (outs' : List Q) × (s ≡ (count_routed r, scanning i, ins, outs'))
      × (map contents outs' ≡ set (map contents outs) p (xs ++ (m ∷ [])))

  module _ (choose : MessageType → ℕ) (r : Router) (i p : ℕ) (m : Message) (ins : List Q) where
    give_up :
        (left retry : ℕ) (outs : List Q) (q : Q)
        → left + retry ≡ max_retries
        → get_elem? outs p ≡ some q
        → room ≤ length (contents q)
        → GaveUp r i ins outs
            (iterate (suc left) (loop_step F choose) (r, sending i m p retry, ins, outs))
    unfolding loop_step
    give_up zero retry outs q eq at le =
        rw (le→ltb retry max_retries (omega arith)) (outs, refl, refl)
    give_up (suc left) retry outs q eq at le =
        let (refused, same, q', at', kept) = push_at_full outs p q m at le in
        let (outs', gone, held) =
          give_up left (retry + 1) (push_at F outs p m).1 q' (omega arith) at'
            (subst (λ l. room ≤ length l) (sym kept) le) in
        let again = tried_refused r i m p retry ins (push_at F outs p m) refused in
        (
          outs',
          rw (lt→ltb retry max_retries (omega arith))
              (ap (λ s. iterate (suc left) (loop_step F choose) s) again ∙ gone),
          held ∙ same,
        )

    -- A router with a message in hand that no other thread disturbs either sends it in one step,
    -- if the queue that the rules give has room, or gives it up after 1000 tries, which are 1001
    -- steps; then it stands at the input queue that the message came from.
    pub send_or_give_up :
        (outs : List Q) (q : Q)
        → get_elem? outs p ≡ some q
        → ((length (contents q) < room)
            → Sent r i p m
                (contents q)
                ins
                outs
                (loop_step F choose (r, sending i m p 0, ins, outs)))
          × ((room ≤ length (contents q))
              → GaveUp r i ins outs
                  (iterate (suc max_retries) (loop_step F choose) (r, sending i m p 0, ins, outs)))
    unfolding loop_step
    send_or_give_up outs q at = (
      λ lt.
          let (accepted, held) = push_at_room outs p q m at lt in
          (
            (push_at F outs p m).1,
            tried_accepted r i m p 0 ins (push_at F outs p m) accepted,
            held,
          ),
      λ le. give_up max_retries 0 outs q refl at le,
    )
