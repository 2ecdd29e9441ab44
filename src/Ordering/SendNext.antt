-- ===== src/Ordering/SendNext.antt =====
-- The recursion of `try_send_next`.
use message_router.Base.{
  ℕ, zero, suc, ◌<◌, ◌≡◌, refl, ap, ◌∙◌, Bool, true, false, List, [], ◌∷◌, Option, none, some, inl,
  inr, arith, length, Bool-cases, Option-cases, ◌==◌, if◌then◌else◌,
}
use message_router.Base.Assoc.{find, find-insert}
use message_router.Message.{Message, Key, key_beq_iff, key_eq, SequenceNumber}
use message_router.Queue.Client.{QueueApi}
use message_router.Ordering.{
  OrderingBuffer, take_number, State, sent_from, chain, send_found, send_next, depth, try_send_next,
}

-- A message that is taken out leaves the chain shorter by one.
length-take_number :
    (n : SequenceNumber) (ms : List Message) (m : Message) (rest : List Message)
    → take_number n ms ≡ some (m, rest)
    → length ms ≡ suc (length rest)
unfolding take_number
length-take_number n [] m rest e = cc
length-take_number n (m' ∷ ms) m rest e = elim (Bool-cases (m'.sequence_number == n)) [
  | inl at ↦ ground arith
  | inr past ↦ elim (Option-cases (take_number n ms)) [
    | inl gone ↦ ground arith
    | inr ((found, more), here) ↦ ground (arith, length-take_number n ms found more here)
  ]
]

module _ (F : QueueApi Message) where
  open F use {Q, push}

  -- A chain that is stored is found.
  depth-sent_from :
      (key : Key) (n : SequenceNumber) (r : Message) (rs : List Message) (b : OrderingBuffer)
      → depth F key (sent_from F key n (r ∷ rs) b) ≡ suc (length rs)
  depth-sent_from key n r rs b =
      ap
        (λ (o : Option (List Message)). elim o as (λ _. ℕ) [ none ↦ 0 | some nodes ↦ length nodes ])
        (find-insert key key (r ∷ rs) b.buffers
          ∙ ap (λ c. if c then some (r ∷ rs) else find key b.buffers)
              ((key_beq_iff key key).1 refl))

  depth-chain :
      (key : Key) (b : OrderingBuffer) (n : SequenceNumber) (nodes : List Message)
      → chain F key b ≡ some (n, nodes)
      → depth F key b ≡ length nodes
  depth-chain key b n nodes e = ground arith

  -- The result depends on the recursive call only where there is one.
  send_found_same :
      (key : Key) (n : SequenceNumber) (o : Option (Message × List Message)) (b : OrderingBuffer)
      (q : Q) (f g : State F → Bool × State F)
      → ((m : Message) (r : Message) (rs : List Message)
          → o ≡ some (m, r ∷ rs)
          → f (sent_from F key n (r ∷ rs) b, (push q m).1)
            ≡ g (sent_from F key n (r ∷ rs) b, (push q m).1))
      → send_found F key n o (b, q) f ≡ send_found F key n o (b, q) g
  send_found_same key n none b q f g h = refl
  send_found_same key n (some (m, [])) b q f g h = refl
  send_found_same key n (some (m, r ∷ rs)) b q f g h =
      ap
        (λ (x : Bool × State F). elim (push q m).0 as (λ _. Bool × State F) [
          | false ↦ (false, (b, (push q m).1))
          | true ↦ (true, x.1)
        ])
        (h m r rs refl)

  same_from :
      (f g : ℕ) (key : Key) (b : OrderingBuffer) (q : Q)
      → depth F key b < f
      → depth F key b < g
      → send_next F f key (b, q) ≡ send_next F g key (b, q)
  unfolding send_next
  same_from zero g key b q lt lt' = absurd (omega (arith, lt))
  same_from (suc f) zero key b q lt lt' = absurd (omega (arith, lt'))
  same_from (suc f) (suc g) key b q lt lt' = elim (Option-cases (chain F key b)) [
    | inl e ↦ rw (e, send_next) refl
    | inr ((n, nodes), e) ↦
        rw (e, send_next)
          (send_found_same key n (take_number n nodes) b q (send_next F f key) (send_next F g key)
            λ m r rs taken.
              let shorter = length-take_number n nodes m (r ∷ rs) taken in
              let here = depth-chain key b n nodes e in
              let there = depth-sent_from key n r rs b in
              same_from f g key (sent_from F key n (r ∷ rs) b) (push q m).1
                (omega (arith, shorter, here, there, lt))
                (omega (arith, shorter, here, there, lt')))
  ]

  -- The recursion of `try_send_next` ends: with more fuel than the length of the key's chain,
  -- nothing changes any more.
  pub send_next-try_send_next :
      (fuel : ℕ) (key : Key) (b : OrderingBuffer) (q : Q)
      → depth F key b < fuel
      → send_next F fuel key (b, q) ≡ try_send_next F key (b, q)
  unfolding try_send_next
  send_next-try_send_next fuel key b q lt =
      same_from fuel (suc (depth F key b)) key b q lt (omega arith)
