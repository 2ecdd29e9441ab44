-- ===== src/Ordering/Sent.antt =====
-- What the buffer pushes to a queue comes there in the order of its numbers.
use mathlib.Core.List.{not-mem-nil, Pairwise}
use native.Mathlib.Bridge.{le_prop}
use message_router.Base.{
  ℕ, ◌+◌, ◌<◌, ◌≤◌, ◌^◌, ◌≡◌, refl, sym, ap, subst, ◌∙◌, List, [], ◌∷◌, ◌++◌, Option, none, some,
  arith, Bool, true, false, if◌then◌else◌, Bool-cases, inl, inr, add64, append-nil, All,
}
use message_router.Base.Assoc.{find, find-insert}
use message_router.Message.{Message, Key, key_of, key_eq, key_beq, key_beq_iff, SequenceNumber}
use message_router.Queue.Client.{QueueApi, push-Pushed}
use message_router.Ordering.{OrderingBuffer, new_buffer, State, expect_after}
use message_router.Ordering.Empty.{passed, Call, add, flush, calls, pass, filter, never_buffers}
use message_router.Pipeline.Pick.{origin, pick, pick-append}
use message_router.Pipeline.Ascending.{Ascending, Ascending-last, Below, Mem-last}

-- The number that `expected_sequence_` gives for a key; 0 for a key that it does not have.
abbrev number : Option SequenceNumber → ℕ
number none = 0
number (some n) = n

abbrev bound : Key → OrderingBuffer → ℕ
bound key b = number (find key b.expected_sequence)

-- The number of a message has a successor in 64 bits.
abbrev pub Countable : Call → Type 0
Countable (add m) = m.sequence_number + 1 < 2 ^ 64
Countable flush = Unit

bound_after :
    (key : Key) (m : Message) (b : OrderingBuffer)
    → bound key (expect_after b (key_of m) m.sequence_number)
      ≡ (if key_beq (key_of m) key then add64 m.sequence_number 1 else bound key b)
bound_after key m b =
    ap number (find-insert (key_of m) key (add64 m.sequence_number 1) b.expected_sequence)
    ∙ by_key (key_beq (key_of m) key)
  where
    by_key :
        (c : Bool)
        → number (if c then some (add64 m.sequence_number 1) else find key b.expected_sequence)
          ≡ (if c then add64 m.sequence_number 1 else bound key b)
    by_key true = refl
    by_key false = refl

not_passed :
    (m : Message) (b : OrderingBuffer)
    → passed m (find (key_of m) b.expected_sequence) ≡ false
    → bound (key_of m) b ≤ m.sequence_number
not_passed m b e = ground arith

Below-≤ : {n n' : ℕ} {ms : List Message} → n ≤ n' → Below n ms → Below n' ms
Below-≤ le h x hx = omega (arith, le, h x hx)

-- The messages of a key ascend, and their numbers are below `n`.
abbrev Ordered : Key → ℕ → List Message → Type 0
Ordered key n ms = Below n (pick key ms) × Ascending (pick key ms)

Ordered-append :
    (key : Key) (n : ℕ) (ms : List Message) (m : Message)
    → (key_beq (key_of m) key ≡ true → n ≤ m.sequence_number)
    → Ordered key n ms
    → Ordered key (if key_beq (key_of m) key then m.sequence_number + 1 else n) (ms ++ (m ∷ []))
Ordered-append key n ms m late (below, asc) = elim (Bool-cases (key_beq (key_of m) key)) [
  | inl e ↦
      let seen : pick key (ms ++ (m ∷ [])) ≡ pick key ms ++ (origin m ∷ []) =
        pick-append key ms (m ∷ []) ∙ rw e refl in
      let low : Below m.sequence_number (pick key ms) = Below-≤ (late e) below in
      rw (e, seen)
        (
          Mem-last (λ x. x.sequence_number < m.sequence_number + 1) (λ x. le_prop) (pick key ms)
              (origin m) (Below-≤ (omega arith) low) (omega arith),
          Ascending-last (pick key ms) (origin m) low asc,
        )
  | inr e ↦
      let seen : pick key (ms ++ (m ∷ [])) ≡ pick key ms =
        pick-append key ms (m ∷ []) ∙ rw e (append-nil (pick key ms)) in
      rw (e, seen) (below, asc)
]

module _ (F : QueueApi Message) where
  open F use {Q, push, contents}

  -- The messages in the queue are in order, and the numbers to come are not below theirs.
  abbrev InOrder : State F → Type 0
  InOrder (b, q) = (key : Key) → Ordered key (bound key b) (contents q)

  try_push-Ordered :
      (key : Key) (n : ℕ) (q : Q) (m : Message)
      → m.sequence_number + 1 < 2 ^ 64
      → (key_beq (key_of m) key ≡ true → n ≤ m.sequence_number)
      → Ordered key n (contents q)
      → Ordered key
          (if key_beq (key_of m) key then add64 m.sequence_number 1 else n)
          (contents (push q m).1)
  try_push-Ordered key n q m small late v =
      let up : m.sequence_number + 1 ≡ add64 m.sequence_number 1 = omega (arith, small) in
      subst (λ h. Ordered key (if key_beq (key_of m) key then h else n) (contents (push q m).1)) up
        (elim (push-Pushed F q m) [
          | inl (_, e) ↦ subst (Ordered key _) (sym e) (Ordered-append key n (contents q) m late v)
          | inr (_, e) ↦ subst (Ordered key _) (sym e) (Below-≤ rising v.0, v.1)
        ])
    where
      rising : n ≤ (if key_beq (key_of m) key then m.sequence_number + 1 else n)
      rising = elim (Bool-cases (key_beq (key_of m) key)) [
        | inl e ↦ rw e (omega (arith, late e))
        | inr e ↦ rw e (omega arith)
      ]

  pass-InOrder :
      (sort : List Message → List Message) (m : Message) (b : OrderingBuffer) (q : Q)
      → m.sequence_number + 1 < 2 ^ 64
      → InOrder (b, q)
      → InOrder (pass F sort m (b, q)).1
  unfolding pass
  pass-InOrder sort m b q small v key =
      elim (Bool-cases (passed m (find (key_of m) b.expected_sequence))) [
        | inl e ↦ rw e (v key)
        | inr e ↦ rw e (
            subst (λ n. Ordered key n (contents (push q m).1)) (sym (bound_after key m b))
              (try_push-Ordered key (bound key b) q m small
                (λ same.
                  subst (λ h. bound h b ≤ m.sequence_number) ((key_beq_iff _ _).0 same)
                    (not_passed m b e))
                (v key)))
      ]

  filter-InOrder :
      (sort : List Message → List Message) (cs : List Call) (b : OrderingBuffer) (q : Q)
      → All Countable cs
      → InOrder (b, q)
      → InOrder (filter F sort cs (b, q))
  unfolding filter
  filter-InOrder sort [] b q small v = v
  filter-InOrder sort (add m ∷ cs) b q (s, small) v =
      filter-InOrder sort cs (pass F sort m (b, q)).1.0 (pass F sort m (b, q)).1.1 small
        (pass-InOrder sort m b q s v)
  filter-InOrder sort (flush ∷ cs) b q (s, small) v = filter-InOrder sort cs b q small v

  -- A new buffer and an empty queue, and any calls of `add_message` and `flush_all` with messages
  -- whose numbers are below 2 ^ 64 - 1, in any order and also repeated: afterwards the messages of
  -- each producer and type stand in the queue with ascending numbers, none of them twice.
  pub calls-Ascending :
      (sort : List Message → List Message) (cs : List Call) (size : ℕ) (key : Key)
      → All Countable cs
      → Ascending (pick key (contents (calls F sort cs (new_buffer size, F.new)).1))
  unfolding find
  calls-Ascending sort cs size key small =
      subst (λ s. Ascending (pick key (contents s.1))) (sym (never_buffers F sort cs size F.new).0)
        (filter-InOrder sort cs (new_buffer size) F.new small
          (λ k. subst (Ordered k 0) (sym F.new_law) (λ x hx. absurd (not-mem-nil hx), Pairwise.nil))
          key).1
