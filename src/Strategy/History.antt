-- ===== src/Strategy/History.antt =====
-- What the counters and the map of a strategy say of the messages that it has processed.
use message_router.Base.{
  ℕ, ◌+◌, ◌<◌, ◌≤◌, ◌^◌, ◌≡◌, ◌≢◌, ◌↔◌, refl, ap, ◌∙◌, List, [], ◌∷◌, ◌++◌, Option, none, some,
  arith, inl, inr, Bool-cases, add64, u64, ◌==◌, if◌then◌else◌, length, All,
}
use message_router.Base.Assoc.{find, find-insert}
use message_router.Message.{Message, Key, key_of, key_beq, key_beq_iff, key_eq, SequenceNumber}
use message_router.Strategy.{Strategy, new_strategy, process_message, violates}

-- The messages in the order in which they are processed.
abbrev pub process : Strategy → List Message → Strategy
process s [] = s
process s (m ∷ ms) = process (process_message s m) ms

-- The newest message of a key in a history, which has the newest message first.
abbrev pub last_of : Key → List Message → Option Message
last_of k [] = none
last_of k (m ∷ history) = if key_beq (key_of m) k then some m else last_of k history

-- `m` does not carry the number that follows `previous`.
abbrev pub breaks : Message → Option Message → ℕ
breaks m none = 0
breaks m (some previous) = if m.sequence_number == add64 previous.sequence_number 1 then 0 else 1

-- How many messages did not follow the one before them of their producer and type.
abbrev pub gaps : List Message → ℕ
gaps [] = 0
gaps (m ∷ history) = gaps history + breaks m (last_of (key_of m) history)

abbrev pub next_number : Option Message → Option SequenceNumber
next_number none = none
next_number (some m) = some (add64 m.sequence_number 1)

-- The strategy has processed `history`, newest first.
pub record Records (history : List Message) (s : Strategy) : Type 0 where
  pub delivered : s.messages_delivered ≡ u64 (length history)
  pub violations : s.ordering_violations ≡ u64 (gaps history)
  pub expected : (k : Key) → find k s.expected_sequence ≡ next_number (last_of k history)

pub new_strategy-Records : (id : ℕ) → Records [] (new_strategy id)
unfolding new_strategy find
new_strategy-Records id = record { delivered = refl; violations = refl; expected = λ k. refl }

violates-breaks :
    (m : Message) (o : Option Message) (n v : ℕ)
    → v ≡ u64 n
    → (if violates m (next_number o) then add64 v 1 else v) ≡ u64 (n + breaks m o)
violates-breaks m none n v e = omega arith
violates-breaks m (some p) n v e = ground arith

pub process_message-Records :
    (history : List Message) (s : Strategy) (m : Message)
    → Records history s
    → Records (m ∷ history) (process_message s m)
unfolding process_message
process_message-Records history s m r = record {
  delivered = omega (arith, r.delivered);
  violations = rw (r.expected (key_of m)) (
      violates-breaks m (last_of (key_of m) history) (gaps history) s.ordering_violations
        r.violations);
  expected = λ k.
      find-insert (key_of m) k (add64 m.sequence_number 1) s.expected_sequence
      ∙ elim (Bool-cases (key_beq (key_of m) k)) [ inl e ↦ rw e | inr e ↦ rw e (r.expected k) ];
}

-- The history, newest first, after the messages.
abbrev pub onto : List Message → List Message → List Message
onto history [] = history
onto history (m ∷ ms) = onto (m ∷ history) ms

process-Records :
    (history : List Message) (s : Strategy) (ms : List Message)
    → Records history s
    → Records (onto history ms) (process s ms)
process-Records history s [] r = r
process-Records history s (m ∷ ms) r =
    process-Records (m ∷ history) (process_message s m) ms (process_message-Records history s m r)

-- After any messages, a new strategy has counted all of them as delivered and, as violations, the
-- messages whose number does not follow the number of the message before them of the same producer
-- and type (both counters modulo 2 ^ 64); its map holds, for each producer and type, the number
-- after that of the last such message.
pub process_counts :
    (id : ℕ) (ms : List Message) → Records (onto [] ms) (process (new_strategy id) ms)
process_counts id ms = process-Records [] (new_strategy id) ms (new_strategy-Records id)

abbrev pub Follows : Message → Option Message → Type 0
Follows m none = Unit
Follows m (some previous) = m.sequence_number ≡ add64 previous.sequence_number 1

-- In a history: each message carries the number after that of the one before it of its key.
abbrev pub Consecutive : List Message → Type 0
Consecutive [] = Unit
Consecutive (m ∷ history) = Consecutive history × Follows m (last_of (key_of m) history)

breaks_iff : (m : Message) (o : Option Message) → (breaks m o ≡ 0) ↔ Follows m o
breaks_iff m none = (λ _. tt, λ _. refl)
breaks_iff m (some p) = ground arith

gaps_iff : (history : List Message) → (gaps history ≡ 0) ↔ Consecutive history
gaps_iff [] = (λ _. tt, λ _. refl)
gaps_iff (m ∷ history) =
    let one = breaks_iff m (last_of (key_of m) history) in
    let rest = gaps_iff history in
    (
      λ e. (rest.0 (omega arith), one.0 (omega arith)),
      λ c. let a = rest.1 c.0 in let b = one.1 c.1 in omega (arith, a, b),
    )

gaps-le : (history : List Message) → gaps history ≤ length history
gaps-le [] = omega arith
gaps-le (m ∷ history) = omega (arith, gaps-le history, breaks-le m (last_of (key_of m) history))
  where
    breaks-le : (m : Message) (o : Option Message) → breaks m o ≤ 1
    breaks-le m none = omega arith
    breaks-le m (some p) = ground arith

length-onto : (history ms : List Message) → length (onto history ms) ≡ length history + length ms
length-onto history [] = omega arith
length-onto history (m ∷ ms) = omega (arith, length-onto (m ∷ history) ms)

-- Of fewer than 2 ^ 64 messages, a new strategy reports no violation exactly when the numbers of
-- each producer and type follow one another without a gap.
pub no_violations_iff :
    (id : ℕ) (ms : List Message)
    → length ms < 2 ^ 64
    → ((process (new_strategy id) ms).ordering_violations ≡ 0) ↔ Consecutive (onto [] ms)
no_violations_iff id ms few = (
  λ e. (gaps_iff h).0 (omega (arith, counted, bound, e)),
  λ c. let z = (gaps_iff h).1 c in omega (arith, counted, z),
)
  where
    h : List Message
    h = onto [] ms

    counted : (process (new_strategy id) ms).ordering_violations ≡ u64 (gaps h)
    counted = (process_counts id ms).violations

    bound : gaps h < 2 ^ 64
    bound = omega (arith, gaps-le h, length-onto [] ms)

process-append :
    (s : Strategy) (xs ys : List Message) → process s (xs ++ ys) ≡ process (process s xs) ys
process-append s [] ys = refl
process-append s (m ∷ xs) ys = process-append (process_message s m) xs ys

find-process :
    (k : Key) (s : Strategy) (ms : List Message)
    → All (λ m. key_of m ≢ k) ms
    → find k (process s ms).expected_sequence ≡ find k s.expected_sequence
unfolding process_message
find-process k s [] h = refl
find-process k s (m ∷ ms) h =
    find-process k (process_message s m) ms h.1
    ∙ find-insert (key_of m) k (add64 m.sequence_number 1) s.expected_sequence
    ∙ elim (Bool-cases (key_beq (key_of m) k)) [
      | inl e ↦ absurd (h.0 ((key_beq_iff (key_of m) k).0 e))
      | inr e ↦ rw e
    ]

found_after :
    (s : Strategy) (m : Message) (k : Key)
    → key_of m ≡ k
    → find k (process_message s m).expected_sequence ≡ some (add64 m.sequence_number 1)
unfolding process_message
found_after s m k e =
    find-insert (key_of m) k (add64 m.sequence_number 1) s.expected_sequence
    ∙ rw ((key_beq_iff (key_of m) k).1 e)

count_unexpected :
    (s : Strategy) (m : Message) (e : SequenceNumber)
    → find (key_of m) s.expected_sequence ≡ some e
    → m.sequence_number ≢ e
    → (process_message s m).ordering_violations ≡ add64 s.ordering_violations 1
unfolding process_message
count_unexpected s m e found ne = rw found (ground arith)

-- A strategy reports a violation although nothing is lost or out of order, wherever a producer
-- changes type: it sends `m`, then some messages of other types, then `m'` of the type of `m`, and
-- numbers all of them without a gap, as the producer's one counter does. When all of them arrive in
-- order, `m'` is counted as a violation.
pub spurious_violation :
    (s : Strategy) (m m' : Message) (between : List Message)
    → key_of m ≡ key_of m'
    → All (λ b. key_of b ≢ key_of m') between
    → 0 < length between
    → m'.sequence_number ≡ m.sequence_number + length between + 1
    → m'.sequence_number < 2 ^ 64
    → (process s (m ∷ between ++ (m' ∷ []))).ordering_violations
      ≡ add64 (process s (m ∷ between)).ordering_violations 1
spurious_violation s m m' between same others some_between numbered fits =
    ap (λ (t : Strategy). t.ordering_violations)
      (process-append (process_message s m) between (m' ∷ []))
    ∙ count_unexpected (process (process_message s m) between) m' (add64 m.sequence_number 1) found
        (omega arith)
  where
    found :
        find (key_of m') (process (process_message s m) between).expected_sequence
        ≡ some (add64 m.sequence_number 1)
    found =
        find-process (key_of m') (process_message s m) between others
        ∙ found_after s m (key_of m') same
