-- ===== src/Ordering.antt =====
-- include/ordering_buffer.h and src/ordering_buffer.cpp: `OrderingBuffer`. A chain of
-- `MessageNode`s is the list of its messages, a null pointer the empty list. `std::sort` is a
-- parameter of `flush_all`. The two atomics are 64-bit counters; one thread calls the methods.
pub mod Empty
pub mod SendNext
pub mod Sent
mod Tests
use message_router.Base.{
  ℕ, zero, suc, Bool, true, false, List, [], ◌∷◌, Option, none, some, add64, sub64, ◌==◌, ltb,
  if◌then◌else◌, length,
}
use message_router.Base.Assoc.{find, insert, erase}
use message_router.Message.{Message, Key, key_of, key_eq, SequenceNumber}
use message_router.Queue.Client.{QueueApi}

pub record OrderingBuffer : Type 0 where
  pub buffers : List (Key × List Message)
  pub expected_sequence : List (Key × SequenceNumber)
  pub max_buffer_size : ℕ
  pub messages_buffered : ℕ
  pub messages_sent : ℕ

-- The constructor.
abbrev pub new_buffer : ℕ → OrderingBuffer
new_buffer max_buffer_size = record {
  buffers = [];
  expected_sequence = [];
  max_buffer_size = max_buffer_size;
  messages_buffered = 0;
  messages_sent = 0;
}

unfoldable pub get_buffer_size : OrderingBuffer → ℕ
get_buffer_size b = b.messages_buffered

-- `expected_sequence_[key] = number + 1` and `messages_sent_.fetch_add(1)`.
abbrev pub expect_after : OrderingBuffer → Key → SequenceNumber → OrderingBuffer
expect_after b key number = record b {
  expected_sequence = insert key (add64 number 1) b.expected_sequence;
  messages_sent = add64 b.messages_sent 1;
}

-- The walk along the chain: the first message with the number, and the chain without it.
unfoldable pub take_number : SequenceNumber → List Message → Option (Message × List Message)
take_number n [] = none
take_number n (m ∷ nodes) =
    if m.sequence_number == n
    then some (m, nodes)
    else elim (take_number n nodes) [ none ↦ none | some (found, rest) ↦ some (found, m ∷ rest) ]

module _ (F : QueueApi Message) where
  open F use {Q, push}

  -- What `try_send_next` works on, and its result first where it has one.
  abbrev pub State : Type 0
  State = OrderingBuffer × Q

  -- A chain that is used up is erased.
  abbrev pub left : Key → List Message → List (Key × List Message) → List (Key × List Message)
  left key [] buffers = erase key buffers
  left key (m ∷ nodes) buffers = insert key (m ∷ nodes) buffers

  -- The bookkeeping after a message of the chain was sent, up to the recursive call.
  abbrev pub sent_from : Key → SequenceNumber → List Message → OrderingBuffer → OrderingBuffer
  sent_from key n rest b = record b {
    buffers = left key rest b.buffers;
    expected_sequence = insert key (add64 n 1) b.expected_sequence;
    messages_buffered = sub64 b.messages_buffered 1;
    messages_sent = add64 b.messages_sent 1;
  }

  -- The chain and the number that `try_send_next` starts from; `none` is an early `return false`.
  abbrev pub chain : Key → OrderingBuffer → Option (SequenceNumber × List Message)
  chain key b = elim (find key b.buffers) [
    | none ↦ none
    | some [] ↦ none
    | some (m ∷ nodes) ↦ elim (find key b.expected_sequence) [
      | none ↦ none
      | some n ↦ some (n, m ∷ nodes)
    ]
  ]

  -- One message of the chain, pushed if it has the number; then the recursive call `again`, of
  -- which the result is not used.
  abbrev pub send_found :
      Key
      → SequenceNumber
      → Option (Message × List Message)
      → State
      → (State → Bool × State)
      → Bool × State
  send_found key n none s again = (false, s)
  send_found key n (some (m, rest)) (b, q) again = elim (push q m).0 [
    | false ↦ (false, (b, (push q m).1))
    | true ↦ elim rest [
      | [] ↦ (true, (sent_from key n [] b, (push q m).1))
      | r ∷ rs ↦ (true, (again (sent_from key n (r ∷ rs) b, (push q m).1)).1)
    ]
  ]

  -- The recursion, on fuel: each call sends a message of the chain.
  unfoldable pub send_next : ℕ → Key → State → Bool × State
  send_next zero key s = (false, s)
  send_next (suc fuel) key (b, q) = elim (chain key b) [
    | none ↦ (false, (b, q))
    | some (n, nodes) ↦ send_found key n (take_number n nodes) (b, q) (send_next fuel key)
  ]

  -- The number of messages in the key's chain bounds the depth of the recursion.
  abbrev pub depth : Key → OrderingBuffer → ℕ
  depth key b = elim (find key b.buffers) [ none ↦ 0 | some nodes ↦ length nodes ]

  unfoldable pub try_send_next : Key → State → Bool × State
  unfolding send_next
  try_send_next key (b, q) = send_next (suc (depth key b)) key (b, q)

  -- `messages_sent_` counts the call of `try_push`, whatever it returns.
  abbrev pub add_expected : Message → State → Bool × State
  add_expected m (b, q) =
      let b' = expect_after b (key_of m) m.sequence_number in
      let (sent, q') = push q m in
      if sent then (sent, (try_send_next (key_of m) (b', q')).1) else (sent, (b', q'))

  abbrev pub add_first : Message → State → Bool × State
  add_first m (b, q) =
      let (sent, q') = push q m in (sent, (expect_after b (key_of m) m.sequence_number, q'))

  unfoldable pub add_message : Message → State → Bool × State
  add_message m (b, q) = elim (find (key_of m) b.expected_sequence) [
    | none ↦ add_first m (b, q)
    | some n ↦
        if m.sequence_number == n
        then add_expected m (b, q)
        else if ltb n m.sequence_number
        then add_first m (b, q)
        else (true, (b, q))
  ]

  -- `for (msg : messages) { try_push(msg); messages_sent_.fetch_add(1); }`
  unfoldable pub push_all : List Message → State → State
  push_all [] s = s
  push_all (m ∷ ms) (b, q) =
      push_all ms (record b { messages_sent = add64 b.messages_sent 1 }, (push q m).1)

  unfoldable pub flush_buffers :
      (List Message → List Message) → List (Key × List Message) → State → State
  unfolding push_all
  flush_buffers sort [] s = s
  flush_buffers sort ((key, nodes) ∷ more) s = flush_buffers sort more (push_all (sort nodes) s)

  unfoldable pub flush_all : (List Message → List Message) → State → State
  unfolding flush_buffers
  flush_all sort (b, q) =
      let (b', q') = flush_buffers sort b.buffers (b, q) in
      (record b' { buffers = []; messages_buffered = 0 }, q')
