-- ===== src/Ordering/Empty.antt =====
-- Nothing is ever buffered: no method puts a message into `buffers_`.
use message_router.Base.{
  ℕ, ◌≡◌, refl, sym, subst, ap, List, [], ◌∷◌, Option, none, some, arith, Bool, true, false, ltb,
  if◌then◌else◌,
}
use message_router.Base.Assoc.{find}
use message_router.Message.{Message, Key, key_of, key_eq, SequenceNumber}
use message_router.Queue.Client.{QueueApi}
use message_router.Ordering.{
  OrderingBuffer, new_buffer, get_buffer_size, try_send_next, add_message, flush_all, flush_buffers,
  State, expect_after,
}

-- A call of a public method that changes the buffer.
pub data Call : Type 0 where
  add : Message → Call
  flush : Call

-- No chain, and a count of 0.
pub record IsEmpty (b : OrderingBuffer) : Type 0 where
  pub no_chain : b.buffers ≡ []
  pub no_count : b.messages_buffered ≡ 0

-- The message's number is below the one expected.
abbrev pub passed : Message → Option SequenceNumber → Bool
passed m none = false
passed m (some n) = ltb m.sequence_number n

module _ (F : QueueApi Message) (sort : List Message → List Message) where
  open F use {Q, push}

  unfoldable pub calls : List Call → State F → State F
  calls [] s = s
  calls (add m ∷ cs) s = calls cs (add_message F m s).1
  calls (flush ∷ cs) s = calls cs (flush_all F sort s)

  no_chain_found : (key : Key) (b : OrderingBuffer) → b.buffers ≡ [] → find key b.buffers ≡ none
  unfolding find
  no_chain_found key b e = rw e

  -- Without a chain `try_send_next` does nothing.
  pub try_send_next_empty :
      (key : Key) (b : OrderingBuffer) (q : Q)
      → b.buffers ≡ []
      → try_send_next F key (b, q) ≡ (false, (b, q))
  unfolding try_send_next
  try_send_next_empty key b q e = ground (arith, no_chain_found key b e)

  -- What `add_message` comes to: a message whose number has been passed is dropped, and any other
  -- is pushed at once.
  unfoldable pub pass : Message → State F → Bool × State F
  pass m (b, q) =
      if passed m (find (key_of m) b.expected_sequence)
      then (true, (b, q))
      else ((push q m).0, (expect_after b (key_of m) m.sequence_number, (push q m).1))

  -- Where nothing is buffered, `add_message` is `pass`.
  pub add_message-pass :
      (m : Message) (b : OrderingBuffer) (q : Q)
      → IsEmpty b
      → add_message F m (b, q) ≡ pass m (b, q)
  unfolding add_message pass
  add_message-pass m b q v = ground (
    arith,
    v.no_chain,
    try_send_next_empty (key_of m) (expect_after b (key_of m) m.sequence_number) (push q m).1
        v.no_chain,
  )

  pass-IsEmpty :
      (m : Message) (b : OrderingBuffer) (q : Q) → IsEmpty b → IsEmpty (pass m (b, q)).1.0
  unfolding pass
  pass-IsEmpty m b q v = ground arith

  flush_none :
      (buffers : List (Key × List Message)) (s : State F)
      → buffers ≡ []
      → flush_buffers F sort buffers s ≡ s
  unfolding flush_buffers
  flush_none buffers s e = rw e

  flush_all_empty : (b : OrderingBuffer) (q : Q) → IsEmpty b → flush_all F sort (b, q) ≡ (b, q)
  unfolding flush_all
  flush_all_empty b q v =
      ground (arith, v.no_chain, v.no_count, flush_none b.buffers (b, q) v.no_chain)

  -- The reference: `add_message` is `pass`, and `flush_all` does nothing.
  unfoldable pub filter : List Call → State F → State F
  filter [] s = s
  filter (add m ∷ cs) s = filter cs (pass m s).1
  filter (flush ∷ cs) s = filter cs s

  filter_lem :
      (cs : List Call) (b : OrderingBuffer) (q : Q)
      → IsEmpty b
      → (calls cs (b, q) ≡ filter cs (b, q)) × IsEmpty (calls cs (b, q)).0
  unfolding calls filter
  filter_lem [] b q v = (refl, v)
  filter_lem (add m ∷ cs) b q v =
      subst (λ t. (calls cs t ≡ filter cs (pass m (b, q)).1) × IsEmpty (calls cs t).0)
        (sym (ap (λ (r : Bool × State F). r.1) (add_message-pass m b q v)))
        (filter_lem cs (pass m (b, q)).1.0 (pass m (b, q)).1.1 (pass-IsEmpty m b q v))
  filter_lem (flush ∷ cs) b q v =
      subst (λ t. (calls cs t ≡ filter cs (b, q)) × IsEmpty (calls cs t).0)
        (sym (flush_all_empty b q v)) (filter_lem cs b q v)

  -- From a new buffer on, no sequence of calls ever buffers a message: `get_buffer_size()` is 0,
  -- and the calls do to the queue and the counters what a filter does that drops the messages
  -- below the expected number, pushes all others at once and ignores `flush_all`.
  pub never_buffers :
      (cs : List Call) (size : ℕ) (q : Q)
      → (calls cs (new_buffer size, q) ≡ filter cs (new_buffer size, q))
        × (get_buffer_size (calls cs (new_buffer size, q)).0 ≡ 0)
  unfolding get_buffer_size
  never_buffers cs size q =
      let (same, v) =
        filter_lem cs (new_buffer size) q (record { no_chain = refl; no_count = refl }) in
      (same, v.no_count)
