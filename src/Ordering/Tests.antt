-- ===== src/Ordering/Tests.antt =====
-- An ordering buffer that is given a message twice.
use message_router.Base.{◌≡◌, List, [], ◌∷◌}
use message_router.Message.{new_message}
use message_router.Ordering.{new_buffer, get_buffer_size}
use message_router.Ordering.Empty.{Call, add, flush, calls, filter, never_buffers}
use message_router.Samples.{small_queue}
use message_router.Base.{arith}
use message_router.Base.Assoc.{find}
use message_router.Ordering.{OrderingBuffer, send_next, try_send_next}
use message_router.Ordering.Sent.{calls-Ascending}
use message_router.Pipeline.Pick.{pick}
use message_router.Pipeline.Ascending.{Ascending}
use message_router.Ordering.SendNext.{send_next-try_send_next}

abbrev late : List Call
late =
    add (new_message 0 0 2 0) ∷ add (new_message 0 0 1 0) ∷ flush ∷ add (new_message 0 0 2 0) ∷ []

never_buffers_example :
    (calls small_queue (λ l. l) late (new_buffer 10, small_queue.new)
      ≡ filter small_queue (λ l. l) late (new_buffer 10, small_queue.new))
    × (get_buffer_size (calls small_queue (λ l. l) late (new_buffer 10, small_queue.new)).0 ≡ 0)
never_buffers_example = never_buffers small_queue (λ l. l) late 10 small_queue.new

-- A buffer that holds a chain of two messages, as no call leaves one.
abbrev stored : OrderingBuffer
stored = record (new_buffer 10) {
  buffers = ((0, 0), new_message 0 0 2 0 ∷ new_message 0 0 1 0 ∷ []) ∷ [];
  expected_sequence = ((0, 0), 1) ∷ [];
}

send_next-try_send_next_example :
    send_next small_queue 7 (0, 0) (stored, small_queue.new)
    ≡ try_send_next small_queue (0, 0) (stored, small_queue.new)
unfolding find
send_next-try_send_next_example =
    send_next-try_send_next small_queue 7 (0, 0) stored small_queue.new (omega arith)

calls-Ascending_example : Ascending (
    pick
      (0, 0)
      (small_queue.contents (calls small_queue (λ l. l) late (new_buffer 10, small_queue.new)).1))
calls-Ascending_example =
    calls-Ascending small_queue (λ l. l) late 10 (0, 0)
      (omega arith, (omega arith, (tt, (omega arith, tt))))
