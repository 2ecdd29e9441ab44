-- ===== src/Producer.antt =====
-- include/producer.h and src/producer.cpp. A loop step is one test of `running_`, one reading of
-- the clock with what follows it, or one `try_push`; the clock's reading and the drawn type are
-- arguments. Times are nanoseconds, and yield() has no effect on the state.
pub mod Handling
pub mod Manager
mod Tests
use message_router.Base.{
  ℕ, zero, suc, ◌+◌, ◌/◌, ◌^◌, Bool, true, false, Option, none, some, u64, add64, ltb,
  if◌then◌else◌,
}
use message_router.Base.Int.{ℤ, pos, negsuc}
use message_router.Config.{SystemConfig}
use message_router.Message.{Message, MessageType, ProducerId, SequenceNumber, new_message}
use message_router.Lifecycle
use message_router.Lifecycle.{Life, Fate, returns, ◌>>=◌}
use message_router.Queue.Client.{QueueApi}

pub record Producer : Type 0 where
  pub producer_id : ProducerId
  pub life : Life
  pub messages_produced : ℕ
  pub next_sequence : SequenceNumber

unfoldable pub new_producer : ProducerId → Producer
new_producer id = record {
  producer_id = id;
  life = Lifecycle.fresh;
  messages_produced = 0;
  next_sequence = 1;
}

abbrev pub get_messages_produced : Producer → ℕ
get_messages_produced p = p.messages_produced

abbrev with_life : Producer → Fate Life → Fate Producer
with_life p f = do l ← f; returns (record p { life = l })

unfoldable pub start : Producer → Fate Producer
start p = with_life p (Lifecycle.start p.life)

unfoldable pub stop : Producer → Fate Producer
stop p = with_life p (Lifecycle.stop p.life)

-- The destructor.
unfoldable pub destroy : Producer → Fate (Unit {0})
destroy p = Lifecycle.destroy p.life

-- `static_cast<uint64_t>(1e9 / messages_per_sec)`; `none` is a value out of range (an infinite or a
-- negative one), of which the conversion is undefined.
unfoldable pub interval_of : ℤ → Option ℕ
interval_of (pos zero) = none
interval_of (pos (suc n)) = some (10 ^ 9 / suc n)
interval_of (negsuc n) = none

-- Where the thread stands: at the test of `running_`; at the reading of the clock; at the test of
-- the retry loop with a message made at the time given; or behind the loop.
pub data Pc : Type 0 where
  checking : Pc
  reading : Pc
  sending : Message → ℕ → ℕ → Pc
  ended : Pc

-- `retry < 100`
abbrev pub max_retries : ℕ
max_retries = 100

-- `Message message(msg_type, producer_id_, next_sequence_++, timestamp)`
abbrev pub make : Producer → MessageType → ℕ → Message
make p t now = new_message t p.producer_id p.next_sequence (u64 now)

abbrev pub count_made : Producer → Producer
count_made p = record p { next_sequence = add64 p.next_sequence 1 }

abbrev pub count_produced : Producer → Producer
count_produced p = record p { messages_produced = add64 p.messages_produced 1 }

module _ (F : QueueApi Message) where
  open F use {Q, push}

  -- The producer, where it stands, `next_message_time`, and its queue.
  abbrev pub State : Type 0
  State = Producer × Pc × ℕ × Q

  -- After the retry loop, whether the message was sent or not.
  abbrev pub tried : ℕ → Producer → Message → ℕ → ℕ → ℕ → Bool × Q → State
  tried interval p m made retry next (true, q) = (count_produced p, checking, made + interval, q)
  tried interval p m made retry next (false, q) = (p, sending m made (retry + 1), next, q)

  unfoldable pub loop_step : ℕ → ℕ → MessageType → State → State
  loop_step interval now t (p, checking, next, q) =
      if p.life.running then (p, reading, next, q) else (p, ended, next, q)
  loop_step interval now t (p, reading, next, q) =
      if ltb now next
      then (p, checking, next, q)
      else (count_made p, sending (make p t now) now 0, next, q)
  loop_step interval now t (p, sending m made retry, next, q) =
      if ltb retry max_retries
      then tried interval p m made retry next (push q m)
      else (p, checking, made + interval, q)
  loop_step interval now t (p, ended, next, q) = (p, ended, next, q)
