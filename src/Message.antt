-- ===== src/Message.antt =====
-- include/message.h: the message, and the key under which its order is tracked.
use message_router.Base.{ℕ, ◌≡◌, ◌↔◌, Bool, true, ◌&&◌, arith, ◌==◌}
use message_router.Base.Assoc.{Eq}

-- `uint8_t`, `uint32_t` and `uint64_t`: where a value is made, its wrap is written out.
abbrev pub MessageType : Type 0
MessageType = ℕ

abbrev pub ProducerId : Type 0
ProducerId = ℕ

abbrev pub ProcessorId : Type 0
ProcessorId = ℕ

abbrev pub StrategyId : Type 0
StrategyId = ℕ

abbrev pub SequenceNumber : Type 0
SequenceNumber = ℕ

pub record Message : Type 0 where
  pub msg_type : MessageType
  pub producer_id : ProducerId
  pub sequence_number : SequenceNumber
  pub timestamp : ℕ
  pub processor_id : ProcessorId
  pub processing_timestamp : ℕ

-- `Message(type, prod_id, seq, ts)`
abbrev pub new_message : MessageType → ProducerId → SequenceNumber → ℕ → Message
new_message type prod_id seq ts = record {
  msg_type = type;
  producer_id = prod_id;
  sequence_number = seq;
  timestamp = ts;
  processor_id = 0;
  processing_timestamp = 0;
}

-- `std::pair<ProducerId, MessageType>`
abbrev pub Key : Type 0
Key = ProducerId × MessageType

-- `std::make_pair(message.producer_id, message.msg_type)`
abbrev pub key_of : Message → Key
key_of m = (m.producer_id, m.msg_type)

abbrev pub key_beq : Key → Key → Bool
key_beq (p, t) (q, u) = p == q && t == u

pub key_beq_iff : (a b : Key) → (key_beq a b ≡ true) ↔ (a ≡ b)
key_beq_iff (p, t) (q, u) = ground arith

instance abbrev pub key_eq : Eq Key
key_eq = record { beq = key_beq; beq_iff = key_beq_iff }
