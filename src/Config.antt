-- ===== src/Config.antt =====
-- include/config.h and src/config.cpp: the configuration, its validation and the rule lookups.
-- `Load` is `load_from_file`. `Double` stands for `double`, which the program only stores.
pub mod Lookup
pub mod Load
mod Tests
use Prim.Native.String.{String}
use message_router.Base.{ℕ, Bool, true, false, ◌||◌, ◌&&◌, not, List, [], ◌∷◌, ◌==◌, if◌then◌else◌}
use message_router.Base.Int.{ℤ, le_zero}
use message_router.Message.{MessageType, ProcessorId, StrategyId}

pub record ProducerConfig (Double : Type 0) : Type 0 where
  pub count : ℤ
  pub messages_per_sec : ℤ
  pub distribution : List (String × Double)

pub record ProcessorConfig : Type 0 where
  pub count : ℤ
  pub processing_times_ns : List (String × ℕ)

pub record StrategyConfig : Type 0 where
  pub count : ℤ
  pub processing_times_ns : List (String × ℕ)

pub record Stage1Rule : Type 0 where
  pub msg_type : MessageType
  pub processors : List ProcessorId

pub record Stage2Rule : Type 0 where
  pub msg_type : MessageType
  pub strategy : StrategyId
  pub ordering_required : Bool

pub record SystemConfig (Double : Type 0) : Type 0 where
  pub scenario : String
  pub duration_secs : ℤ
  pub producers : ProducerConfig Double
  pub processors : ProcessorConfig
  pub strategies : StrategyConfig
  pub stage1_rules : List Stage1Rule
  pub stage2_rules : List Stage2Rule

unfoldable pub validate : {Double : Type 0} → SystemConfig Double → Bool
validate c =
    if le_zero c.producers.count || (le_zero c.processors.count || le_zero c.strategies.count)
    then false
    else if le_zero c.duration_secs
    then false
    else true

-- `!processors.empty()` and `processors[0]` in one.
abbrev pub first_or : List ProcessorId → ProcessorId → ProcessorId
first_or [] other = other
first_or (p ∷ ps) other = p

-- The loop of `get_processor_for_message`.
unfoldable pub processor_of : List Stage1Rule → MessageType → ProcessorId
processor_of [] t = 0
processor_of (rule ∷ rules) t =
    if rule.msg_type == t
    then first_or rule.processors (processor_of rules t)
    else processor_of rules t

-- The loop of `get_strategy_for_message`.
unfoldable pub strategy_of : List Stage2Rule → MessageType → StrategyId
strategy_of [] t = 0
strategy_of (rule ∷ rules) t = if rule.msg_type == t then rule.strategy else strategy_of rules t

-- The loop of `is_ordering_required`.
unfoldable pub ordering_of : List Stage2Rule → MessageType → Bool
ordering_of [] t = false
ordering_of (rule ∷ rules) t =
    if rule.msg_type == t then rule.ordering_required else ordering_of rules t

module _ {Double : Type 0} (c : SystemConfig Double) where
  abbrev pub get_processor_for_message : MessageType → ProcessorId
  get_processor_for_message = processor_of c.stage1_rules

  abbrev pub get_strategy_for_message : MessageType → StrategyId
  get_strategy_for_message = strategy_of c.stage2_rules

  abbrev pub is_ordering_required : MessageType → Bool
  is_ordering_required = ordering_of c.stage2_rules
