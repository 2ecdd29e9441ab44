-- ===== src/Config/Load.antt =====
-- `SystemConfig::load_from_file`. The file system and jsoncpp are a parameter: what the loader calls
-- of them, each call with its exceptions.
pub mod Rules
use Prim.Native.String.{String}
use text.Mathlib.Text.{◌==◌ as str_eq}
use text.Mathlib.TextEquality.{eq_iff}
use message_router.Base.{
  ℕ, ◌<◌, ◌^◌, ◌≡◌, refl, Bool, List, [], ◌∷◌, Option, none, some, ◌⊎◌, inl, inr, arith,
  Option-cases, All, length, u8,
}
use message_router.Base.Assoc.{Eq, insert}
use message_router.Base.Int.{ℤ}
use message_router.Config.{
  ProducerConfig, ProcessorConfig, StrategyConfig, Stage1Rule, Stage2Rule, SystemConfig,
}

instance abbrev pub string_eq : Eq String
string_eq = record { beq = str_eq; beq_iff = eq_iff }

-- The two `runtime_error`s of the loader, and an exception of jsoncpp.
pub data Failure : Type 0 where
  cannot_open : String → Failure
  parse_error : String → Failure
  json_error : String → Failure

pub data Outcome {ℓ} (A : Type ℓ) : Type ℓ where
  ok : A → Outcome A
  throws : Failure → Outcome A

infixl 5 ◌>>=◌
abbrev pub ◌>>=◌ {ℓ κ} : {A : Type ℓ} {B : Type κ} → Outcome A → (A → Outcome B) → Outcome B
ok a >>= f = f a
throws e >>= f = throws e

-- `open_file` is the text that an `ifstream` reads, if it opens; `parse` is `parseFromStream`, with
-- its errors on the right; `member` is `operator[]`, and `elements` a walk from begin() to end().
pub record Json : Type 1 where
  pub Value : Type 0
  pub Double : Type 0
  pub open_file : String → Option String
  pub parse : String → Value ⊎ String
  pub member : Value → String → Outcome Value
  pub member_names : Value → Outcome (List String)
  pub elements : Value → List Value
  pub as_string : Value → Outcome String
  pub as_int : Value → Outcome ℤ
  pub as_uint : Value → Outcome ℕ
  pub as_uint64 : Value → Outcome ℕ
  pub as_double : Value → Outcome Double
  pub as_bool : Value → Outcome Bool

module _ (j : Json) where
  open j use {
    Value, Double, open_file, parse, member, member_names, elements, as_string, as_int, as_uint,
    as_uint64, as_double, as_bool,
  }

  -- `for (key : names) map[key] = v[key].as…()`
  fill :
      {V : Type 0}
      → (Value → Outcome V)
      → Value
      → List String
      → List (String × V)
      → Outcome (List (String × V))
  fill convert v [] map = ok map
  fill convert v (key ∷ keys) map = do
    x ← member v key
    y ← convert x
    fill convert v keys (insert key y map)

  load_producers : Value → Outcome (ProducerConfig Double)
  unfolding fill
  load_producers producers = do
    count_json ← member producers "count"
    count ← as_int count_json
    rate_json ← member producers "messages_per_sec"
    rate ← as_int rate_json
    dist_json ← member producers "distribution"
    names ← member_names dist_json
    distribution ← fill as_double dist_json names []
    ok (record { count = count; messages_per_sec = rate; distribution = distribution })

  load_processors : Value → Outcome ProcessorConfig
  unfolding fill
  load_processors processors = do
    count_json ← member processors "count"
    count ← as_int count_json
    proc_times ← member processors "processing_times_ns"
    names ← member_names proc_times
    times ← fill as_uint64 proc_times names []
    ok (record { count = count; processing_times_ns = times })

  load_strategies : Value → Outcome StrategyConfig
  unfolding fill
  load_strategies strategies = do
    count_json ← member strategies "count"
    count ← as_int count_json
    strat_times ← member strategies "processing_times_ns"
    names ← member_names strat_times
    times ← fill as_uint64 strat_times names []
    ok (record { count = count; processing_times_ns = times })

  -- `for (proc : rule["processors"]) r.processors.push_back(proc.asUInt())`
  load_ids : List Value → Outcome (List ℕ)
  load_ids [] = ok []
  load_ids (v ∷ vs) = do id ← as_uint v; ids ← load_ids vs; ok (id ∷ ids)

  -- `asUInt()` is narrowed to `uint8_t`.
  load_stage1_rule : Value → Outcome Stage1Rule
  unfolding load_ids
  load_stage1_rule rule = do
    type_json ← member rule "msg_type"
    type ← as_uint type_json
    procs ← member rule "processors"
    ids ← load_ids (elements procs)
    ok (record { msg_type = u8 type; processors = ids })

  load_stage2_rule : Value → Outcome Stage2Rule
  load_stage2_rule rule = do
    type_json ← member rule "msg_type"
    type ← as_uint type_json
    strategy_json ← member rule "strategy"
    strategy ← as_uint strategy_json
    ordering_json ← member rule "ordering_required"
    ordering ← as_bool ordering_json
    ok (record { msg_type = u8 type; strategy = strategy; ordering_required = ordering })

  load_stage1 : List Value → Outcome (List Stage1Rule)
  unfolding load_stage1_rule
  load_stage1 [] = ok []
  load_stage1 (v ∷ vs) = do rule ← load_stage1_rule v; rules ← load_stage1 vs; ok (rule ∷ rules)

  load_stage2 : List Value → Outcome (List Stage2Rule)
  unfolding load_stage2_rule
  load_stage2 [] = ok []
  load_stage2 (v ∷ vs) = do rule ← load_stage2_rule v; rules ← load_stage2 vs; ok (rule ∷ rules)

  unfoldable pub read_config : Value → Outcome (SystemConfig Double)
  unfolding load_producers load_processors load_strategies load_stage1 load_stage2
  read_config root = do
    scenario_json ← member root "scenario"
    scenario ← as_string scenario_json
    duration_json ← member root "duration_secs"
    duration ← as_int duration_json
    producers_json ← member root "producers"
    producers ← load_producers producers_json
    processors_json ← member root "processors"
    processors ← load_processors processors_json
    strategies_json ← member root "strategies"
    strategies ← load_strategies strategies_json
    stage1_json ← member root "stage1_rules"
    stage1 ← load_stage1 (elements stage1_json)
    stage2_json ← member root "stage2_rules"
    stage2 ← load_stage2 (elements stage2_json)
    ok (record {
      scenario = scenario;
      duration_secs = duration;
      producers = producers;
      processors = processors;
      strategies = strategies;
      stage1_rules = stage1;
      stage2_rules = stage2;
    })

  parsed : Value ⊎ String → Outcome (SystemConfig Double)
  parsed (inl root) = read_config root
  parsed (inr errors) = throws (parse_error errors)

  opened : String → Option String → Outcome (SystemConfig Double)
  unfolding parsed
  opened filename none = throws (cannot_open filename)
  opened filename (some text) = parsed (parse text)

  unfoldable pub load_from_file : String → Outcome (SystemConfig Double)
  unfolding opened
  load_from_file filename = opened filename (open_file filename)
