-- ===== src/Config/Lookup.antt =====
-- Which rule a lookup takes, and when its target exists.
use message_router.Base.{
  ℕ, ◌≤◌, ◌<◌, ◌≡◌, ◌≢◌, ◌↔◌, ◌⊎◌, inl, inr, refl, subst, Bool, true, false, List, [], ◌∷◌, arith,
  Bool-cases, ◌==◌, ==_iff, All, Option, none, some,
}
use message_router.Base.Int.{rounds}
use message_router.Message.{MessageType, ProcessorId, StrategyId}
use message_router.Config.{
  SystemConfig, Stage1Rule, Stage2Rule, validate, processor_of, strategy_of, ordering_of,
  get_processor_for_message, get_strategy_for_message, is_ordering_required, first_or,
}

-- The first rule for the type that names a processor decides, by its first processor; with no such
-- rule it is processor 0.
pub data RoutesTo (t : MessageType) : List Stage1Rule → ProcessorId → Type 0 where
  hit :
      (rule : Stage1Rule) (rules : List Stage1Rule) (p : ProcessorId) (ps : List ProcessorId)
      → rule.msg_type ≡ t
      → rule.processors ≡ p ∷ ps
      → RoutesTo t (rule ∷ rules) p
  other :
      (rule : Stage1Rule) (rules : List Stage1Rule) (p : ProcessorId)
      → (rule.msg_type ≢ t) ⊎ (rule.processors ≡ [])
      → RoutesTo t rules p
      → RoutesTo t (rule ∷ rules) p
  fallback : RoutesTo t [] 0

RoutesTo-first_or :
    (rule : Stage1Rule) (rules : List Stage1Rule) (t : MessageType) (l : List ProcessorId)
    → rule.msg_type ≡ t
    → rule.processors ≡ l
    → RoutesTo t rules (processor_of rules t)
    → RoutesTo t (rule ∷ rules) (first_or l (processor_of rules t))
RoutesTo-first_or rule rules t [] same e r = other rule rules _ (inr e) r
RoutesTo-first_or rule rules t (p ∷ ps) same e r = hit rule rules p ps same e

RoutesTo-processor_of :
    (rules : List Stage1Rule) (t : MessageType) → RoutesTo t rules (processor_of rules t)
unfolding processor_of
RoutesTo-processor_of [] t = fallback
RoutesTo-processor_of (rule ∷ rules) t = elim (Bool-cases (rule.msg_type == t)) [
  | inl same ↦ rw same (
      RoutesTo-first_or rule rules t rule.processors ((==_iff _ _).0 same) refl
        (RoutesTo-processor_of rules t))
  | inr differs ↦ rw differs (
      other rule rules _ (inl (λ e. cc ((==_iff rule.msg_type t).1 e)))
        (RoutesTo-processor_of rules t))
]

processor_of-RoutesTo :
    {t : MessageType} {rules : List Stage1Rule} {p : ProcessorId}
    → RoutesTo t rules p
    → processor_of rules t ≡ p
unfolding processor_of
processor_of-RoutesTo (hit rule rules p ps same e) = ground (arith, same, e)
processor_of-RoutesTo (other rule rules p miss r) = ground (arith, processor_of-RoutesTo r)
processor_of-RoutesTo fallback = refl

-- `get_processor_for_message` returns the processor that `RoutesTo` names, and no other.
pub get_processor-RoutesTo :
    {Double : Type 0} (c : SystemConfig Double) (t : MessageType) (p : ProcessorId)
    → (get_processor_for_message c t ≡ p) ↔ RoutesTo t c.stage1_rules p
get_processor-RoutesTo c t p = (
  λ e. subst (RoutesTo t c.stage1_rules) e (RoutesTo-processor_of c.stage1_rules t),
  λ r. processor_of-RoutesTo r,
)

-- Some first rule for the type gives both its strategy and its ordering; with none, they are 0 and
-- false.
pub data Rules2 (t : MessageType) : List Stage2Rule → Option Stage2Rule → Type 0 where
  hit :
      (rule : Stage2Rule) (rules : List Stage2Rule)
      → rule.msg_type ≡ t
      → Rules2 t (rule ∷ rules) (some rule)
  other :
      (rule : Stage2Rule) (rules : List Stage2Rule) (o : Option Stage2Rule)
      → rule.msg_type ≢ t
      → Rules2 t rules o
      → Rules2 t (rule ∷ rules) o
  missing : Rules2 t [] none

abbrev pub rule_strategy : Option Stage2Rule → StrategyId
rule_strategy none = 0
rule_strategy (some rule) = rule.strategy

abbrev pub rule_ordering : Option Stage2Rule → Bool
rule_ordering none = false
rule_ordering (some rule) = rule.ordering_required

first_rule :
    (rules : List Stage2Rule) (t : MessageType)
    → (o : Option Stage2Rule) × Rules2 t rules o
      × (strategy_of rules t ≡ rule_strategy o)
      × (ordering_of rules t ≡ rule_ordering o)
unfolding strategy_of ordering_of
first_rule [] t = (none, missing, refl, refl)
first_rule (rule ∷ rules) t = elim (Bool-cases (rule.msg_type == t)) [
  | inl same ↦ (some rule, hit rule rules ((==_iff _ _).0 same), rw same, rw same)
  | inr differs ↦
      let (o, r, s, d) = first_rule rules t in
      (o, other rule rules o (λ e. cc ((==_iff rule.msg_type t).1 e)) r, rw differs s, rw differs d)
]

-- `get_strategy_for_message` and `is_ordering_required` answer by one and the same rule: the first
-- for the type, or by 0 and false if there is none.
pub stage2_lookup :
    {Double : Type 0} (c : SystemConfig Double) (t : MessageType)
    → (o : Option Stage2Rule) × Rules2 t c.stage2_rules o
      × (get_strategy_for_message c t ≡ rule_strategy o)
      × (is_ordering_required c t ≡ rule_ordering o)
stage2_lookup c t = first_rule c.stage2_rules t

-- The rules name existing processors and strategies only.
pub record InRange {Double : Type 0} (c : SystemConfig Double) : Type 0 where
  pub stage1 :
      All (λ (r : Stage1Rule). All (λ p. p < rounds c.processors.count) r.processors) c.stage1_rules
  pub stage2 : All (λ (r : Stage2Rule). r.strategy < rounds c.strategies.count) c.stage2_rules

processor_of-lt :
    (n : ℕ) (rules : List Stage1Rule) (t : MessageType)
    → 0 < n
    → All (λ (r : Stage1Rule). All (λ p. p < n) r.processors) rules
    → processor_of rules t < n
unfolding processor_of
processor_of-lt n [] t pos h = pos
processor_of-lt n (rule ∷ rules) t pos h = ground (arith, processor_of-lt n rules t pos h.1)

strategy_of-lt :
    (n : ℕ) (rules : List Stage2Rule) (t : MessageType)
    → 0 < n
    → All (λ (r : Stage2Rule). r.strategy < n) rules
    → strategy_of rules t < n
unfolding strategy_of
strategy_of-lt n [] t pos h = pos
strategy_of-lt n (rule ∷ rules) t pos h = ground (arith, strategy_of-lt n rules t pos h.1)

pub validate_counts :
    {Double : Type 0} (c : SystemConfig Double)
    → validate c ≡ true
    → (0 < rounds c.producers.count)
      × (0 < rounds c.processors.count)
      × (0 < rounds c.strategies.count)
      × (0 < rounds c.duration_secs)
unfolding validate
validate_counts c v = ground arith

-- Where the configuration passes `validate` and its rules name only existing targets, every
-- message type, also one with no rule, is routed to an existing processor and strategy.
pub lookup-lt :
    {Double : Type 0} (c : SystemConfig Double) (t : MessageType)
    → validate c ≡ true
    → InRange c
    → (get_processor_for_message c t < rounds c.processors.count)
      × (get_strategy_for_message c t < rounds c.strategies.count)
lookup-lt c t v r =
    let (_, procs, strats, _) = validate_counts c v in
    (
      processor_of-lt (rounds c.processors.count) c.stage1_rules t procs r.stage1,
      strategy_of-lt (rounds c.strategies.count) c.stage2_rules t strats r.stage2,
    )

-- `validate` does not look at the rules: whatever valid configuration is given the rules that send
-- type `t` to a processor `p` beyond the last, it stays valid, and `t` is routed to nowhere.
pub validate_ignores_rules :
    {Double : Type 0} (c : SystemConfig Double) (t : MessageType) (p : ProcessorId)
    → validate c ≡ true
    → rounds c.processors.count ≤ p
    → let c' = record c {
      stage1_rules = record { msg_type = t; processors = p ∷ [] } ∷ c.stage1_rules;
    } in
      (validate c' ≡ true) × (rounds c'.processors.count ≤ get_processor_for_message c' t)
unfolding validate processor_of
validate_ignores_rules c t p v h = ground arith
