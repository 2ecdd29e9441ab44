-- ===== src/Config/Tests.antt =====
-- The rules of configs/baseline.json, and a small JSON library to load a configuration with.
use Prim.Native.String.{String}
use text.Mathlib.Text.{◌==◌ as str_eq}
use message_router.Base.{
  ℕ, ◌<◌, ◌≤◌, ◌≡◌, ◌↔◌, refl, Bool, true, false, List, [], ◌∷◌, none, some, inl, arith,
  if◌then◌else◌,
}
use message_router.Samples.{stage1, baseline, baseline-InRange}
use message_router.Base.Int.{ℤ, pos, negsuc}
use message_router.Config.{
  SystemConfig, validate, processor_of, strategy_of, get_processor_for_message,
  get_strategy_for_message,
}
use message_router.Config.Lookup.{
  RoutesTo, get_processor-RoutesTo, lookup-lt, validate_ignores_rules,
}
use message_router.Config.Load.{Json, Outcome, json_error, ok, throws, load_from_file, read_config}
use message_router.Config.Load.Rules.{load_from_file-FromRules, FromRules}

baseline_routes :
    (get_processor_for_message baseline 2 ≡ 2)
    × (get_strategy_for_message baseline 3 ≡ 0)
    × (get_processor_for_message baseline 7 ≡ 0)
    × (validate baseline ≡ true)
    × (validate (record baseline { duration_secs = negsuc 0 }) ≡ false)
unfolding processor_of strategy_of validate
baseline_routes = (refl, refl, refl, refl, refl)

get_processor-RoutesTo_example :
    (get_processor_for_message baseline 2 ≡ 2) ↔ RoutesTo 2 baseline.stage1_rules 2
get_processor-RoutesTo_example = get_processor-RoutesTo baseline 2 2

lookup-lt_example :
    (get_processor_for_message baseline 3 < 8) × (get_strategy_for_message baseline 3 < 8)
unfolding validate
lookup-lt_example = lookup-lt baseline 3 refl baseline-InRange

validate_ignores_rules_example :
    (validate (record baseline { stage1_rules = stage1 2 9 ∷ baseline.stage1_rules }) ≡ true)
    × (8
        ≤ get_processor_for_message
            (record baseline { stage1_rules = stage1 2 9 ∷ baseline.stage1_rules })
            2)
unfolding validate
validate_ignores_rules_example = validate_ignores_rules baseline 2 9 refl (omega arith)

mutual
  data Doc : Type 0 where
    null : Doc
    number : ℕ → Doc
    flag : Bool → Doc
    chars : String → Doc
    array : Docs → Doc
    object : Fields → Doc

  data Docs : Type 0 where
    nil : Docs
    cons : Doc → Docs → Docs

  data Fields : Type 0 where
    end : Fields
    field : String → Doc → Fields → Fields

abbrev fields_member : Fields → String → Doc
fields_member end key = null
fields_member (field k d fs) key = if str_eq k key then d else fields_member fs key

abbrev doc_member : Doc → String → Outcome Doc
doc_member null key = ok null
doc_member (object fs) key = ok (fields_member fs key)
doc_member _ key = throws (json_error "not an object")

abbrev names_of : Fields → List String
names_of end = []
names_of (field k d fs) = k ∷ names_of fs

abbrev doc_names : Doc → Outcome (List String)
doc_names null = ok []
doc_names (object fs) = ok (names_of fs)
doc_names _ = throws (json_error "not an object")

abbrev to_list : Docs → List Doc
to_list nil = []
to_list (cons d ds) = d ∷ to_list ds

abbrev doc_elements : Doc → List Doc
doc_elements (array ds) = to_list ds
doc_elements _ = []

abbrev doc_nat : Doc → Outcome ℕ
doc_nat null = ok 0
doc_nat (number n) = ok n
doc_nat _ = throws (json_error "not a number")

abbrev doc_int : Doc → Outcome ℤ
doc_int null = ok (pos 0)
doc_int (number n) = ok (pos n)
doc_int _ = throws (json_error "not a number")

abbrev doc_bool : Doc → Outcome Bool
doc_bool null = ok false
doc_bool (flag b) = ok b
doc_bool _ = throws (json_error "not a bool")

abbrev doc_string : Doc → Outcome String
doc_string null = ok ""
doc_string (chars s) = ok s
doc_string _ = throws (json_error "not a string")

-- One producer, processor and strategy; the second rule's type is 256.
abbrev small : Doc
small = object (
    field "scenario" (chars "small") (
      field "duration_secs" (number 1) (
        field "producers" (object (field "count" (number 1) end)) (
          field "processors" (object (field "count" (number 1) end)) (
            field "strategies" (object (field "count" (number 1) end)) (
              field "stage1_rules" (array (cons (rule 1) (cons (rule 256) nil)))
                (field "stage2_rules" (array nil) end)))))))
  where
    rule : ℕ → Doc
    rule t =
        object (field "msg_type" (number t) (field "processors" (array (cons (number 0) nil)) end))

abbrev docs : Json
docs = record {
  Value = Doc;
  Double = ℕ;
  open_file = λ name. if str_eq name "small.json" then some "{}" else none;
  parse = λ _. inl small;
  member = doc_member;
  member_names = doc_names;
  elements = doc_elements;
  as_string = doc_string;
  as_int = doc_int;
  as_uint = doc_nat;
  as_uint64 = doc_nat;
  as_double = doc_nat;
  as_bool = doc_bool;
}

abbrev loaded : SystemConfig ℕ
loaded = record {
  scenario = "small";
  duration_secs = pos 1;
  producers = record { count = pos 1; messages_per_sec = pos 0; distribution = [] };
  processors = record { count = pos 1; processing_times_ns = [] };
  strategies = record { count = pos 1; processing_times_ns = [] };
  stage1_rules = stage1 1 0 ∷ stage1 0 0 ∷ [];
  stage2_rules = [];
}

load_small : load_from_file docs "small.json" ≡ ok loaded
unfolding load_from_file read_config
load_small = refl

load_from_file-FromRules_example :
    (t : String) × (root : Doc) × (docs.open_file "small.json" ≡ some t)
    × (docs.parse t ≡ inl root)
    × FromRules docs root loaded
load_from_file-FromRules_example = load_from_file-FromRules docs "small.json" loaded load_small
