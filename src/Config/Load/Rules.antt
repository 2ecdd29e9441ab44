-- ===== src/Config/Load/Rules.antt =====
-- The rules of a loaded configuration and the arrays that they come from.
use Prim.Native.String.{String}
use message_router.Base.{
  ℕ, ◌≡◌, refl, subst, u8, List, [], ◌∷◌, some, ◌⊎◌, inl, inr, arith, Option-cases,
}
use message_router.Config.{Stage1Rule, Stage2Rule, SystemConfig}
use message_router.Config.Load.{
  Outcome, ok, throws, cannot_open, ◌>>=◌, Json, load_producers, load_processors, load_strategies,
  load_ids, load_stage1_rule, load_stage2_rule, load_stage1, load_stage2, read_config, parsed,
  load_from_file,
}

-- The lists have the same length, and `R` relates their elements one by one.
abbrev pub Matches : {A B : Type 0} → (A → B → Type 0) → List A → List B → Type 0
Matches R [] [] = Unit
Matches R (x ∷ xs) (y ∷ ys) = R x y × Matches R xs ys
Matches R _ _ = ⊥

ok_inj : {A : Type 0} {a b : A} → ok a ≡ ok b → a ≡ b
ok_inj e = cc

module _ (j : Json) where
  open j use {
    Value, Double, open_file, parse, member, elements, as_string, as_int, as_uint, as_bool,
  }

  -- The rule `r` is what the JSON value `v` says; the message type keeps its low byte.
  pub record Stage1From (v : Value) (r : Stage1Rule) : Type 0 where
    pub type_json : Value
    pub type : ℕ
    pub procs : Value
    pub type_member : member v "msg_type" ≡ ok type_json
    pub type_read : as_uint type_json ≡ ok type
    pub type_byte : r.msg_type ≡ u8 type
    pub procs_member : member v "processors" ≡ ok procs
    pub procs_read : Matches (λ p id. as_uint p ≡ ok id) (elements procs) r.processors

  pub record Stage2From (v : Value) (r : Stage2Rule) : Type 0 where
    pub type_json : Value
    pub type : ℕ
    pub strategy_json : Value
    pub ordering_json : Value
    pub type_member : member v "msg_type" ≡ ok type_json
    pub type_read : as_uint type_json ≡ ok type
    pub type_byte : r.msg_type ≡ u8 type
    pub strategy_member : member v "strategy" ≡ ok strategy_json
    pub strategy_read : as_uint strategy_json ≡ ok r.strategy
    pub ordering_member : member v "ordering_required" ≡ ok ordering_json
    pub ordering_read : as_bool ordering_json ≡ ok r.ordering_required

  -- The rules of `c` are those of the two arrays below `root`, one for each element and in order.
  pub record FromRules (root : Value) (c : SystemConfig Double) : Type 0 where
    pub stage1 : Value
    pub stage2 : Value
    pub stage1_member : member root "stage1_rules" ≡ ok stage1
    pub stage2_member : member root "stage2_rules" ≡ ok stage2
    pub stage1_from : Matches Stage1From (elements stage1) c.stage1_rules
    pub stage2_from : Matches Stage2From (elements stage2) c.stage2_rules

  -- What holds of every result of the rest, given the first part's, holds of every result.
  after :
      {A B : Type 0} {P : B → Type 0} (m : Outcome A) (f : A → Outcome B)
      → ((a : A) → m ≡ ok a → (b : B) → f a ≡ ok b → P b)
      → (b : B) → (m >>= f) ≡ ok b
      → P b
  after (ok a) f rest b h = rest a refl b h
  after (throws e) f rest b h = cc

  load_ids_lem :
      (vs : List Value) (ids : List ℕ)
      → load_ids j vs ≡ ok ids
      → Matches (λ p id. as_uint p ≡ ok id) vs ids
  unfolding load_ids
  load_ids_lem [] = λ ids h. subst (Matches (λ p id. as_uint p ≡ ok id) []) (ok_inj h) tt
  load_ids_lem (v ∷ vs) = after (as_uint v) _ λ id one.
      after (load_ids j vs) _
        λ rest more ids e. subst (Matches _ (v ∷ vs)) (ok_inj e) (one, load_ids_lem vs rest more)

  load_stage1_rule_lem : (v : Value) (r : Stage1Rule) → load_stage1_rule j v ≡ ok r → Stage1From v r
  unfolding load_stage1_rule
  load_stage1_rule_lem v = after (member v "msg_type") _ λ type_json e1.
      after (as_uint type_json) _ λ type e2. after (member v "processors") _ λ procs e3.
        after (load_ids j (elements procs)) _ λ ids e4 r e.
          subst (Stage1From v) (ok_inj e) (record {
            type_json = type_json;
            type = type;
            procs = procs;
            type_member = e1;
            type_read = e2;
            type_byte = refl;
            procs_member = e3;
            procs_read = load_ids_lem (elements procs) ids e4;
          })

  load_stage2_rule_lem : (v : Value) (r : Stage2Rule) → load_stage2_rule j v ≡ ok r → Stage2From v r
  unfolding load_stage2_rule
  load_stage2_rule_lem v = after (member v "msg_type") _ λ type_json e1.
      after (as_uint type_json) _ λ type e2. after (member v "strategy") _ λ strategy_json e3.
        after (as_uint strategy_json) _ λ strategy e4.
          after (member v "ordering_required") _ λ ordering_json e5.
            after (as_bool ordering_json) _ λ ordering e6 r e.
              subst (Stage2From v) (ok_inj e) (record {
                type_json = type_json;
                type = type;
                strategy_json = strategy_json;
                ordering_json = ordering_json;
                type_member = e1;
                type_read = e2;
                type_byte = refl;
                strategy_member = e3;
                strategy_read = e4;
                ordering_member = e5;
                ordering_read = e6;
              })

  load_stage1_lem :
      (vs : List Value) (rs : List Stage1Rule) → load_stage1 j vs ≡ ok rs → Matches Stage1From vs rs
  unfolding load_stage1
  load_stage1_lem [] = λ rs h. subst (Matches Stage1From []) (ok_inj h) tt
  load_stage1_lem (v ∷ vs) = after (load_stage1_rule j v) _ λ r one.
      after (load_stage1 j vs) _ λ rest more rs e.
        subst (Matches _ (v ∷ vs)) (ok_inj e)
          (load_stage1_rule_lem v r one, load_stage1_lem vs rest more)

  load_stage2_lem :
      (vs : List Value) (rs : List Stage2Rule) → load_stage2 j vs ≡ ok rs → Matches Stage2From vs rs
  unfolding load_stage2
  load_stage2_lem [] = λ rs h. subst (Matches Stage2From []) (ok_inj h) tt
  load_stage2_lem (v ∷ vs) = after (load_stage2_rule j v) _ λ r one.
      after (load_stage2 j vs) _ λ rest more rs e.
        subst (Matches _ (v ∷ vs)) (ok_inj e)
          (load_stage2_rule_lem v r one, load_stage2_lem vs rest more)

  read_config-FromRules :
      (root : Value) (c : SystemConfig Double) → read_config j root ≡ ok c → FromRules root c
  unfolding read_config
  read_config-FromRules root = after (member root "scenario") _ λ v _. after (as_string v) _ λ _ _.
      after (member root "duration_secs") _ λ v _. after (as_int v) _ λ _ _.
        after (member root "producers") _ λ v _. after (load_producers j v) _ λ _ _.
          after (member root "processors") _ λ v _. after (load_processors j v) _ λ _ _.
            after (member root "strategies") _ λ v _. after (load_strategies j v) _ λ _ _.
              after (member root "stage1_rules") _ λ v1 m1.
                after (load_stage1 j (elements v1)) _ λ r1 l1.
                  after (member root "stage2_rules") _ λ v2 m2.
                    after (load_stage2 j (elements v2)) _ λ r2 l2 c e.
                      let same1 : c.stage1_rules ≡ r1 = ground arith in
                      let same2 : c.stage2_rules ≡ r2 = ground arith in
                      record {
                        stage1 = v1;
                        stage2 = v2;
                        stage1_member = m1;
                        stage2_member = m2;
                        stage1_from = rw same1 (load_stage1_lem (elements v1) r1 l1);
                        stage2_from = rw same2 (load_stage2_lem (elements v2) r2 l2);
                      }

  parsed_ok :
      (r : Value ⊎ String) (c : SystemConfig Double)
      → parsed j r ≡ ok c
      → (root : Value) × (r ≡ inl root) × (read_config j root ≡ ok c)
  unfolding parsed
  parsed_ok (inl root) c h = (root, refl, h)
  parsed_ok (inr errors) c h = cc

  -- Where the loader returns a configuration, the file opened and parsed, and the configuration's
  -- rules are, in order, what the elements of the file's two arrays say: the processors in order,
  -- the strategy, whether order is required, and the low byte of the message type.
  pub load_from_file-FromRules :
      (filename : String) (c : SystemConfig Double)
      → load_from_file j filename ≡ ok c
      → (text : String) × (root : Value) × (open_file filename ≡ some text)
        × (parse text ≡ inl root)
        × FromRules root c
  unfolding load_from_file
  load_from_file-FromRules filename c h = elim (Option-cases (open_file filename)) [
    | inl missing ↦ absurd (never (rw missing at h))
    | inr (text, found) ↦
        let (root, read, e) = parsed_ok (parse text) c (rw found at h) in
        (text, root, found, read, read_config-FromRules root c e)
  ]
    where
      never : ¬ (throws (cannot_open filename) ≡ ok c)
      never e = cc
