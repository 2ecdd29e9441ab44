-- ===== src/Queue/Slots.antt =====
-- Reading and writing a slot's message and its ready flag.
use message_router.Base.{
  ℕ, zero, suc, ◌<◌, ◌≡◌, ◌≢◌, refl, inl, inr, Bool, false, List, [], ◌∷◌, Option, none, some,
  arith, length, length-set, get_elem?, get_elem?-set_self, get_elem?-set_ne, get_elem?_lt,
  Option-cases,
}
use message_router.Queue.Defs.{Node, write_item, write_ready}

module _ {ℓ} {A : Type ℓ} where
  -- `none` and `false` out of range.
  abbrev pub item_at : List (Node A) → ℕ → Option A
  item_at buffer i = elim (get_elem? buffer i) [ none ↦ none | some n ↦ some n.item ]

  abbrev pub ready_at : List (Node A) → ℕ → Bool
  ready_at buffer i = elim (get_elem? buffer i) [ none ↦ false | some n ↦ n.ready ]

  pub length-write_item : (b : List (Node A)) (i : ℕ) (x : A) → length (write_item b i x) ≡ length b
  length-write_item b i x = elim (Option-cases (get_elem? b i)) [
    | inl e ↦ ground arith
    | inr (n, e) ↦ ground (arith, length-set b i (record n { item = x }))
  ]

  pub length-write_ready :
      (b : List (Node A)) (i : ℕ) (r : Bool) → length (write_ready b i r) ≡ length b
  length-write_ready b i r = elim (Option-cases (get_elem? b i)) [
    | inl e ↦ ground arith
    | inr (n, e) ↦ ground (arith, length-set b i (record n { ready = r }))
  ]

  pub item_at-write_item_self :
      (b : List (Node A)) (i : ℕ) (x : A) → i < length b → item_at (write_item b i x) i ≡ some x
  item_at-write_item_self b i x h =
      let (n, e) = get_elem?_lt b i h in
      ground (arith, e, get_elem?-set_self b i (record n { item = x }) h)

  pub item_at-write_item_ne :
      (b : List (Node A)) (i j : ℕ) (x : A) → i ≢ j → item_at (write_item b i x) j ≡ item_at b j
  item_at-write_item_ne b i j x h = elim (Option-cases (get_elem? b i)) [
    | inl e ↦ ground arith
    | inr (n, e) ↦ ground (arith, get_elem?-set_ne b i j (record n { item = x }) h)
  ]

  pub ready_at-write_item_ne :
      (b : List (Node A)) (i j : ℕ) (x : A) → i ≢ j → ready_at (write_item b i x) j ≡ ready_at b j
  ready_at-write_item_ne b i j x h = elim (Option-cases (get_elem? b i)) [
    | inl e ↦ ground arith
    | inr (n, e) ↦ ground (arith, get_elem?-set_ne b i j (record n { item = x }) h)
  ]

  pub ready_at-write_ready_self :
      (b : List (Node A)) (i : ℕ) (r : Bool) → i < length b → ready_at (write_ready b i r) i ≡ r
  ready_at-write_ready_self b i r h =
      let (n, e) = get_elem?_lt b i h in
      ground (arith, e, get_elem?-set_self b i (record n { ready = r }) h)

  pub ready_at-write_ready_ne :
      (b : List (Node A)) (i j : ℕ) (r : Bool)
      → i ≢ j
      → ready_at (write_ready b i r) j ≡ ready_at b j
  ready_at-write_ready_ne b i j r h = elim (Option-cases (get_elem? b i)) [
    | inl e ↦ ground arith
    | inr (n, e) ↦ ground (arith, get_elem?-set_ne b i j (record n { ready = r }) h)
  ]

  -- A flag's write leaves every message alone, that of its own slot too.
  pub item_at-write_ready :
      (b : List (Node A)) (i j : ℕ) (r : Bool) → item_at (write_ready b i r) j ≡ item_at b j
  item_at-write_ready [] i j r = refl
  item_at-write_ready (n ∷ b) zero zero r = refl
  item_at-write_ready (n ∷ b) zero (suc j) r = refl
  item_at-write_ready (n ∷ b) (suc i) zero r = elim (Option-cases (get_elem? b i)) [
    | inl e ↦ ground arith
    | inr (m, e) ↦ ground arith
  ]
  item_at-write_ready (n ∷ b) (suc i) (suc j) r = elim (Option-cases (get_elem? b i)) [
    | inl e ↦ ground arith
    | inr (m, e) ↦ ground (arith, item_at-write_ready b i j r)
  ]
