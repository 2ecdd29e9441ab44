-- ===== src/Pipeline/Ascending.antt =====
-- Lists of messages with ascending numbers, and a counter that gives the next one.
use mathlib.Core.List.{Mem, mem-cons, mem-append, not-mem-nil, Pairwise, Pairwise-append}
use mathlib.Core.Logic.Or
use native.Mathlib.Bridge.{le_prop}
use message_router.Base.{
  ℕ, ◌+◌, ◌<◌, ◌≤◌, ◌^◌, ◌≡◌, ◌⊎◌, refl, sym, ap, subst, ◌∙◌, List, [], ◌∷◌, ◌++◌, inl, inr, arith,
  Bool-cases, length, length-append, add64, append-nil,
}
use message_router.Message.{Message, Key, key_of, key_beq}
use message_router.Pipeline.Pick.{origin, pick, pick-append}

-- Each message has a greater number than those before it.
abbrev pub Older : Message → Message → Type 0
Older a b = a.sequence_number < b.sequence_number

abbrev pub Ascending : List Message → Type 0
Ascending ms = Pairwise Older ms

pub Older-prop : (a b : Message) → IsProp (Older a b)
Older-prop a b = le_prop

-- All numbers are below `n`.
abbrev pub Below : ℕ → List Message → Type 0
Below n ms = (x : Message) → Mem x ms → x.sequence_number < n

pub Mem-last :
    (P : Message → Type 0) (prop : (x : Message) → IsProp (P x)) (xs : List Message) (m : Message)
    → ((x : Message) → Mem x xs → P x)
    → P m
    → (x : Message) → Mem x (xs ++ (m ∷ []))
    → P x
Mem-last P prop xs m h last x here_x = Or.elim (prop x) (mem-append.0 here_x) (h x) (λ there.
    Or.elim (prop x) (mem-cons.0 there) (λ e. subst P (sym e) last)
      (λ none_there. absurd (not-mem-nil none_there)))

pub Ascending-last :
    (xs : List Message) (m : Message)
    → Below m.sequence_number xs
    → Ascending xs
    → Ascending (xs ++ (m ∷ []))
Ascending-last xs m below a = (Pairwise-append Older-prop).1 (
  a,
  Pairwise.cons (λ x h. absurd (not-mem-nil h)) Pairwise.nil,
  λ x hx y hy.
      Mem-last (Older x) (Older-prop x) [] m (λ z h. absurd (not-mem-nil h)) (below x hx) y hy,
)

picked_cases : (k : Key) (m : Message) → (pick k (m ∷ []) ≡ []) ⊎ (pick k (m ∷ []) ≡ origin m ∷ [])
picked_cases k m = elim (Bool-cases (key_beq (key_of m) k)) [
  | inl e ↦ inr (rw e refl)
  | inr e ↦ inl (rw e refl)
]

-- The number `n` is not used yet, as long as the counter has not wrapped; and what is made ascends.
abbrev pub Fits : Key → List Message → ℕ → Type 0
Fits k made n = length made + 1 < 2 ^ 64 → (n ≤ length made + 1) × Below n (pick k made)

abbrev pub Ordered : Key → List Message → Type 0
Ordered k made = length made < 2 ^ 64 → Ascending (pick k made)

module _ (k : Key) (made : List Message) (n : ℕ) where
  pub Fits-same :
      (fresh : List Message) → pick k fresh ≡ [] → Fits k made n → Fits k (made ++ fresh) n
  Fits-same fresh none_here fit few =
      let (a, b) = fit (omega (arith, few, length-append made fresh)) in
      (
        omega (arith, a, length-append made fresh),
        subst (Below n)
            (sym (
              pick-append k made fresh
              ∙ ap (λ l. pick k made ++ l) none_here
              ∙ append-nil (pick k made)))
            b,
      )

  pub Ordered-same :
      (fresh : List Message) → pick k fresh ≡ [] → Ordered k made → Ordered k (made ++ fresh)
  Ordered-same fresh none_here ord few =
      subst Ascending
        (sym (
          pick-append k made fresh
          ∙ ap (λ l. pick k made ++ l) none_here
          ∙ append-nil (pick k made)))
        (ord (omega (arith, few, length-append made fresh)))

  module _ (m : Message) (number : m.sequence_number ≡ n) (fit : Fits k made n) where
    pub Fits-next : Fits k (made ++ (m ∷ [])) (add64 n 1)
    Fits-next few =
        let few' : length made + 2 < 2 ^ 64 = omega (arith, few, length-append made (m ∷ [])) in
        let (a, b) = fit (omega (arith, few')) in
        let up : add64 n 1 ≡ n + 1 = omega (arith, a, few') in
        (
          omega (arith, a, up, length-append made (m ∷ [])),
          λ x hx.
              Or.elim le_prop (mem-append.0 (subst (Mem x) (pick-append k made (m ∷ [])) hx))
                (λ (h : Mem x (pick k made)). omega (arith, b x h, up))
                (λ h. elim (picked_cases k m) [
                  | inl e ↦ absurd (not-mem-nil (subst (Mem x) e h))
                  | inr e ↦
                      Mem-last (λ x. x.sequence_number < add64 n 1) (λ x. le_prop) [] (origin m)
                        (λ z h. absurd (not-mem-nil h)) (omega (arith, up, number)) x
                        (subst (Mem x) e h)
                ]),
        )

    pub Ordered-next : Ordered k made → Ordered k (made ++ (m ∷ []))
    Ordered-next ord few =
        let few' : length made + 1 < 2 ^ 64 = omega (arith, few, length-append made (m ∷ [])) in
        let (a, b) = fit few' in
        let asc = ord (omega (arith, few')) in
        subst Ascending (sym (pick-append k made (m ∷ []))) (elim (picked_cases k m) [
          | inl e ↦
              subst (λ l. Ascending (pick k made ++ l)) (sym e)
                (subst Ascending (sym (append-nil (pick k made))) asc)
          | inr e ↦
              subst (λ l. Ascending (pick k made ++ l)) (sym e)
                (Ascending-last (pick k made) (origin m)
                  (subst (λ h. Below h (pick k made)) (sym number) b) asc)
        ])
