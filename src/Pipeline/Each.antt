-- ===== src/Pipeline/Each.antt =====
-- Facts about each element of a list and its index.
use native.Mathlib.Decide.{ℕ_discrete}
use message_router.Base.{
  ℕ, zero, suc, ◌+◌, ◌<◌, ◌≡◌, sym, ap, subst, ◌∙◌, List, some, arith, get_elem?, set,
  get_elem?-set_ne, get_elem?-set_inj,
}
use message_router.Manager.Laws.{made}
use message_router.Pipeline.Order.{made_get}

-- Each element of a list has what `P` says of it and its index.
abbrev pub Each {ℓ} : {A : Type ℓ} → (ℕ → A → Type 0) → List A → Type ℓ
Each {A} P xs = (i : ℕ) (x : A) → get_elem? xs i ≡ some x → P i x

module _ {ℓ} {A : Type ℓ} (P : ℕ → A → Type 0) where
  pub set-Each :
      (xs : List A) (i : ℕ) (x y : A)
      → get_elem? xs i ≡ some y
      → P i x
      → Each P xs
      → Each P (set xs i x)
  set-Each xs i x y e p each j z f = elim (ℕ_discrete i j) [
    | yes same ↦
        let who : x ≡ z = get_elem?-set_inj xs i x e (ap (get_elem? (set xs i x)) same ∙ f) in
        subst (λ h. P h z) same (subst (P i) who p)
    | no ne ↦ each j z (sym (get_elem?-set_ne xs i j x ne) ∙ f)
  ]

  pub made-Each :
      (built : ℕ → A) (n : ℕ) → ((i : ℕ) → i < n → P i (built i)) → Each P (made built n 0)
  made-Each built n h i x e =
      subst (P i) (sym (made_get built n 0 i x e ∙ ap built (omega arith)))
        (h i (made-lt built n 0 i x e))
    where
      made-lt :
          (built : ℕ → A) (n first i : ℕ) (x : A)
          → get_elem? (made built n first) i ≡ some x
          → i < n
      made-lt built zero first i x e = cc
      made-lt built (suc n) first zero x e = omega arith
      made-lt built (suc n) first (suc i) x e = omega (arith, made-lt built n (first + 1) i x e)
