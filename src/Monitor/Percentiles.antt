-- ===== src/Monitor/Percentiles.antt =====
-- `calculate_percentiles` of src/monitor.cpp. `std::sort` is `sort`, and `scale n q` is
-- `static_cast<size_t>(n * (q / 1000.0))`.
use message_router.Base.{
  ℕ, zero, suc, ◌+◌, ◌*◌, ◌<◌, ◌≤◌, ◌≡◌, ◌≢◌, refl, sym, subst, ◌∙◌, Bool, true, List, [], ◌∷◌,
  Option, none, some, get_elem?, get_elem?_lt, length, All, ltb, leb, if◌then◌else◌, arith,
}

-- The four values, if each index is in range.
abbrev pub four : Option ℕ → Option ℕ → Option ℕ → Option ℕ → Option (ℕ × ℕ × ℕ × ℕ)
four (some a) (some b) (some c) (some d) = some (a, b, c, d)
four _ _ _ _ = none

module _ (sort : List ℕ → List ℕ) (scale : ℕ → ℕ → ℕ) where
  abbrev picked : List ℕ → Option (ℕ × ℕ × ℕ × ℕ)
  picked sorted =
      four (get_elem? sorted (scale (length sorted) 500))
        (get_elem? sorted (scale (length sorted) 900))
        (get_elem? sorted (scale (length sorted) 990))
        (get_elem? sorted (scale (length sorted) 999))

  -- p50, p90, p99 and p99.9; `none` is a read beyond the vector.
  unfoldable pub calculate_percentiles : List ℕ → Option (ℕ × ℕ × ℕ × ℕ)
  calculate_percentiles [] = some (0, 0, 0, 0)
  calculate_percentiles (x ∷ xs) = picked (sort (x ∷ xs))

abbrev pub count : (ℕ → Bool) → List ℕ → ℕ
count p [] = 0
count p (x ∷ xs) = (if p x then 1 else 0) + count p xs

abbrev pub Sorted : List ℕ → Type 0
Sorted [] = Unit
Sorted (x ∷ xs) = All (λ y. x ≤ y) xs × Sorted xs

All-get_elem? :
    (P : ℕ → Type 0) (xs : List ℕ) (i : ℕ) {a : ℕ} → All P xs → get_elem? xs i ≡ some a → P a
All-get_elem? P [] i h e = cc
All-get_elem? P (x ∷ xs) zero h e = let same : x ≡ _ = cc in subst P same h.0
All-get_elem? P (x ∷ xs) (suc i) h e = All-get_elem? P xs i h.1 e

none_below : (x : ℕ) (xs : List ℕ) → All (λ y. x ≤ y) xs → count (λ y. ltb y x) xs ≡ 0
none_below x [] h = refl
none_below x (y ∷ xs) h = let le = h.0 in let rest = none_below x xs h.1 in ground arith

-- Of the sorted values, those below the one at index `i` are `i` at most, and those up to it are
-- more than `i`.
count_below :
    (xs : List ℕ) (i a : ℕ) → Sorted xs → get_elem? xs i ≡ some a → count (λ y. ltb y a) xs ≤ i
count_below [] i a s e = cc
count_below (x ∷ xs) zero a s e =
    let same : x ≡ a = cc in
    subst (λ b. count (λ y. ltb y b) (x ∷ xs) ≤ 0) same
      (let rest = none_below x xs s.0 in ground arith)
count_below (x ∷ xs) (suc i) a s e = let rest = count_below xs i a s.1 e in ground arith

count_upto :
    (xs : List ℕ) (i a : ℕ) → Sorted xs → get_elem? xs i ≡ some a → i < count (λ y. leb y a) xs
count_upto [] i a s e = cc
count_upto (x ∷ xs) zero a s e = let same : x ≡ a = cc in ground arith
count_upto (x ∷ xs) (suc i) a s e =
    let first : x ≤ a = All-get_elem? (λ y. x ≤ y) xs i s.0 e in
    let rest = count_upto xs i a s.1 e in ground arith

length-count : (xs : List ℕ) → count (λ y. true) xs ≡ length xs
length-count [] = refl
length-count (x ∷ xs) = omega (arith, length-count xs)

-- The value of rank `n`, counted from 0: `n` latencies at most are less, and more than `n` are no
-- greater.
pub record Nth (latencies : List ℕ) (n p : ℕ) : Type 0 where
  pub fewer : count (λ y. ltb y p) latencies ≤ n
  pub enough : n < count (λ y. leb y p) latencies

module _ (sort : List ℕ → List ℕ) (scale : ℕ → ℕ → ℕ) (latencies : List ℕ)
    (sorted : Sorted (sort latencies))
    (same : (p : ℕ → Bool) → count p (sort latencies) ≡ count p latencies) where
  sort-length : length (sort latencies) ≡ length latencies
  sort-length = sym (length-count (sort latencies)) ∙ same (λ y. true) ∙ length-count latencies

  abbrev Ranked : ℕ → Type 0
  Ranked n = (p : ℕ) × (get_elem? (sort latencies) n ≡ some p) × Nth latencies n p

  at_rank : (n : ℕ) → n < length latencies → Ranked n
  at_rank n lt =
      let (p, e) = get_elem?_lt (sort latencies) n (omega (arith, lt, sort-length)) in
      (
        p,
        e,
        record {
          fewer = subst (λ c. c ≤ n) (same _) (count_below (sort latencies) n p sorted e);
          enough = subst (λ c. n < c) (same _) (count_upto (sort latencies) n p sorted e);
        },
      )

  -- Where `std::sort` orders the latencies and keeps how many there are of each kind, and the
  -- truncated product of their number and a factor is no more than the product: of latencies that
  -- are not empty no value beyond the vector is read, and the results are the values of the ranks
  -- that the four products give.
  pub percentiles_lem :
      latencies ≢ []
      → ((q : ℕ) → scale (length latencies) q * 1000 ≤ length latencies * q)
      → (a : ℕ) × (b : ℕ) × (c : ℕ) × (d : ℕ) × (calculate_percentiles sort scale latencies
          ≡ some (a, b, c, d))
        × Nth latencies (scale (length latencies) 500) a
        × Nth latencies (scale (length latencies) 900) b
        × Nth latencies (scale (length latencies) 990) c
        × Nth latencies (scale (length latencies) 999) d
  unfolding calculate_percentiles
  percentiles_lem ne down = (
    a.0,
    b.0,
    c.0,
    d.0,
    calculates latencies ne ∙ rw (sort-length, a.1, b.1, c.1, d.1) refl,
    a.2,
    b.2,
    c.2,
    d.2,
  )
    where
      positive : (l : List ℕ) → l ≢ [] → 0 < length l
      positive [] h = absurd (h refl)
      positive (x ∷ xs) h = omega arith

      calculates :
          (l : List ℕ) → l ≢ [] → calculate_percentiles sort scale l ≡ picked sort scale (sort l)
      calculates [] h = absurd (h refl)
      calculates (x ∷ xs) h = refl

      a : Ranked (scale (length latencies) 500)
      a = at_rank (scale (length latencies) 500) (omega (arith, down 500, positive latencies ne))

      b : Ranked (scale (length latencies) 900)
      b = at_rank (scale (length latencies) 900) (omega (arith, down 900, positive latencies ne))

      c : Ranked (scale (length latencies) 990)
      c = at_rank (scale (length latencies) 990) (omega (arith, down 990, positive latencies ne))

      d : Ranked (scale (length latencies) 999)
      d = at_rank (scale (length latencies) 999) (omega (arith, down 999, positive latencies ne))
