-- ===== src/Metrics/Quantiles.antt =====
-- extract_service/metrics.py: what the quantiles of a histogram say of its observations.
use native.Mathlib.Nat.{mul-le-mul_left}
use data_nexus.Prelude.{
  ℕ, zero, suc, ◌+◌, ◌*◌, ◌/◌, ◌≤◌, ◌<◌, ◌≡◌, refl, ◌∙◌, some, List, [], ◌∷◌, filter, length, leb,
  ltb, max, leb→le, sum_of, arith, if_rule,
}
use data_nexus.Prelude.Lists.{All}
use data_nexus.Metrics.Summary.{
  Summary, element, insert_number, quantile, quantile_index, sorted_numbers, summary,
}

abbrev pub Ascending : List ℕ → Type 0
Ascending [] = Unit
Ascending (x ∷ l) = All (λ y. x ≤ y) l × Ascending l

-- How many observations are at most a value.
abbrev pub at_most : ℕ → List ℕ → ℕ
at_most v l = length (filter (λ x. leb x v) l)

All-above : (a b : ℕ) (l : List ℕ) → a ≤ b → All (λ y. b ≤ y) l → All (λ y. a ≤ y) l
All-above a b [] h v = tt
All-above a b (y ∷ l) h v = (omega (arith, v.0), All-above a b l h v.1)

All-insert_number :
    (a x : ℕ) (l : List ℕ) → x ≤ a → All (λ y. x ≤ y) l → All (λ y. x ≤ y) (insert_number a l)
unfolding insert_number
All-insert_number a x [] h v = (h, tt)
All-insert_number a x (b ∷ l) h v =
    if_rule (All (λ y. x ≤ y)) (leb a b) (λ _. (h, v)) (λ _. (v.0, All-insert_number a x l h v.1))

Ascending-insert_number : (a : ℕ) (l : List ℕ) → Ascending l → Ascending (insert_number a l)
unfolding insert_number
Ascending-insert_number a [] v = (tt, tt)
Ascending-insert_number a (b ∷ l) v =
    if_rule Ascending (leb a b)
      (λ e. let le : a ≤ b = leb→le a b e in ((le, All-above a b l le v.0), v))
      (λ e. (All-insert_number a b l (ground arith) v.0, Ascending-insert_number a l v.1))

Ascending-sorted_numbers : (l : List ℕ) → Ascending (sorted_numbers l)
unfolding sorted_numbers
Ascending-sorted_numbers [] = tt
Ascending-sorted_numbers (a ∷ l) =
    Ascending-insert_number a (sorted_numbers l) (Ascending-sorted_numbers l)

-- Sorting changes no count and no sum.
at_most-insert_number : (v a : ℕ) (l : List ℕ) → at_most v (insert_number a l) ≡ at_most v (a ∷ l)
unfolding insert_number
at_most-insert_number v a [] = refl
at_most-insert_number v a (b ∷ l) = ground (arith, at_most-insert_number v a l)

at_most-sorted_numbers : (v : ℕ) (l : List ℕ) → at_most v (sorted_numbers l) ≡ at_most v l
unfolding sorted_numbers
at_most-sorted_numbers v [] = refl
at_most-sorted_numbers v (a ∷ l) =
    at_most-insert_number v a (sorted_numbers l) ∙ ground (arith, at_most-sorted_numbers v l)

length-insert_number : (a : ℕ) (l : List ℕ) → length (insert_number a l) ≡ suc (length l)
unfolding insert_number
length-insert_number a [] = refl
length-insert_number a (b ∷ l) = ground (arith, length-insert_number a l)

length-sorted_numbers : (l : List ℕ) → length (sorted_numbers l) ≡ length l
unfolding sorted_numbers
length-sorted_numbers [] = refl
length-sorted_numbers (a ∷ l) =
    length-insert_number a (sorted_numbers l) ∙ ground (arith, length-sorted_numbers l)

sum-insert_number :
    (a : ℕ) (l : List ℕ) → sum_of (λ v. v) (insert_number a l) ≡ a + sum_of (λ v. v) l
unfolding insert_number
sum-insert_number a [] = refl
sum-insert_number a (b ∷ l) = ground (arith, sum-insert_number a l)

sum-sorted_numbers : (l : List ℕ) → sum_of (λ v. v) (sorted_numbers l) ≡ sum_of (λ v. v) l
unfolding sorted_numbers
sum-sorted_numbers [] = refl
sum-sorted_numbers (a ∷ l) =
    sum-insert_number a (sorted_numbers l) ∙ ground (arith, sum-sorted_numbers l)

element-above : (a i : ℕ) (l : List ℕ) → All (λ y. a ≤ y) l → i < length l → a ≤ element i l
unfolding element
element-above a i [] v h = absurd (omega arith)
element-above a zero (x ∷ l) v h = v.0
element-above a (suc i) (x ∷ l) v h = element-above a i l v.1 (omega arith)

element_mono :
    (i j : ℕ) (l : List ℕ) → Ascending l → i ≤ j → j < length l → element i l ≤ element j l
unfolding element
element_mono i j [] v le h = absurd (omega arith)
element_mono zero zero (x ∷ l) v le h = omega arith
element_mono zero (suc j) (x ∷ l) v le h = element-above x j l v.0 (omega arith)
element_mono (suc i) zero (x ∷ l) v le h = absurd (omega arith)
element_mono (suc i) (suc j) (x ∷ l) v le h = element_mono i j l v.1 (omega arith) (omega arith)

-- At least `i + 1` elements are at most the one at index `i`.
element-covers : (i : ℕ) (l : List ℕ) → Ascending l → i < length l → i + 1 ≤ at_most (element i l) l
unfolding element
element-covers i [] v h = absurd (omega arith)
element-covers zero (x ∷ l) v h = ground arith
element-covers (suc i) (x ∷ l) v h =
    let first = element-above x i l v.0 (omega arith) in
    let rest = element-covers i l v.1 (omega arith) in ground (arith, first, rest)

-- How many observations are less than a value.
abbrev pub below : ℕ → List ℕ → ℕ
below v l = length (filter (λ x. ltb x v) l)

below-insert_number : (v a : ℕ) (l : List ℕ) → below v (insert_number a l) ≡ below v (a ∷ l)
unfolding insert_number
below-insert_number v a [] = refl
below-insert_number v a (b ∷ l) = ground (arith, below-insert_number v a l)

below-sorted_numbers : (v : ℕ) (l : List ℕ) → below v (sorted_numbers l) ≡ below v l
unfolding sorted_numbers
below-sorted_numbers v [] = refl
below-sorted_numbers v (a ∷ l) =
    below-insert_number v a (sorted_numbers l) ∙ ground (arith, below-sorted_numbers v l)

below_none : (x : ℕ) (l : List ℕ) → All (λ y. x ≤ y) l → below x l ≡ 0
below_none x [] h = refl
below_none x (y ∷ l) h = ground (arith, below_none x l h.1, h.0)

-- At most `i` elements are less than the one at index `i`.
below-element : (i : ℕ) (l : List ℕ) → Ascending l → i < length l → below (element i l) l ≤ i
unfolding element
below-element i [] v h = absurd (omega arith)
below-element zero (x ∷ l) v h = ground (arith, below_none x l v.0)
below-element (suc i) (x ∷ l) v h =
    let rest = below-element i l v.1 (omega arith) in ground (arith, rest)

-- The rank of a quantile: its percentage of the observations, rounded down, and the first at least.
abbrev pub rank : ℕ → ℕ → ℕ
rank percent n = max 1 (n * percent / 100)

-- A value is the one of a rank: it, and no smaller value, has as many observations up to it.
abbrev pub HasRank : ℕ → ℕ → List ℕ → Type 0
HasRank k v l = (below v l < k) × (k ≤ at_most v l)

quantile_index-rank : (p n : ℕ) → p ≤ 100 → 0 < n → quantile_index p n + 1 ≡ rank p n
unfolding quantile_index
quantile_index-rank p n le some_there = omega (arith, mul-le-mul_left n le)

quantile_index_mono : (p q n : ℕ) → p ≤ q → quantile_index p n ≤ quantile_index q n
unfolding quantile_index
quantile_index_mono p q n le = omega (arith, mul-le-mul_left n le)

quantile_index-lt : (p n : ℕ) → 0 < n → quantile_index p n < n
unfolding quantile_index
quantile_index-lt p n pos = omega arith

-- What a summary says of the observations.
pub record Describes (l : List ℕ) (s : Summary) : Type 0 where
  pub count : s.count ≡ length l
  pub sum : s.sum ≡ sum_of (λ v. v) l
  pub ordered : (s.p50 ≤ s.p95) × (s.p95 ≤ s.p99)
  pub half : HasRank (rank 50 (length l)) s.p50 l
  pub most : HasRank (rank 95 (length l)) s.p95 l
  pub nearly_all : HasRank (rank 99 (length l)) s.p99 l

module _ (l : List ℕ) (some_there : 0 < length l) where
  quantile_mono : (p q : ℕ) → p ≤ q → quantile p (sorted_numbers l) ≤ quantile q (sorted_numbers l)
  unfolding quantile
  quantile_mono p q le =
      let n = length (sorted_numbers l) in
      element_mono (quantile_index p n) (quantile_index q n) (sorted_numbers l)
        (Ascending-sorted_numbers l) (quantile_index_mono p q n le)
        (quantile_index-lt q n (rw (length-sorted_numbers l) some_there))

  quantile-HasRank :
      (p : ℕ) → p ≤ 100 → HasRank (rank p (length l)) (quantile p (sorted_numbers l)) l
  unfolding quantile
  quantile-HasRank p le =
      let n = length (sorted_numbers l) in
      let i = quantile_index p n in
      let v = quantile p (sorted_numbers l) in
      let some_sorted : 0 < n = rw (length-sorted_numbers l) some_there in
      let low = quantile_index-lt p n some_sorted in
      let sorted = Ascending-sorted_numbers l in
      let covered = element-covers i (sorted_numbers l) sorted low in
      let few = below-element i (sorted_numbers l) sorted low in
      let k : i + 1 ≡ rank p (length l) =
        quantile_index-rank p n le some_sorted ∙ rw (length-sorted_numbers l) refl in
      let a = at_most-sorted_numbers v l in
      let b = below-sorted_numbers v l in (omega (arith, few, k, b), omega (arith, covered, k, a))

-- The snapshot of a histogram that has observations has their count and their sum, quantiles in
-- order, and for each of its three percentages, of the count and rounded down, the quantile is the
-- observation of that rank: fewer are less than it, and no fewer are at most it.
pub summary-Describes :
    (x : ℕ) (l : List ℕ) → (s : Summary) × (summary (x ∷ l) ≡ some s) × Describes (x ∷ l) s
unfolding summary
summary-Describes x l =
    let all = x ∷ l in
    (
      _,
      refl,
      record {
        count = length-sorted_numbers all;
        sum = sum-sorted_numbers all;
        ordered = (
          quantile_mono all (omega arith) 50 95 (omega arith),
          quantile_mono all (omega arith) 95 99 (omega arith),
        );
        half = quantile-HasRank all (omega arith) 50 (omega arith);
        most = quantile-HasRank all (omega arith) 95 (omega arith);
        nearly_all = quantile-HasRank all (omega arith) 99 (omega arith);
      },
    )
