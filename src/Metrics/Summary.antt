-- ===== src/Metrics/Summary.antt =====
-- extract_service/metrics.py: `Histogram.snapshot`. The observations that the service makes are whole
-- numbers; for `p` of two digits and fewer than 2^45 observations, `int(p * n)` in floating point is
-- the quotient below.
use data_nexus.Prelude.{
  ℕ, zero, suc, ◌-◌, ◌*◌, ◌/◌, min, Option, none, some, List, [], ◌∷◌, length, leb, sum_of,
  if◌then◌else◌,
}

unfoldable pub insert_number : ℕ → List ℕ → List ℕ
insert_number a [] = a ∷ []
insert_number a (b ∷ l) = if leb a b then a ∷ b ∷ l else b ∷ insert_number a l

-- `sorted(observations)`
unfoldable pub sorted_numbers : List ℕ → List ℕ
unfolding insert_number
sorted_numbers [] = []
sorted_numbers (a ∷ l) = insert_number a (sorted_numbers l)

-- `ordered[i]`, for an index that is in range
unfoldable pub element : ℕ → List ℕ → ℕ
element i [] = 0
element zero (x ∷ l) = x
element (suc i) (x ∷ l) = element i l

-- `min(n - 1, max(0, int(p * n) - 1))`, for `p` in percent
unfoldable pub quantile_index : ℕ → ℕ → ℕ
quantile_index percent n = min (n - 1) (n * percent / 100 - 1)

-- The local function `q`.
unfoldable pub quantile : ℕ → List ℕ → ℕ
unfolding element quantile_index
quantile percent ordered = element (quantile_index percent (length ordered)) ordered

pub record Summary : Type 0 where
  pub count : ℕ
  pub sum : ℕ
  pub p50 : ℕ
  pub p95 : ℕ
  pub p99 : ℕ

-- `Histogram.snapshot`; `none` is the dictionary that has the count 0 only.
unfoldable pub summary : List ℕ → Option Summary
unfolding quantile sorted_numbers
summary [] = none
summary (x ∷ l) =
    let ordered = sorted_numbers (x ∷ l) in
    some (record {
      count = length ordered;
      sum = sum_of (λ v. v) ordered;
      p50 = quantile 50 ordered;
      p95 = quantile 95 ordered;
      p99 = quantile 99 ordered;
    })
