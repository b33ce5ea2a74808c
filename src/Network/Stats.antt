-- ===== src/Network/Stats.antt =====
-- Percentiles, ratios and flow counts, network/metrics.py. A quotient of floats is kept as its two
-- numbers, and `x / 100 * n` and `0.8 * n` are exact.
pub mod Percentile
pub mod Flows
use sahabino.Common.{
  ℕ, zero, suc, ◌+◌, ◌-◌, ◌*◌, ◌/◌, Bool, Option, none, some, List, [], ◌∷◌, leb, ltb, max, ◌==◌,
  if◌then◌else◌, length, get_elem?, sorted, sort_by, sum_of,
}

-- `numerator / denominator`
pub record Quotient : Type 0 where
  pub numerator : ℕ
  pub denominator : ℕ

unfoldable pub ratio : ℕ → ℕ → Option Quotient
ratio numerator denominator =
    if denominator == 0
    then none
    else some (record { numerator = numerator; denominator = denominator })

-- `max(1, math.ceil(percentile_value / 100 * count))`
unfoldable pub nearest_rank : ℕ → ℕ → ℕ
nearest_rank percentile_value count = max 1 ((percentile_value * count + 99) / 100)

-- `percentile` at a percentile of at most 100, as every caller has it: `ordered[rank - 1]`.
unfoldable pub percentile : List ℕ → ℕ → Option ℕ
unfolding nearest_rank
percentile [] p = none
percentile (x ∷ xs) p = get_elem? (sorted (x ∷ xs)) (nearest_rank p (length (x ∷ xs)) - 1)

-- `percentile` in full: the outer none is the `ValueError` of a percentile above 100.
unfoldable pub percentile_checked : List ℕ → ℕ → Option (Option ℕ)
unfolding percentile
percentile_checked [] p = some none
percentile_checked (x ∷ xs) p = if leb p 100 then some (percentile (x ∷ xs) p) else none

-- `sorted(values, reverse=True)`
unfoldable pub insert_desc : ℕ → List ℕ → List ℕ
insert_desc x [] = x ∷ []
insert_desc x (y ∷ ys) = if leb y x then x ∷ y ∷ ys else y ∷ insert_desc x ys

unfoldable pub sort_desc : List ℕ → List ℕ
unfolding insert_desc
sort_desc [] = []
sort_desc (x ∷ xs) = insert_desc x (sort_desc xs)

-- The loop over the sorted values: the index at which 80 % of the total is reached.
unfoldable pub reach : ℕ → ℕ → ℕ → List ℕ → Option ℕ
reach total accumulated index [] = none
reach total accumulated index (x ∷ xs) =
    if leb (4 * total) (5 * (accumulated + x))
    then some index
    else reach total (accumulated + x) (index + 1) xs

-- `_flows_for_80_percent`, over the values of the dictionary
unfoldable pub flows_for_80_percent : List ℕ → ℕ → ℕ
unfolding reach sort_desc
flows_for_80_percent payloads total =
    if total == 0
    then 0
    else elim (reach total 0 1 (sort_desc payloads)) [ none ↦ length payloads | some index ↦ index ]
