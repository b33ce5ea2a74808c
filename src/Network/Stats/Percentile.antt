-- ===== src/Network/Stats/Percentile.antt =====
-- The nearest-rank percentile.
use sahabino.Common.{
  ℕ, zero, suc, ◌+◌, ◌-◌, ◌*◌, ◌/◌, ◌≤◌, ◌<◌, max, ◌≡◌, refl, subst, List, [], ◌∷◌, some, arith,
  ltb, leb, count_of, IsSorted, All, get_elem?, sorted, length, get_elem?-lt, length-sort,
  sort_by-IsSorted, count-sort,
}
use sahabino.Network.Stats.{percentile, nearest_rank}

none_below : (xs : List ℕ) (v : ℕ) → All (λ y. v ≤ y) xs → count_of (λ x. ltb x v) xs ≡ 0
unfolding count_of
none_below [] v all = refl
none_below (x ∷ xs) v (h, all) = ground (arith, none_below xs v all)

get-All : (xs : List ℕ) (i v a : ℕ) → All (λ y. a ≤ y) xs → get_elem? xs i ≡ some v → a ≤ v
get-All [] i v a all e = cc
get-All (x ∷ xs) zero v a (h, all) e = ground arith
get-All (x ∷ xs) (suc i) v a (h, all) e = get-All xs i v a all e

-- The element at an index of a sorted list has at most that many smaller ones before it.
index-bounds :
    (xs : List ℕ) (i v : ℕ)
    → IsSorted (λ x. x) xs
    → get_elem? xs i ≡ some v
    → (count_of (λ x. ltb x v) xs ≤ i) × (i < count_of (λ x. leb x v) xs)
unfolding count_of IsSorted
index-bounds [] i v s e = cc
index-bounds (x ∷ xs) zero v (all, s) e =
    let same : x ≡ v = cc in
    (ground (arith, none_below xs v (subst (λ w. All (λ y. w ≤ y) xs) same all)), ground arith)
index-bounds (x ∷ xs) (suc i) v (all, s) e =
    let rest = index-bounds xs i v s e in
    let below = get-All xs i v x all e in (ground (arith, rest), ground (arith, rest, below))

-- The rank for a percentile of x / n hundredths.
rank_in_range :
    (x n : ℕ)
    → x ≤ 100 * suc n
    → let r = max 1 ((x + 99) / 100) in (1 ≤ r) × (r ≤ suc n) × (x ≤ 100 * r) × (100 * (r - 1) ≤ x)
rank_in_range x n h = (omega arith, omega arith, omega arith, omega arith)

scaled : (p n : ℕ) → p ≤ 100 → p * suc n ≤ 100 * suc n
scaled p zero h = omega arith
scaled p (suc n) h = omega (arith, scaled p n h)

-- A percentile exists for every nonempty list; at least p percent of the values are not above it,
-- and at most p percent of them are below it, p at most 100.
pub percentile_rank :
    (x : ℕ) (xs : List ℕ) (p : ℕ)
    → p ≤ 100
    → (v : ℕ) × ((percentile (x ∷ xs) p ≡ some v)
        × (p * length (x ∷ xs) ≤ 100 * count_of (λ y. leb y v) (x ∷ xs))
        × (100 * count_of (λ y. ltb y v) (x ∷ xs) ≤ p * length (x ∷ xs)))
unfolding percentile nearest_rank
percentile_rank x xs p h =
    let n = length xs in
    let rank = rank_in_range (p * suc n) n (scaled p n h) in
    let sized = length-sort (λ y. y) (x ∷ xs) in
    let found =
      get_elem?-lt (sorted (x ∷ xs)) (nearest_rank p (suc n) - 1) (omega (arith, rank, sized)) in
    let bounds =
      index-bounds (sorted (x ∷ xs)) (nearest_rank p (suc n) - 1) found.0
        (sort_by-IsSorted (λ y. y) (x ∷ xs)) found.1 in
    let below = count-sort (λ y. y) (λ y. ltb y found.0) (x ∷ xs) in
    let upto = count-sort (λ y. y) (λ y. leb y found.0) (x ∷ xs) in
    (found.0, (found.1, omega (arith, rank, bounds, upto), omega (arith, rank, bounds, below)))
