-- ===== src/Network/Stats/Flows.antt =====
-- The number of flows that carry 80 % of the payload.
use sahabino.Common.{
  ℕ, suc, ◌+◌, ◌*◌, ◌≤◌, ◌<◌, ◌≡◌, refl, ap, ◌⊎◌, inl, inr, List, [], ◌∷◌, none, some, arith, leb,
  length, take, sum_of, Bool-cases, leb→le,
}
use sahabino.Network.Stats.{flows_for_80_percent, reach, sort_desc, insert_desc}

sum : List ℕ → ℕ
sum xs = sum_of (λ x. x) xs

sum_insert : (x : ℕ) (ys : List ℕ) → sum (insert_desc x ys) ≡ x + sum ys
unfolding insert_desc sum sum_of
sum_insert x [] = refl
sum_insert x (y ∷ ys) = ground (arith, sum_insert x ys)

sum_sort : (xs : List ℕ) → sum (sort_desc xs) ≡ sum xs
unfolding sort_desc sum sum_of
sum_sort [] = refl
sum_sort (x ∷ xs) = omega (arith, sum_insert x (sort_desc xs), sum_sort xs)

length_insert : (x : ℕ) (ys : List ℕ) → length (insert_desc x ys) ≡ suc (length ys)
unfolding insert_desc
length_insert x [] = refl
length_insert x (y ∷ ys) = ground (arith, length_insert x ys)

length_sort : (xs : List ℕ) → length (sort_desc xs) ≡ length xs
unfolding sort_desc
length_sort [] = refl
length_sort (x ∷ xs) = omega (arith, length_insert x (sort_desc xs), length_sort xs)

-- Where the loop stops, the values up to it reach the threshold and those before it do not.
reach_bounds :
    (total acc index : ℕ) (xs : List ℕ)
    → 4 * total ≤ 5 * (acc + sum xs)
    → 5 * acc < 4 * total
    → (k : ℕ) × ((reach total acc index xs ≡ some (index + k))
        × (suc k ≤ length xs)
        × (4 * total ≤ 5 * (acc + sum (take (suc k) xs)))
        × (5 * (acc + sum (take k xs)) < 4 * total))
unfolding reach sum sum_of
reach_bounds total acc index [] h low = absurd (omega arith)
reach_bounds total acc index (x ∷ xs) h low = elim (Bool-cases (leb (4 * total) (5 * (acc + x)))) [
  | inl e ↦
      let enough = leb→le (4 * total) (5 * (acc + x)) e in
      rw e (0, (ap some (omega arith), omega arith, omega (arith, enough), omega arith))
  | inr e ↦
      let less : 5 * (acc + x) < 4 * total = ground arith in
      let rest = reach_bounds total (acc + x) (index + 1) xs (omega arith) less in
      rw e (
        suc rest.0,
        (
          rw rest.1.0 (ap some (omega arith)),
          omega (arith, rest.1),
          omega (arith, rest.1),
          omega (arith, rest.1),
        ),
      )
]

reach_nothing :
    (total acc index : ℕ) (xs : List ℕ)
    → 5 * (acc + sum xs) < 4 * total
    → reach total acc index xs ≡ none
unfolding reach sum sum_of
reach_nothing total acc index [] h = refl
reach_nothing total acc index (x ∷ xs) h =
    ground (arith, reach_nothing total (acc + x) (index + 1) xs (omega arith))

flows_found :
    (payloads : List ℕ) (total j : ℕ)
    → 0 < total
    → reach total 0 1 (sort_desc payloads) ≡ some (1 + j)
    → flows_for_80_percent payloads total ≡ suc j
unfolding flows_for_80_percent
flows_found payloads total j h e = ground arith

flows_all :
    (payloads : List ℕ) (total : ℕ)
    → 0 < total
    → reach total 0 1 (sort_desc payloads) ≡ none
    → flows_for_80_percent payloads total ≡ length payloads
unfolding flows_for_80_percent
flows_all payloads total h e = ground arith

-- For a positive payload total, either all flows together carry less than 80 % of it and the result
-- is the number of flows, or the result is a number suc j of at most that many flows, so that the
-- suc j largest flows carry 80 % of the total and the j largest do not.
pub flows_for_80_minimal :
    (payloads : List ℕ) (total : ℕ)
    → 0 < total
    → ((j : ℕ) × ((flows_for_80_percent payloads total ≡ suc j)
          × (suc j ≤ length payloads)
          × (4 * total ≤ 5 * sum_of (λ x. x) (take (suc j) (sort_desc payloads)))
          × (5 * sum_of (λ x. x) (take j (sort_desc payloads)) < 4 * total)))
      ⊎ ((5 * sum_of (λ x. x) payloads < 4 * total)
          × (flows_for_80_percent payloads total ≡ length payloads))
unfolding sum
flows_for_80_minimal payloads total h =
    let same = sum_sort payloads in
    elim (Bool-cases (leb (4 * total) (5 * sum payloads))) [
      | inl e ↦
          let enough = leb→le (4 * total) (5 * sum payloads) e in
          let k =
            reach_bounds total 0 1 (sort_desc payloads) (omega (arith, enough, same))
              (omega arith) in
          inl (
            k.0,
            (
              flows_found payloads total k.0 h k.1.0,
              omega (arith, k.1, length_sort payloads),
              omega (arith, k.1),
              omega (arith, k.1),
            ),
          )
      | inr e ↦
          let less : 5 * sum payloads < 4 * total = ground arith in
          inr (
            less,
            flows_all payloads total h
                (reach_nothing total 0 1 (sort_desc payloads) (omega (arith, less, same))),
          )
    ]
