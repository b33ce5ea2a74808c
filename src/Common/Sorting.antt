-- ===== src/Common/Sorting.antt =====
-- Python's stable `sorted` with a key, as an insertion sort, with sums and counts of lists.
use Prim.Native.Nat.{ℕ, ◌+◌, ◌≤◌}
use mathlib.Core.Path.{◌≡◌, refl}
use mathlib.Core.Logic.{inl, inr}
use mathlib.Core.Bool.{Bool}
use mathlib.Core.List.{List, [], ◌∷◌}
use native.Mathlib.Omega.{arith}
use sahabino.Common.Tests.{leb, leb→le, leb-false→le, Bool-cases, if◌then◌else◌}
use sahabino.Common.Lists.{length, All}

module _ {ℓ} {A : Type ℓ} where
  -- An element goes before the first one whose key is not smaller.
  unfoldable pub insert_by : (A → ℕ) → A → List A → List A
  insert_by key x [] = x ∷ []
  insert_by key x (y ∷ ys) = if leb (key x) (key y) then x ∷ y ∷ ys else y ∷ insert_by key x ys

  -- `sorted(xs, key=key)`
  unfoldable pub sort_by : (A → ℕ) → List A → List A
  sort_by key [] = []
  sort_by key (x ∷ xs) = insert_by key x (sort_by key xs)

  -- `sum(f(x) for x in xs)`
  unfoldable pub sum_of : (A → ℕ) → List A → ℕ
  sum_of f [] = 0
  sum_of f (x ∷ xs) = f x + sum_of f xs

  -- `sum(test(x) for x in xs)`
  unfoldable pub count_of : (A → Bool) → List A → ℕ
  count_of test [] = 0
  count_of test (x ∷ xs) = (if test x then 1 else 0) + count_of test xs

  -- `[x for x in xs if test(x)]`
  unfoldable pub filter_by : (A → Bool) → List A → List A
  filter_by test [] = []
  filter_by test (x ∷ xs) = if test x then x ∷ filter_by test xs else filter_by test xs

-- `sorted(values)`
abbrev pub sorted : List ℕ → List ℕ
sorted xs = sort_by (λ x. x) xs

module _ {ℓ} {A : Type ℓ} where
  pub count-insert :
      (key : A → ℕ) (test : A → Bool) (x : A) (ys : List A)
      → count_of test (insert_by key x ys) ≡ (if test x then 1 else 0) + count_of test ys
  unfolding count_of insert_by
  count-insert key test x [] = refl
  count-insert key test x (y ∷ ys) = ground (arith, count-insert key test x ys)

  -- Sorting moves elements only.
  pub count-sort :
      (key : A → ℕ) (test : A → Bool) (xs : List A)
      → count_of test (sort_by key xs) ≡ count_of test xs
  unfolding count_of sort_by
  count-sort key test [] = refl
  count-sort key test (x ∷ xs) =
      omega (arith, count-insert key test x (sort_by key xs), count-sort key test xs)

  pub length-insert_by :
      (key : A → ℕ) (x : A) (ys : List A) → length (insert_by key x ys) ≡ 1 + length ys
  unfolding insert_by
  length-insert_by key x [] = refl
  length-insert_by key x (y ∷ ys) = ground (arith, length-insert_by key x ys)

  pub length-sort : (key : A → ℕ) (xs : List A) → length (sort_by key xs) ≡ length xs
  unfolding sort_by
  length-sort key [] = refl
  length-sort key (x ∷ xs) =
      omega (arith, length-insert_by key x (sort_by key xs), length-sort key xs)

  -- The keys never fall.
  unfoldable pub IsSorted : (A → ℕ) → List A → Type 0
  IsSorted key [] = Unit
  IsSorted key (x ∷ xs) = All (λ y. key x ≤ key y) xs × IsSorted key xs

  All-weaken :
      (key : A → ℕ) {a b : ℕ} (xs : List A)
      → a ≤ b
      → All (λ y. b ≤ key y) xs
      → All (λ y. a ≤ key y) xs
  All-weaken key [] h all = tt
  All-weaken key (x ∷ xs) h (hx, all) = (omega arith, All-weaken key xs h all)

  All-insert :
      (key : A → ℕ) (a : ℕ) (x : A) (ys : List A)
      → a ≤ key x
      → All (λ y. a ≤ key y) ys
      → All (λ y. a ≤ key y) (insert_by key x ys)
  unfolding insert_by
  All-insert key a x [] h all = (h, tt)
  All-insert key a x (y ∷ ys) h (hy, all) = elim (Bool-cases (leb (key x) (key y))) [
    | inl e ↦ rw e (h, (hy, all))
    | inr e ↦ rw e (hy, All-insert key a x ys h all)
  ]

  insert_by-IsSorted :
      (key : A → ℕ) (x : A) (ys : List A) → IsSorted key ys → IsSorted key (insert_by key x ys)
  unfolding insert_by IsSorted
  insert_by-IsSorted key x [] s = (tt, tt)
  insert_by-IsSorted key x (y ∷ ys) (all, s) = elim (Bool-cases (leb (key x) (key y))) [
    | inl e ↦ let h = leb→le (key x) (key y) e in rw e ((h, All-weaken key ys h all), (all, s))
    | inr e ↦ rw e (
      All-insert key (key y) x ys (leb-false→le (key x) (key y) e) all,
      insert_by-IsSorted key x ys s,
    )
  ]

  pub sort_by-IsSorted : (key : A → ℕ) (xs : List A) → IsSorted key (sort_by key xs)
  unfolding sort_by IsSorted
  sort_by-IsSorted key [] = tt
  sort_by-IsSorted key (x ∷ xs) =
      insert_by-IsSorted key x (sort_by key xs) (sort_by-IsSorted key xs)

module _ {ℓ} {A : Type ℓ} where
  pub sum-filter :
      (f : A → ℕ) (test : A → Bool) (xs : List A) → sum_of f (filter_by test xs) ≤ sum_of f xs
  unfolding sum_of filter_by
  sum-filter f test [] = omega arith
  sum-filter f test (x ∷ xs) = elim (Bool-cases (test x)) [
    | inl e ↦ rw e (omega (arith, sum-filter f test xs))
    | inr e ↦ rw e (omega (arith, sum-filter f test xs))
  ]

  pub length-filter :
      (test : A → Bool) (xs : List A) → length (filter_by test xs) ≡ count_of test xs
  unfolding count_of filter_by
  length-filter test [] = refl
  length-filter test (x ∷ xs) = ground (arith, length-filter test xs)
