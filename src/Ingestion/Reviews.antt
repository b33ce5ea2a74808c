-- ===== src/Ingestion/Reviews.antt =====
-- The order of observations of a review, `_upsert_review` of ingestion/repository.py.
use sahabino.Common.{
  ℕ, ◌≤◌, ◌<◌, true, false, ◌≡◌, refl, sym, ◌∙◌, ap, inl, inr, suc, length, List, [], ◌∷◌, ◌==◌,
  leb, min, arith, leb→le, leb-false→lt, Bool-cases,
}
use sahabino.Ingestion.Tables.{ReviewObserved, Review, Database}
use sahabino.Ingestion.Repository.{
  proposed, refreshed, merged, is_review_of, upsert_rows, upsert_review,
}

-- Two observations of one review.
pub record SameReview (p q : ReviewObserved) : Type 0 where
  pub application : p.application_id ≡ q.application_id
  pub review : p.external_review_id ≡ q.external_review_id

test_holds : (a b : ℕ) → a ≤ b → leb a b ≡ true
test_holds a b h = ground arith

test_fails : (a b : ℕ) → b < a → leb a b ≡ false
test_fails a b h = ground arith

merged_new :
    (p : ReviewObserved) (r : Review)
    → r.last_observed_at ≤ p.observed_at
    → merged p r ≡ refreshed p (min r.first_observed_at p.observed_at) r
unfolding merged
merged_new p r h = rw (test_holds r.last_observed_at p.observed_at h) refl

abbrev older : ReviewObserved → Review → Review
older p r = record r { first_observed_at = min r.first_observed_at p.observed_at }

merged_old :
    (p : ReviewObserved) (r : Review) → p.observed_at < r.last_observed_at → merged p r ≡ older p r
unfolding merged
merged_old p r h = rw (test_fails r.last_observed_at p.observed_at h) refl

-- The later observation comes second, or is overtaken.
merged_later :
    (p q : ReviewObserved) (r : Review)
    → p.observed_at < q.observed_at
    → merged q (merged p r) ≡ merged p (merged q r)
unfolding refreshed
merged_later p q r h =
    let f = r.first_observed_at in
    let first : min (min f p.observed_at) q.observed_at ≡ min (min f q.observed_at) p.observed_at =
      omega arith in
    elim (Bool-cases (leb r.last_observed_at q.observed_at)) [
      | inr e ↦
          let late = leb-false→lt r.last_observed_at q.observed_at e in
          ap (merged q) (merged_old p r (omega (arith, late, h)))
          ∙ merged_old q (older p r) late
          ∙ ap (λ n. record r { first_observed_at = n }) first
          ∙ sym (merged_old p (older q r) (omega (arith, late, h)))
          ∙ sym (ap (merged p) (merged_old q r late))
      | inl e ↦
          let new = leb→le r.last_observed_at q.observed_at e in
          let right =
            ap (merged p) (merged_new q r new)
            ∙ merged_old p (refreshed q (min f q.observed_at) r) h in
          elim (Bool-cases (leb r.last_observed_at p.observed_at)) [
            | inl g ↦
                let early = leb→le r.last_observed_at p.observed_at g in
                ap (merged q) (merged_new p r early)
                ∙ merged_new q (refreshed p (min f p.observed_at) r) (omega (arith, h))
                ∙ ap (λ n. refreshed q n r) first
                ∙ sym right
            | inr g ↦
                ap (merged q) (merged_old p r (leb-false→lt r.last_observed_at p.observed_at g))
                ∙ merged_new q (older p r) new
                ∙ ap (λ n. refreshed q n r) first
                ∙ sym right
          ]
    ]

flip : {p q : ReviewObserved} → SameReview p q → SameReview q p
flip s = record { application = sym s.application; review = sym s.review }

eq_refl : (a : ℕ) → (a == a) ≡ true
eq_refl a = ground arith

same_test :
    (p q : ReviewObserved) (r : Review) → SameReview p q → is_review_of q r ≡ is_review_of p r
same_test p q r s = rw (s.application, s.review) refl

-- The row that the first observation leaves is that of the second one's review.
kept_test : (p q : ReviewObserved) (r : Review) → is_review_of q (merged p r) ≡ is_review_of q r
unfolding merged refreshed
kept_test p q r = elim (Bool-cases (leb r.last_observed_at p.observed_at)) [
  | inl e ↦ rw e refl
  | inr e ↦ rw e refl
]

own_test : (n : ℕ) (p q : ReviewObserved) → SameReview p q → is_review_of q (proposed n p) ≡ true
unfolding proposed
own_test n p q s =
    rw (s.application, s.review, eq_refl q.application_id, eq_refl q.external_review_id) refl

merged_first :
    (n : ℕ) (p q : ReviewObserved)
    → SameReview p q
    → p.observed_at < q.observed_at
    → merged q (proposed n p) ≡ merged p (proposed n q)
unfolding proposed refreshed
merged_first n p q s h =
    let comm : min p.observed_at q.observed_at ≡ min q.observed_at p.observed_at = omega arith in
    merged_new q (proposed n p) (omega (arith, h))
    ∙ rw (s.application, s.review, comm) refl
    ∙ sym (merged_old p (proposed n q) h)

upsert_found :
    (n : ℕ) (p : ReviewObserved) (r : Review) (rs : List Review)
    → is_review_of p r ≡ true
    → (upsert_rows n p (r ∷ rs)).1 ≡ merged p r ∷ rs
unfolding upsert_rows
upsert_found n p r rs e = rw e refl

upsert_other :
    (n : ℕ) (p : ReviewObserved) (r : Review) (rs : List Review)
    → is_review_of p r ≡ false
    → (upsert_rows n p (r ∷ rs)).1 ≡ r ∷ (upsert_rows n p rs).1
unfolding upsert_rows
upsert_other n p r rs e = rw e refl

-- The second of two observations meets the row that the first one merged.
both_found :
    (n k : ℕ) (p q : ReviewObserved) (r : Review) (rs : List Review)
    → SameReview p q
    → is_review_of p r ≡ true
    → (upsert_rows k q (upsert_rows n p (r ∷ rs)).1).1 ≡ merged q (merged p r) ∷ rs
both_found n k p q r rs s e =
    ap (λ x. (upsert_rows k q x).1) (upsert_found n p r rs e)
    ∙ upsert_found k q (merged p r) rs (kept_test p q r ∙ same_test p q r s ∙ e)

both_other :
    (n k : ℕ) (p q : ReviewObserved) (r : Review) (rs : List Review)
    → SameReview p q
    → is_review_of p r ≡ false
    → (upsert_rows k q (upsert_rows n p (r ∷ rs)).1).1
      ≡ r ∷ (upsert_rows k q (upsert_rows n p rs).1).1
both_other n k p q r rs s e =
    ap (λ x. (upsert_rows k q x).1) (upsert_other n p r rs e)
    ∙ upsert_other k q r _ (same_test p q r s ∙ e)

rows_commute :
    (n k : ℕ) (p q : ReviewObserved) (rows : List Review)
    → SameReview p q
    → p.observed_at < q.observed_at
    → (upsert_rows k q (upsert_rows n p rows).1).1 ≡ (upsert_rows k p (upsert_rows n q rows).1).1
unfolding upsert_rows
rows_commute n k p q [] s h =
    rw (own_test n p q s, own_test n q p (flip s)) (ap (λ r. r ∷ []) (merged_first n p q s h))
rows_commute n k p q (r ∷ rs) s h = elim (Bool-cases (is_review_of p r)) [
  | inl e ↦
      both_found n k p q r rs s e
      ∙ ap (λ x. x ∷ rs) (merged_later p q r h)
      ∙ sym (both_found n k q p r rs (flip s) (same_test p q r s ∙ e))
  | inr e ↦
      both_other n k p q r rs s e
      ∙ ap (λ x. r ∷ x) (rows_commute n k p q rs s h)
      ∙ sym (both_other n k q p r rs (flip s) (same_test p q r s ∙ e))
]

same_length :
    (n : ℕ) (p q : ReviewObserved) (rows : List Review)
    → SameReview p q
    → length (upsert_rows n p rows).1 ≡ length (upsert_rows n q rows).1
unfolding upsert_rows
same_length n p q [] s = refl
same_length n p q (r ∷ rs) s = elim (Bool-cases (is_review_of p r)) [
  | inl e ↦
      ap length (upsert_found n p r rs e)
      ∙ sym (ap length (upsert_found n q r rs (same_test p q r s ∙ e)))
  | inr e ↦
      ap length (upsert_other n p r rs e)
      ∙ ap suc (same_length n p q rs s)
      ∙ sym (ap length (upsert_other n q r rs (same_test p q r s ∙ e)))
]

-- Two observations of one review, at different times, leave the same table in either order: the
-- later one has the last word, and the first time of observation is the least.
pub upsert_commutes :
    (p q : ReviewObserved) (d : Database)
    → SameReview p q
    → p.observed_at < q.observed_at
    → (upsert_review q (upsert_review p d).1).1 ≡ (upsert_review p (upsert_review q d).1).1
unfolding upsert_review
upsert_commutes p q d s h =
    let n = length d.review_rows in
    let sizes = same_length n p q d.review_rows s in
    ap (λ rows. record d { review_rows = rows })
      (rows_commute n (length (upsert_rows n p d.review_rows).1) p q d.review_rows s h
        ∙ ap (λ k. (upsert_rows k p (upsert_rows n q d.review_rows).1).1) sizes)
