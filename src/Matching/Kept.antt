-- ===== src/Matching/Kept.antt =====
-- src/modules/operations/matching/matching.service.ts: sorting, pre-selecting, scoring and numbering add
-- nobody.
use transport_api.Common.{
  All, Bool, List, Option, [], false, if◌then◌else◌, none, some, suc, true, zero, ℕ, ◌∷◌,
}
use transport_api.Common.Sorting.{insert_sorted, sort}
use transport_api.Matching.{
  EligibleDriver, MatchingEnv, MatrixElement, route_failed, route_not_found, route_ok,
}
use transport_api.Matching.Ranking.{ScoredDriver, element_at, number_from, score_drivers, scored}
use transport_api.Offers.{RankedCandidate}
use transport_api.Offers.Sweep.{take}

module _ {A : Type 0} (P : A → Type 0) (not_after : A → A → Bool) where
  pub insert_sorted-All :
      (x : A) (xs : List A) → P x → All P xs → All P (insert_sorted not_after x xs)
  insert_sorted-All x [] h t = (h, tt)
  insert_sorted-All x (y ∷ ys) h t = go (not_after x y) (insert_sorted-All x ys h t.1)
    where
      go :
          (b : Bool)
          → All P (insert_sorted not_after x ys)
          → All P (if b then x ∷ y ∷ ys else y ∷ insert_sorted not_after x ys)
      go true rest = (h, t)
      go false rest = (t.0, rest)

  pub sort-All : (xs : List A) → All P xs → All P (sort not_after xs)
  sort-All [] t = tt
  sort-All (x ∷ xs) t = insert_sorted-All x (sort not_after xs) t.0 (sort-All xs t.1)

  pub take-All : (n : ℕ) (xs : List A) → All P xs → All P (take n xs)
  take-All zero xs t = tt
  take-All (suc n) [] t = tt
  take-All (suc n) (x ∷ xs) t = (t.0, take-All n xs t.1)

pub score_drivers-All :
    (P : EligibleDriver → Type 0) (env : MatchingEnv) (matrix : Option (ℕ → MatrixElement))
    (index : ℕ) (es : List EligibleDriver)
    → All P es
    → All (λ (s : ScoredDriver). P s.driver) (score_drivers env matrix index es)
unfolding score_drivers
score_drivers-All P env matrix index [] t = tt
score_drivers-All P env matrix index (e ∷ es) t =
    go (element_at matrix index) (score_drivers-All P env matrix (suc index) es t.1)
  where
    go :
        (x : MatrixElement)
        → All (λ (s : ScoredDriver). P s.driver) (score_drivers env matrix (suc index) es)
        → All
            (λ (s : ScoredDriver). P s.driver)
            (elim x [
              | route_ok seconds ↦
                  scored env e (some seconds) ∷ score_drivers env matrix (suc index) es
              | route_not_found ↦ score_drivers env matrix (suc index) es
              | route_failed ↦ scored env e none ∷ score_drivers env matrix (suc index) es
            ])
    go (route_ok seconds) rest = (t.0, rest)
    go route_not_found rest = rest
    go route_failed rest = (t.0, rest)

pub number_from-All :
    (P : ℕ → Type 0) (index : ℕ) (ss : List ScoredDriver)
    → All (λ (s : ScoredDriver). P s.driver.driver_id) ss
    → All (λ (c : RankedCandidate). P c.driver_id) (number_from index ss)
unfolding number_from
number_from-All P index [] t = tt
number_from-All P index (s ∷ ss) t = (t.0, number_from-All P (suc index) ss t.1)
