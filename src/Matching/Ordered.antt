-- ===== src/Matching/Ordered.antt =====
-- src/modules/operations/matching/scoring.ts, `compareRanked`: the order of a ranking.
use transport_api.Common.{
  All, All-map, Bool, Bool-cases, List, Option, [], ap, arith, false, if◌then◌else◌, inl, inr, leb,
  ltb, none, not, refl, some, suc, true, ℕ, ◌&&◌, ◌==◌, ◌||◌, ◌∷◌, ◌≡◌,
}
use transport_api.Common.Int.{lt_ℤ, pos, sub_ℕ, ℤ}
use transport_api.Common.Sorting.{insert_sorted, sort}
use transport_api.Matching.{EligibleDriver, MatchingEnv, search_rings}
use transport_api.Matching.Kept.{insert_sorted-All}
use transport_api.Matching.Ranking.{
  ScoredDriver, compare_ranked, compare_scores, ids_of, is_zero, preselect, rank_drivers,
  ranks_first, score_drivers, straight_line_of,
}
use transport_api.World.{TransportOrder, World}

abbrev is_positive : ℤ → Bool
is_positive n = lt_ℤ (pos 0) n

sub_ℕ_flip : (a b : ℕ) → is_positive (sub_ℕ a b) ≡ true → is_positive (sub_ℕ b a) ≡ false
sub_ℕ_flip a b h = ground arith

abbrev by_line : ℕ → ℕ → ℤ → ℤ
by_line la lb e = if is_zero e then sub_ℕ la lb else e

by_line_flip :
    (la lb x y : ℕ)
    → is_positive (by_line la lb (sub_ℕ x y)) ≡ true
    → is_positive (by_line lb la (sub_ℕ y x)) ≡ false
by_line_flip la lb x y h = elim (Bool-cases (x == y)) [
  | inl same ↦ ground (arith, sub_ℕ_flip la lb)
  | inr differ ↦ ground (arith, sub_ℕ_flip x y)
]

compare_scores_flip :
    (a b : ScoredDriver) (x y : ℕ)
    → is_positive (compare_scores a b (sub_ℕ x y)) ≡ true
    → is_positive (compare_scores b a (sub_ℕ y x)) ≡ false
compare_scores_flip a b x y h = elim (Bool-cases (a.score == b.score)) [
  | inl same ↦
      let tie = by_line_flip (straight_line_of a) (straight_line_of b) x y in ground (arith, tie)
  | inr differ ↦ ground (arith, sub_ℕ_flip b.score a.score)
]

compare_ranked_flip :
    (da db : EligibleDriver) (sa sb : ℕ) (ea eb : Option ℕ)
    → is_positive (
        compare_ranked
          (record { driver = da; eta_seconds = ea; score = sa })
          (record { driver = db; eta_seconds = eb; score = sb }))
      ≡ true
    → is_positive (
        compare_ranked
          (record { driver = db; eta_seconds = eb; score = sb })
          (record { driver = da; eta_seconds = ea; score = sa }))
      ≡ false
unfolding compare_ranked
compare_ranked_flip da db sa sb none none h =
    compare_scores_flip (record { driver = da; eta_seconds = none; score = sa })
      (record { driver = db; eta_seconds = none; score = sb }) 0 0 h
compare_ranked_flip da db sa sb none (some y) h = refl
compare_ranked_flip da db sa sb (some x) none h = absurd (ground arith)
compare_ranked_flip da db sa sb (some x) (some y) h =
    compare_scores_flip (record { driver = da; eta_seconds = some x; score = sa })
      (record { driver = db; eta_seconds = some y; score = sb }) x y h

not-swap : (b : Bool) → not b ≡ false → b ≡ true
not-swap b h = ground arith

ranks_first_total : (a b : ScoredDriver) → ranks_first a b ≡ false → ranks_first b a ≡ true
ranks_first_total a b h = ap not (
    compare_ranked_flip a.driver b.driver a.score b.score a.eta_seconds b.eta_seconds
      (not-swap (lt_ℤ (pos 0) (compare_ranked a b)) h))

-- The order that the ranking promises, told without `compareRanked`: a road estimate first, then the
-- better score, then the earlier arrival, then the shorter line.
abbrev pub stands_before : Option ℕ → Option ℕ → (ℕ × ℕ) → (ℕ × ℕ) → Bool
stands_before none none (sa, la) (sb, lb) = ltb sb sa || (sa == sb && leb la lb)
stands_before none (some y) (sa, la) (sb, lb) = false
stands_before (some x) none (sa, la) (sb, lb) = true
stands_before (some x) (some y) (sa, la) (sb, lb) =
    ltb sb sa || (sa == sb && (ltb x y || (x == y && leb la lb)))

abbrev pub may_precede : ScoredDriver → ScoredDriver → Bool
may_precede a b =
    stands_before a.eta_seconds b.eta_seconds (a.score, straight_line_of a)
      (b.score, straight_line_of b)

-- Every candidate may stand before all that come after it.
abbrev pub IsRanked : List ScoredDriver → Type 0
IsRanked [] = Unit
IsRanked (s ∷ ss) = All (λ (t : ScoredDriver). may_precede s t ≡ true) ss × IsRanked ss

stands_before_trans :
    (ea eb ec : Option ℕ) (sa la sb lb sc lc : ℕ)
    → stands_before ea eb (sa, la) (sb, lb) ≡ true
    → stands_before eb ec (sb, lb) (sc, lc) ≡ true
    → stands_before ea ec (sa, la) (sc, lc) ≡ true
stands_before_trans none none none sa la sb lb sc lc h k = ground arith
stands_before_trans none none (some z) sa la sb lb sc lc h k = k
stands_before_trans none (some y) ec sa la sb lb sc lc h k = absurd (ground arith)
stands_before_trans (some x) eb none sa la sb lb sc lc h k = refl
stands_before_trans (some x) none (some z) sa la sb lb sc lc h k = absurd (ground arith)
stands_before_trans (some x) (some y) (some z) sa la sb lb sc lc h k = ground arith

may_precede_trans :
    (a b c : ScoredDriver)
    → may_precede a b ≡ true
    → may_precede b c ≡ true
    → may_precede a c ≡ true
may_precede_trans a b c =
    stands_before_trans a.eta_seconds b.eta_seconds c.eta_seconds a.score (straight_line_of a)
      b.score (straight_line_of b) c.score (straight_line_of c)

compared_scores :
    (a b : ScoredDriver) (x y : ℕ)
    → is_positive (compare_scores a b (sub_ℕ x y)) ≡ false
    → (ltb b.score a.score
        || (a.score == b.score
            && (ltb x y || (x == y && leb (straight_line_of a) (straight_line_of b)))))
      ≡ true
compared_scores a b x y h = ground arith

compare_ranked-may_precede :
    (da db : EligibleDriver) (sa sb : ℕ) (ea eb : Option ℕ)
    → is_positive (
        compare_ranked
          (record { driver = da; eta_seconds = ea; score = sa })
          (record { driver = db; eta_seconds = eb; score = sb }))
      ≡ false
    → stands_before ea eb (sa, da.straight_line_meters) (sb, db.straight_line_meters) ≡ true
unfolding compare_ranked
compare_ranked-may_precede da db sa sb none none h =
    compared_scores (record { driver = da; eta_seconds = none; score = sa })
      (record { driver = db; eta_seconds = none; score = sb }) 0 0 h
compare_ranked-may_precede da db sa sb none (some y) h = absurd (ground arith)
compare_ranked-may_precede da db sa sb (some x) none h = refl
compare_ranked-may_precede da db sa sb (some x) (some y) h =
    compared_scores (record { driver = da; eta_seconds = some x; score = sa })
      (record { driver = db; eta_seconds = some y; score = sb }) x y h

not-back : (b : Bool) → not b ≡ true → b ≡ false
not-back b h = ground arith

ranks_first-may_precede : (a b : ScoredDriver) → ranks_first a b ≡ true → may_precede a b ≡ true
ranks_first-may_precede a b h =
    compare_ranked-may_precede a.driver b.driver a.score b.score a.eta_seconds b.eta_seconds
      (not-back (lt_ℤ (pos 0) (compare_ranked a b)) h)

inserted-IsRanked :
    (x : ScoredDriver) (ys : List ScoredDriver)
    → IsRanked ys
    → IsRanked (insert_sorted ranks_first x ys)
inserted-IsRanked x [] t = (tt, tt)
inserted-IsRanked x (y ∷ ys) t = go (ranks_first x y) refl (inserted-IsRanked x ys t.1)
  where
    go :
        (b : Bool)
        → ranks_first x y ≡ b
        → IsRanked (insert_sorted ranks_first x ys)
        → IsRanked (if b then x ∷ y ∷ ys else y ∷ insert_sorted ranks_first x ys)
    go true e rest =
        let first = ranks_first-may_precede x y e in
        let later =
          All-map (λ z. may_precede y z ≡ true) (λ z. may_precede x z ≡ true) ys
            (λ z. may_precede_trans x y z first) t.0 in
        ((first, later), t)
    go false e rest =
        let first = ranks_first-may_precede y x (ranks_first_total x y e) in
        (insert_sorted-All (λ z. may_precede y z ≡ true) ranks_first x ys first t.0, rest)

sort-IsRanked : (ss : List ScoredDriver) → IsRanked (sort ranks_first ss)
sort-IsRanked [] = tt
sort-IsRanked (s ∷ ss) = inserted-IsRanked s (sort ranks_first ss) (sort-IsRanked ss)

-- A ranking is in order throughout: of any two candidates, the one with a road estimate stands before
-- the one without; where both or neither have one, the better score decides, then the earlier
-- arrival, then the shorter straight line.
pub rank_drivers-IsRanked :
    (env : MatchingEnv) (w : World) (o : TransportOrder) (skip : List ℕ)
    → IsRanked (rank_drivers env w o skip)
unfolding rank_drivers
rank_drivers-IsRanked env w o skip =
    let eligible = search_rings env w o.id o.vehicle_category_id skip (suc env.max_rings) 0 [] [] in
    let preselected = preselect env eligible in
    sort-IsRanked (score_drivers env (env.matrix o.id (ids_of preselected)) 0 preselected)
