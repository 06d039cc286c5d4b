-- ===== src/Pricing/Bands/Descent.antt =====
-- src/modules/transport/pricing/demand-bands.ts, `resolveBandIndex`: when the band in force stays, and where
-- a fall ends.
use transport_api.Common.{
  ==_iff, Bool, Bool-cases, List, Option-cases, [], arith, false, if◌then◌else◌, inl, inr, length,
  none, refl, some, subst, suc, sym, true, zero, ℕ, ◌+◌, ◌<◌, ◌==◌, ◌∷◌, ◌≡◌, ◌≤◌, ◌⊎◌,
}
use transport_api.Common.Int.{lt_ℤ, ℤ, ◌-ℤ◌}
use transport_api.Pricing.Bands.{DemandBand, band_at, has_fallen, is_over, step_down, target_from}

pub target_from-lt :
    (ratio : ℤ) (index target : ℕ) (bs : List DemandBand)
    → target < index + length bs
    → target_from ratio index target bs < index + length bs
unfolding target_from
target_from-lt ratio index target [] h = h
target_from-lt ratio index target (b ∷ bs) h =
    let next : ℕ = if is_over ratio b then index else target in
    let here : next < suc index + length bs = ground arith in
    omega (arith, target_from-lt ratio (suc index) next bs here)

-- The ratio exceeds the floor of the band at an index.
abbrev pub is_reached : ℤ → List DemandBand → ℕ → Bool
is_reached ratio bands n = elim (band_at n bands) [ none ↦ false | some b ↦ is_over ratio b ]

target_from-grows :
    (ratio : ℤ) (index target : ℕ) (bs : List DemandBand)
    → target ≤ index
    → target ≤ target_from ratio index target bs
unfolding target_from
target_from-grows ratio index target [] h = omega arith
target_from-grows ratio index target (b ∷ bs) h =
    let next : ℕ = if is_over ratio b then index else target in
    let low : next ≤ suc index = ground arith in
    let up : target ≤ next = ground arith in
    omega (arith, up, target_from-grows ratio (suc index) next bs low)

-- No band behind the target is reached.
pub target_from-last :
    (ratio : ℤ) (index target : ℕ) (bs : List DemandBand) (n : ℕ)
    → target ≤ index
    → is_reached ratio bs n ≡ true
    → index + n ≤ target_from ratio index target bs
unfolding target_from
target_from-last ratio index target [] n low reached = absurd (ground arith)
target_from-last ratio index target (b ∷ bs) zero low reached =
    ground (arith, target_from-grows ratio (suc index) index bs)
target_from-last ratio index target (b ∷ bs) (suc n) low reached =
    let next : ℕ = if is_over ratio b then index else target in
    let low_next : next ≤ suc index = ground arith in
    omega (arith, target_from-last ratio (suc index) next bs n low_next reached)

-- The target is reached, unless it is the one that the search began with.
pub target_from-reached :
    (ratio : ℤ) (index target : ℕ) (bs : List DemandBand)
    → let t = target_from ratio index target bs in
      (t ≡ target) ⊎ ((n : ℕ) × (t ≡ index + n) × (is_reached ratio bs n ≡ true))
unfolding target_from
target_from-reached ratio index target [] = inl refl
target_from-reached ratio index target (b ∷ bs) = elim (Bool-cases (is_over ratio b)) [
  | inr under ↦ elim (target_from-reached ratio (suc index) target bs) [
    | inl same ↦ inl (ground arith)
    | inr (n, at, there) ↦ inr (suc n, ground arith, there)
  ]
  | inl over ↦ elim (target_from-reached ratio (suc index) index bs) [
    | inl same ↦ inr (0, ground arith, over)
    | inr (n, at, there) ↦ inr (suc n, ground arith, there)
  ]
]

-- The ratio lies above the floor of the band less the margin.
abbrev pub is_kept : ℤ → ℤ → List DemandBand → ℕ → Bool
is_kept ratio hysteresis bands n = elim (band_at n bands) [
  | none ↦ false
  | some b ↦ elim b.above [ none ↦ true | some floor ↦ lt_ℤ (floor -ℤ hysteresis) ratio ]
]

pub fallen_left :
    (ratio hysteresis : ℤ) (bands : List DemandBand) (n : ℕ)
    → has_fallen ratio hysteresis bands n ≡ true
    → is_kept ratio hysteresis bands n ≡ false
unfolding has_fallen
fallen_left ratio hysteresis bands n fallen = elim (Option-cases (band_at n bands)) [
  | inl missing ↦ ground arith
  | inr (b, there) ↦ ground (arith, Option-cases b.above)
]

band_inside :
    (n : ℕ) (bands : List DemandBand)
    → n < length bands
    → (b : DemandBand) × (band_at n bands ≡ some b)
band_inside n [] h = absurd (omega (arith, h))
band_inside zero (b ∷ bs) h = (b, refl)
band_inside (suc n) (b ∷ bs) h = band_inside n bs (omega (arith, h))

pub kept_stays :
    (ratio hysteresis : ℤ) (bands : List DemandBand) (n : ℕ)
    → n < length bands
    → has_fallen ratio hysteresis bands n ≡ false
    → is_kept ratio hysteresis bands n ≡ true
unfolding has_fallen
kept_stays ratio hysteresis bands n inside stands =
    let (b, there) = band_inside n bands inside in ground (arith, there, Option-cases b.above)

pub kept_inside :
    (ratio hysteresis : ℤ) (bands : List DemandBand) (n : ℕ)
    → is_kept ratio hysteresis bands n ≡ true
    → (n < length bands) × (has_fallen ratio hysteresis bands n ≡ false)
unfolding has_fallen
kept_inside ratio hysteresis [] n kept = absurd (ground arith)
kept_inside ratio hysteresis (b ∷ bs) zero kept =
    (omega arith, ground (arith, Option-cases b.above))
kept_inside ratio hysteresis (b ∷ bs) (suc n) kept =
    let (inside, stands) = kept_inside ratio hysteresis bs n kept in (omega (arith, inside), stands)

module _ (ratio hysteresis : ℤ) (bands : List DemandBand) (target : ℕ) where
  pub step_down-bounds :
      (index : ℕ)
      → target ≤ index
      → let x = step_down ratio hysteresis bands target index in (target ≤ x) × (x ≤ index)
  unfolding step_down
  step_down-bounds zero h = (h, omega arith)
  step_down-bounds (suc index) h = ground (arith, step_down-bounds index)

  pub step_down-stops :
      (index : ℕ)
      → let x = step_down ratio hysteresis bands target index in
        target < x → has_fallen ratio hysteresis bands x ≡ false
  unfolding step_down
  step_down-stops zero h = absurd (omega (arith, h))
  step_down-stops (suc index) h = ground (arith, step_down-stops index)

  pub step_down-falls :
      (index k : ℕ)
      → step_down ratio hysteresis bands target index < k
      → k ≤ index
      → has_fallen ratio hysteresis bands k ≡ true
  unfolding step_down
  step_down-falls zero k below upto = absurd (omega (arith, below, upto))
  step_down-falls (suc index) k below upto = elim (Bool-cases (k == suc index)) [
    | inl top ↦
        let at : k ≡ suc index = (==_iff k (suc index)).0 top in
        subst (λ n. has_fallen ratio hysteresis bands n ≡ true) (sym at) (ground arith)
    | inr lower ↦ ground (arith, step_down-falls index k)
  ]

  pub step_down_again :
      (x : ℕ)
      → (target < x → has_fallen ratio hysteresis bands x ≡ false)
      → step_down ratio hysteresis bands target x ≡ x
  unfolding step_down
  step_down_again zero h = refl
  step_down_again (suc x) h = ground arith
