-- ===== src/Pricing/Bands/Hysteresis.antt =====
-- src/modules/transport/pricing/demand-bands.ts, `resolveBandIndex`: the band that is chosen, and the margin
-- on the way down.
use transport_api.Common.{
  Bool, Bool-cases, List, Option, Option-cases, ap, arith, false, inl, inr, leb, length, ltb, min,
  none, some, subst, sym, true, ℕ, ◌&&◌, ◌+◌, ◌-◌, ◌<◌, ◌∙◌, ◌≡◌, ◌≤◌, ◌⊎◌,
}
use transport_api.Common.Int.{ℤ}
use transport_api.Pricing.Bands.{DemandBand, resolve_band_index, step_down, target_from}
use transport_api.Pricing.Bands.Descent.{
  fallen_left, is_kept, is_reached, kept_inside, kept_stays, step_down-bounds, step_down-falls,
  step_down-stops, step_down_again, target_from-last, target_from-lt, target_from-reached,
}

-- The band that was in force is this one or a higher one.
abbrev pub was_above : Option ℕ → ℕ → Bool
was_above previous n = elim previous [ none ↦ false | some p ↦ leb n p ]

module _ (ratio : ℤ) (previous : Option ℕ) (bands : List DemandBand) (hysteresis : ℤ) where
  -- Where the search ends: no band above is reached, and what lies above it and was in force is left.
  abbrev pub IsSettled : ℕ → ℕ → Type 0
  IsSettled k x =
      (x < length bands)
      × ((x ≡ 0)
          ⊎ (is_reached ratio bands x ≡ true)
          ⊎ ((was_above previous x ≡ true) × (is_kept ratio hysteresis bands x ≡ true)))
      × ((k ≤ x) ⊎ (is_reached ratio bands k ≡ false))
      × ((k ≤ x) ⊎ (was_above previous k ≡ false) ⊎ (is_kept ratio hysteresis bands k ≡ false))

  from_zero : (n : ℕ) → 0 + n ≡ n
  from_zero n = omega arith

  reached_target :
      let target = target_from ratio 0 0 bands in
      (target ≡ 0) ⊎ (is_reached ratio bands target ≡ true)
  reached_target = elim (target_from-reached ratio 0 0 bands) [
    | inl start ↦ inl start
    | inr (n, at, there) ↦
        inr (subst (λ m. is_reached ratio bands m ≡ true) (sym (at ∙ from_zero n)) there)
  ]

  reached_below :
      (k x : ℕ) → target_from ratio 0 0 bands ≤ x → (k ≤ x) ⊎ (is_reached ratio bands k ≡ false)
  reached_below k x low = elim (Bool-cases (is_reached ratio bands k)) [
    | inr not_reached ↦ inr not_reached
    | inl reached ↦
        inl (omega (arith, low, target_from-last ratio 0 0 bands k (omega arith) reached))
  ]

  after_fall :
      (k p : ℕ)
      → previous ≡ some p
      → 0 < length bands
      → let target = target_from ratio 0 0 bands in
        let from = min p (length bands - 1) in
        target ≤ from → IsSettled k (step_down ratio hysteresis bands target from)
  after_fall k p before some_band start =
      let target : ℕ = target_from ratio 0 0 bands in
      let from : ℕ = min p (length bands - 1) in
      let x : ℕ = step_down ratio hysteresis bands target from in
      let (above, below) = step_down-bounds ratio hysteresis bands target from start in
      let inside : x < length bands = omega (arith, below, some_band) in
      let under : x ≤ p = omega (arith, below) in
      (
        inside,
        elim (Bool-cases (ltb target x)) [
          | inr at ↦
              let same : target ≡ x = ground (arith, above) in
              elim reached_target [
                | inl zero_there ↦ inl (omega (arith, same, zero_there))
                | inr there ↦ inr (inl (subst (λ m. is_reached ratio bands m ≡ true) same there))
              ]
          | inl over ↦
              let stands = step_down-stops ratio hysteresis bands target from (ground arith) in
              inr (inr (ground (arith, under), kept_stays ratio hysteresis bands x inside stands))
        ],
        reached_below k x above,
        elim (Bool-cases (ltb x k && leb k from)) [
          | inl between ↦
              let fallen =
                step_down-falls ratio hysteresis bands target from k (ground arith)
                  (ground arith) in
              inr (inr (fallen_left ratio hysteresis bands k fallen))
          | inr outside ↦ elim (Bool-cases (leb k x)) [
            | inl low ↦ inl (ground arith)
            | inr high ↦ elim (Bool-cases (leb k p)) [
              | inr beyond ↦ inr (inl (ground arith))
              | inl within ↦ inr (
                  inr (elim (Bool-cases (is_kept ratio hysteresis bands k)) [
                    | inr left ↦ left
                    | inl kept ↦
                        absurd
                          (ground (arith, (kept_inside ratio hysteresis bands k kept).0, some_band))
                  ]))
            ]
          ]
        ],
      )

  -- Whatever band was in force, the band that is chosen is one of the list. No band above it is
  -- reached by the ratio. It is reached itself, or is the first, or it lies at or below the band that
  -- was in force and the ratio is still above its floor less the margin; and every band above it, up
  -- to the one that was in force, has been left: the ratio has fallen to its floor less the margin.
  pub resolve_band_index-IsSettled :
      (k : ℕ) → 0 < length bands → IsSettled k (resolve_band_index ratio previous bands hysteresis)
  unfolding resolve_band_index
  resolve_band_index-IsSettled k some_band =
      let target : ℕ = target_from ratio 0 0 bands in
      let inside : target < length bands =
        omega (arith, target_from-lt ratio 0 0 bands (omega (arith, some_band))) in
      let first = reached_target in
      let at_target : ((k ≤ target) ⊎ (was_above previous k ≡ false)) → IsSettled k target = λ low.
        (inside, settled_first first, reached_below k target (omega arith), settled_last low) in
      elim (Option-cases previous) [
        | inl start ↦
            let same : resolve_band_index ratio previous bands hysteresis ≡ target = ground arith in
            subst (IsSettled k) (sym same) (at_target (inr (ground arith)))
        | inr (p, before) ↦ elim (Bool-cases (leb p target)) [
          | inl rises ↦
              let same : resolve_band_index ratio previous bands hysteresis ≡ target =
                ground arith in
              subst (IsSettled k) (sym same) (
                at_target (elim (Bool-cases (leb k target)) [
                  | inl low ↦ inl (ground arith)
                  | inr high ↦ inr (ground arith)
                ]))
          | inr falls ↦
              let from : ℕ = min p (length bands - 1) in
              let x : ℕ = step_down ratio hysteresis bands target from in
              let same : resolve_band_index ratio previous bands hysteresis ≡ x = ground arith in
              let start : target ≤ from = ground (arith, inside) in
              subst (IsSettled k) (sym same) (after_fall k p before some_band start)
        ]
      ]
    where
      settled_first :
          {x : ℕ} {B : Type 0}
          → (x ≡ 0) ⊎ (is_reached ratio bands x ≡ true)
          → (x ≡ 0) ⊎ (is_reached ratio bands x ≡ true) ⊎ B
      settled_first (inl e) = inl e
      settled_first (inr e) = inr (inl e)

      settled_last : {A B C : Type 0} → A ⊎ B → A ⊎ B ⊎ C
      settled_last (inl a) = inl a
      settled_last (inr b) = inr (inl b)

-- Prices do not flicker: the band in force stays as long as the ratio is above its floor less the
-- margin and reaches no higher band.
pub resolve_band_index-stays :
    (ratio hysteresis : ℤ) (bands : List DemandBand) (p : ℕ)
    → is_kept ratio hysteresis bands p ≡ true
    → ((k : ℕ) → p < k → is_reached ratio bands k ≡ false)
    → resolve_band_index ratio (some p) bands hysteresis ≡ p
unfolding resolve_band_index
resolve_band_index-stays ratio hysteresis bands p kept no_higher =
    let target : ℕ = target_from ratio 0 0 bands in
    let (inside, stands) = kept_inside ratio hysteresis bands p kept in
    let last : min p (length bands - 1) ≡ p = omega (arith, inside) in
    let again = step_down_again ratio hysteresis bands target p (λ _. stands) in
    let low : target ≤ p = elim (target_from-reached ratio 0 0 bands) [
      | inl start ↦ omega (arith, start)
      | inr (n, at, there) ↦ elim (Bool-cases (leb n p)) [
        | inl below ↦ ground (arith, at)
        | inr above ↦ absurd (ground (arith, no_higher n (ground arith)))
      ]
    ] in
    ground (arith, ap (step_down ratio hysteresis bands target) last ∙ again)
