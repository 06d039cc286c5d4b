-- ===== src/Tests/Pricing.antt =====
-- Runs of the demand bands: demand-bands.ts.
use transport_api.Common.{
  All, List, [], arith, false, refl, some, suc, true, zero, ℕ, ◌<◌, ◌∷◌, ◌≡◌,
}
use transport_api.Common.Int.{pos, ◌-ℤ◌}
use transport_api.Pricing.Bands.{
  DemandBand, default_demand_bands, has_fallen, normalize_bands, resolve_band_index, step_down,
  target_from,
}
use transport_api.Pricing.Bands.Descent.{is_kept, is_reached}
use transport_api.Pricing.Bands.Hysteresis.{
  IsSettled, resolve_band_index-IsSettled, resolve_band_index-stays,
}
use transport_api.Pricing.Bands.Normal.{IsSorted, NeverLowers, normalize_bands-IsNormal, starts_low}

-- On the way down from ALTO the ratio 1.45 is still within the margin of 0.1.
abbrev chosen : ℕ
chosen = resolve_band_index (pos 1450) (some 2) default_demand_bands (pos 100)

stays_high : resolve_band_index (pos 1450) (some 2) default_demand_bands (pos 100) ≡ 2
unfolding resolve_band_index target_from step_down has_fallen ◌-ℤ◌
stays_high = refl

falls_back : resolve_band_index (pos 1390) (some 2) default_demand_bands (pos 100) ≡ 1
unfolding resolve_band_index target_from step_down has_fallen ◌-ℤ◌
falls_back = refl

kept_at : is_kept (pos 1450) (pos 100) default_demand_bands 2 ≡ true
unfolding ◌-ℤ◌
kept_at = refl

none_higher : (k : ℕ) → 2 < k → is_reached (pos 1450) default_demand_bands k ≡ false
none_higher zero h = absurd (omega (arith, h))
none_higher (suc zero) h = absurd (omega (arith, h))
none_higher (suc (suc zero)) h = absurd (omega (arith, h))
none_higher (suc (suc (suc zero))) h = refl
none_higher (suc (suc (suc (suc k)))) h = refl

resolve_band_index-IsSettled_example :
    IsSettled (pos 1450) (some 2) default_demand_bands (pos 100) 3 chosen
resolve_band_index-IsSettled_example =
    resolve_band_index-IsSettled (pos 1450) (some 2) default_demand_bands (pos 100) 3 (omega arith)

-- The ratio has crossed the floor of 1.5, and no flicker follows.
resolve_band_index-stays_example :
    resolve_band_index (pos 1450) (some 2) default_demand_bands (pos 100) ≡ 2
resolve_band_index-stays_example =
    resolve_band_index-stays (pos 1450) (pos 100) default_demand_bands 2 kept_at none_higher

abbrev configured : List DemandBand
configured =
    record { above = some (pos 2000); multiplier = 1500 }
    ∷ record { above = some (pos 900); multiplier = 800 }
    ∷ record { above = some (pos 1000); multiplier = 1200 }
    ∷ []

normalize_bands-IsNormal_example :
    (starts_low (normalize_bands configured) ≡ true)
    × IsSorted (normalize_bands configured)
    × All NeverLowers (normalize_bands configured)
normalize_bands-IsNormal_example = normalize_bands-IsNormal configured
