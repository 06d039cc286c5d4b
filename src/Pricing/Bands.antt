-- ===== src/Pricing/Bands.antt =====
-- src/modules/transport/pricing/demand-bands.ts. Ratios and floors are counted in a fixed unit, and
-- multipliers in thousandths; `none` is the floor that lies below every ratio.
pub mod Descent
pub mod Hysteresis
pub mod Normal
use transport_api.Common.{
  Bool, List, Option, [], false, if◌then◌else◌, is_none, leb, length, ltb, min, none, not, select,
  some, suc, true, zero, ℕ, ◌&&◌, ◌-◌, ◌==◌, ◌∷◌,
}
use transport_api.Common.Int.{lt_ℤ, pos, ℤ, ◌-ℤ◌}

pub record DemandBand : Type 0 where
  pub above : Option ℤ
  pub multiplier : ℕ

-- `ratio > band.above`
abbrev pub is_over : ℤ → DemandBand → Bool
is_over ratio b = elim b.above [ none ↦ true | some floor ↦ lt_ℤ floor ratio ]

-- `bands.forEach`: the last band that the ratio is over.
unfoldable pub target_from : ℤ → ℕ → ℕ → List DemandBand → ℕ
target_from ratio index target [] = target
target_from ratio index target (b ∷ bs) =
    target_from ratio (suc index) (if is_over ratio b then index else target) bs

abbrev pub band_at : ℕ → List DemandBand → Option DemandBand
band_at n [] = none
band_at zero (b ∷ bs) = some b
band_at (suc n) (b ∷ bs) = band_at n bs

-- `ratio <= bands[index].above - hysteresis`
unfoldable pub has_fallen : ℤ → ℤ → List DemandBand → ℕ → Bool
has_fallen ratio hysteresis bands index = elim (band_at index bands) [
  | none ↦ false
  | some b ↦ elim b.above [ none ↦ false | some floor ↦ not (lt_ℤ (floor -ℤ hysteresis) ratio) ]
]

-- The loop that steps down.
unfoldable pub step_down : ℤ → ℤ → List DemandBand → ℕ → ℕ → ℕ
step_down ratio hysteresis bands target zero = zero
step_down ratio hysteresis bands target (suc index) =
    if ltb target (suc index) && has_fallen ratio hysteresis bands (suc index)
    then step_down ratio hysteresis bands target index
    else suc index

-- `resolveBandIndex`; `normalizeBands` gives at least one band.
unfoldable pub resolve_band_index : ℤ → Option ℕ → List DemandBand → ℤ → ℕ
resolve_band_index ratio previous bands hysteresis =
    let target = target_from ratio 0 0 bands in
    elim previous [
      | none ↦ target
      | some index ↦
          if leb index target
          then target
          else step_down ratio hysteresis bands target (min index (length bands - 1))
    ]

-- The order of `sort((a, b) => a.above - b.above)`, which is stable.
abbrev pub is_lower : DemandBand → DemandBand → Bool
is_lower a b = elim a.above [
  | none ↦ elim b.above [ none ↦ false | some _ ↦ true ]
  | some x ↦ elim b.above [ none ↦ false | some y ↦ lt_ℤ x y ]
]

unfoldable pub insert_band : DemandBand → List DemandBand → List DemandBand
insert_band a [] = a ∷ []
insert_band a (b ∷ bs) = if is_lower b a then b ∷ insert_band a bs else a ∷ b ∷ bs

unfoldable pub sort_bands : List DemandBand → List DemandBand
sort_bands [] = []
sort_bands (b ∷ bs) = insert_band b (sort_bands bs)

abbrev pub catch_all : DemandBand
catch_all = record { above = none; multiplier = 1000 }

-- `DEFAULT_DEMAND_BANDS`, with the ratio in thousandths
abbrev pub default_demand_bands : List DemandBand
default_demand_bands =
    catch_all
    ∷ record { above = some (pos 1000); multiplier = 1100 }
    ∷ record { above = some (pos 1500); multiplier = 1200 }
    ∷ record { above = some (pos 2000); multiplier = 1350 }
    ∷ []

abbrev pub with_catch_all : List DemandBand → List DemandBand
with_catch_all [] = []
with_catch_all (b ∷ bs) = if is_none b.above then b ∷ bs else catch_all ∷ b ∷ bs

-- `normalizeBands`; in a fixed unit every number is finite.
unfoldable pub normalize_bands : List DemandBand → List DemandBand
normalize_bands bands =
    let valid = select (λ (b : DemandBand). leb 1000 b.multiplier) bands in
    if length valid == 0 then default_demand_bands else with_catch_all (sort_bands valid)
