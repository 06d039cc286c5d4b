-- ===== src/Pricing/Bands/Normal.antt =====
-- src/modules/transport/pricing/demand-bands.ts, `normalizeBands`: the bands that come out of
-- whatever is configured.
use transport_api.Common.{
  All, All-map, Bool, List, [], ap, arith, false, if◌then◌else◌, is_none, leb, length, refl, select,
  suc, true, ◌<◌, ◌==◌, ◌∙◌, ◌∷◌, ◌≡◌, ◌≤◌,
}
use transport_api.Pricing.Bands.{
  DemandBand, catch_all, default_demand_bands, insert_band, is_lower, normalize_bands, sort_bands,
  with_catch_all,
}

abbrev pub NeverLowers : DemandBand → Type 0
NeverLowers b = 1000 ≤ b.multiplier

-- Each floor is at most the next one.
abbrev pub IsSorted : List DemandBand → Type 0
IsSorted [] = Unit
IsSorted (a ∷ bs) = All (λ b. is_lower b a ≡ false) bs × IsSorted bs

insert_band-All :
    (P : DemandBand → Type 0) (a : DemandBand) (bs : List DemandBand)
    → P a
    → All P bs
    → All P (insert_band a bs)
unfolding insert_band
insert_band-All P a [] h t = (h, tt)
insert_band-All P a (b ∷ bs) h t = pick (is_lower b a) (insert_band-All P a bs h t.1)
  where
    pick :
        (c : Bool)
        → All P (insert_band a bs)
        → All P (if c then b ∷ insert_band a bs else a ∷ b ∷ bs)
    pick true rest = (t.0, rest)
    pick false rest = (h, t)

is_lower_trans :
    (a b c : DemandBand) → is_lower b a ≡ false → is_lower c b ≡ false → is_lower c a ≡ false
is_lower_trans a b c h k = ground arith

is_lower_asym : (a b : DemandBand) → is_lower b a ≡ true → is_lower a b ≡ false
is_lower_asym a b h = ground arith

insert_band-IsSorted :
    (a : DemandBand) (bs : List DemandBand) → IsSorted bs → IsSorted (insert_band a bs)
unfolding insert_band
insert_band-IsSorted a [] h = (tt, tt)
insert_band-IsSorted a (b ∷ bs) h = pick (is_lower b a) refl (insert_band-IsSorted a bs h.1)
  where
    pick :
        (c : Bool)
        → is_lower b a ≡ c
        → IsSorted (insert_band a bs)
        → IsSorted (if c then b ∷ insert_band a bs else a ∷ b ∷ bs)
    pick true e rest =
        (insert_band-All (λ x. is_lower x b ≡ false) a bs (is_lower_asym a b e) h.0, rest)
    pick false e rest = (
      (
        e,
        All-map (λ x. is_lower x b ≡ false) (λ x. is_lower x a ≡ false) bs
            (λ x k. is_lower_trans a b x e k) h.0,
      ),
      h,
    )

sort_bands-IsSorted :
    (bs : List DemandBand)
    → All NeverLowers bs
    → IsSorted (sort_bands bs) × All NeverLowers (sort_bands bs)
unfolding sort_bands
sort_bands-IsSorted [] h = (tt, tt)
sort_bands-IsSorted (b ∷ bs) h =
    let rest = sort_bands-IsSorted bs h.1 in
    (
      insert_band-IsSorted b (sort_bands bs) rest.0,
      insert_band-All NeverLowers b (sort_bands bs) h.0 rest.1,
    )

valid-NeverLowers :
    (bs : List DemandBand) → All NeverLowers (select (λ (b : DemandBand). leb 1000 b.multiplier) bs)
valid-NeverLowers [] = tt
valid-NeverLowers (b ∷ bs) = pick (leb 1000 b.multiplier) refl (valid-NeverLowers bs)
  where
    pick :
        (c : Bool)
        → leb 1000 b.multiplier ≡ c
        → All NeverLowers (select (λ (b : DemandBand). leb 1000 b.multiplier) bs)
        → All NeverLowers (
            if c
            then b ∷ select (λ (b : DemandBand). leb 1000 b.multiplier) bs
            else select (λ (b : DemandBand). leb 1000 b.multiplier) bs)
    pick true e rest = (ground arith, rest)
    pick false e rest = rest

abbrev pub starts_low : List DemandBand → Bool
starts_low [] = false
starts_low (b ∷ bs) = is_none b.above

abbrev pub IsNormal : List DemandBand → Type 0
IsNormal bs = (starts_low bs ≡ true) × IsSorted bs × All NeverLowers bs

over_catch_all : (bs : List DemandBand) → All (λ b. is_lower b catch_all ≡ false) bs
over_catch_all [] = tt
over_catch_all (b ∷ bs) = (ground arith, over_catch_all bs)

with_catch_all-IsNormal :
    (bs : List DemandBand)
    → 0 < length bs
    → IsSorted bs
    → All NeverLowers bs
    → IsNormal (with_catch_all bs)
with_catch_all-IsNormal [] some_band sorted valid = absurd (omega (arith, some_band))
with_catch_all-IsNormal (b ∷ bs) some_band sorted valid = pick (is_none b.above) refl
  where
    pick : (c : Bool) → is_none b.above ≡ c → IsNormal (if c then b ∷ bs else catch_all ∷ b ∷ bs)
    pick true e = (e, sorted, valid)
    pick false e = (refl, (over_catch_all (b ∷ bs), sorted), (omega arith, valid))

length-insert_band :
    (a : DemandBand) (bs : List DemandBand) → length (insert_band a bs) ≡ suc (length bs)
unfolding insert_band
length-insert_band a [] = refl
length-insert_band a (b ∷ bs) = ground (arith, length-insert_band a bs)

length-sort_bands : (bs : List DemandBand) → length (sort_bands bs) ≡ length bs
unfolding sort_bands
length-sort_bands [] = refl
length-sort_bands (b ∷ bs) = length-insert_band b (sort_bands bs) ∙ ap suc (length-sort_bands bs)

default-IsNormal : IsNormal default_demand_bands
default-IsNormal = (
  refl,
  ((refl, (refl, (refl, tt))), ((refl, (refl, tt)), ((refl, tt), (tt, tt)))),
  (omega arith, (omega arith, (omega arith, (omega arith, tt)))),
)

-- Whatever bands are configured, the normalised ones start with a floor below every ratio, are in
-- the order of their floors, and have no multiplier below 1.
pub normalize_bands-IsNormal :
    (bands : List DemandBand)
    → (starts_low (normalize_bands bands) ≡ true)
      × IsSorted (normalize_bands bands)
      × All NeverLowers (normalize_bands bands)
unfolding normalize_bands
normalize_bands-IsNormal bands =
    let valid = select (λ (b : DemandBand). leb 1000 b.multiplier) bands in
    let (sorted, fair) = sort_bands-IsSorted valid (valid-NeverLowers bands) in
    pick (length valid == 0) refl (λ some_band.
      with_catch_all-IsNormal (sort_bands valid) (omega (arith, some_band, length-sort_bands valid))
        sorted fair)
  where
    pick :
        (c : Bool)
        → (length (select (λ (b : DemandBand). leb 1000 b.multiplier) bands) == 0) ≡ c
        → (0 < length (select (λ (b : DemandBand). leb 1000 b.multiplier) bands)
            → IsNormal (
                with_catch_all
                  (sort_bands (select (λ (b : DemandBand). leb 1000 b.multiplier) bands))))
        → IsNormal (
            if c
            then default_demand_bands
            else with_catch_all
                (sort_bands (select (λ (b : DemandBand). leb 1000 b.multiplier) bands)))
    pick true e rest = default-IsNormal
    pick false e rest = rest (ground arith)
