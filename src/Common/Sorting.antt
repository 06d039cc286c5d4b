-- ===== src/Common/Sorting.antt =====
-- `Array.prototype.sort`, as the services use it.
use transport_api.Common.{Bool, List, [], if◌then◌else◌, ◌∷◌}

-- `Array.prototype.sort`, which is stable, by a comparison that is not positive.
module _ {A : Type 0} (not_after : A → A → Bool) where
  abbrev pub insert_sorted : A → List A → List A
  insert_sorted x [] = x ∷ []
  insert_sorted x (y ∷ ys) =
      let rest = insert_sorted x ys in if not_after x y then x ∷ y ∷ ys else y ∷ rest

  abbrev pub sort : List A → List A
  sort [] = []
  sort (x ∷ xs) = insert_sorted x (sort xs)
