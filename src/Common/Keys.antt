-- ===== src/Common/Keys.antt =====
-- What holds of every row of a table, and rows with a primary key: no two of them have the same one.
use mathlib.Core.Path.{◌≡◌, refl, sym, ap, subst}
use mathlib.Core.Bool.{Bool, true, false}
use mathlib.Core.Option.{some, some-injective, none-ne-some}
use mathlib.Core.List.{List, [], ◌∷◌}
use Prim.Native.Nat.{ℕ}
use native.Mathlib.Omega.{arith}
use transport_api.Common.Tests.{if◌then◌else◌, ◌==◌}
use transport_api.Common.Rows.{All, All-update_where, find_first, update_where}

module _ {ℓ} {A : Type ℓ} where
  pub All-map {κ κ'} :
      (P : A → Type κ) (Q : A → Type κ') (xs : List A) → ((x : A) → P x → Q x) → All P xs → All Q xs
  All-map P Q [] h t = tt
  All-map P Q (x ∷ xs) h t = (h x t.0, All-map P Q xs h t.1)

  pub All-found :
      (P : A → Type 0) (p : A → Bool) (xs : List A) (x : A)
      → All P xs
      → find_first p xs ≡ some x
      → P x
  All-found P p [] x t h = absurd (none-ne-some x h)
  All-found P p (y ∷ ys) x t h = go (p y) h (All-found P p ys x t.1)
    where
      go :
          (b : Bool)
          → (if b then some y else find_first p ys) ≡ some x
          → (find_first p ys ≡ some x → P x)
          → P x
      go true e rest = subst P (some-injective y x e) t.0
      go false e rest = rest e

  -- An update keeps what holds of every row, given what else is known of the rows that it moves.
  pub All-update_where_given :
      (P Q : A → Type 0) (p : A → Bool) (f : A → A) (xs : List A)
      → ((x : A) → P x → Q x → p x ≡ true → P (f x))
      → All P xs
      → All Q xs
      → All P (update_where p f xs)
  All-update_where_given P Q p f [] h t k = t
  All-update_where_given P Q p f (x ∷ xs) h t k =
      (go (p x) refl, All-update_where_given P Q p f xs h t.1 k.1)
    where
      go : (b : Bool) → p x ≡ b → P (if b then f x else x)
      go true e = h x t.0 k.0 e
      go false e = t.0

  pub All-updated :
      (P : A → Type 0) (p : A → Bool) (f : A → A) (xs : List A)
      → ((x : A) → P (if p x then f x else x))
      → All P (update_where p f xs)
  All-updated P p f [] h = tt
  All-updated P p f (x ∷ xs) h = (h x, All-updated P p f xs h)

module _ {ℓ} {A : Type ℓ} (key : A → ℕ) where
  abbrev pub Distinct : List A → Type 0
  Distinct [] = Unit
  Distinct (x ∷ xs) = All (λ y. (key y == key x) ≡ false) xs × Distinct xs

  pub Distinct-update_where :
      (p : A → Bool) (f : A → A) (xs : List A)
      → ((x : A) → key (f x) ≡ key x)
      → Distinct xs
      → Distinct (update_where p f xs)
  Distinct-update_where p f [] same d = d
  Distinct-update_where p f (x ∷ xs) same d =
      let apart : All (λ y. (key y == key x) ≡ false) (update_where p f xs) =
        All-update_where (λ y. (key y == key x) ≡ false) p f xs
          (λ y off. subst (λ k. (k == key x) ≡ false) (sym (same y)) off) d.0 in
      (
        subst (λ k. All (λ y. (key y == k) ≡ false) (update_where p f xs)) (sym (kept (p x))) apart,
        Distinct-update_where p f xs same d.1,
      )
    where
      kept : (b : Bool) → key (if b then f x else x) ≡ key x
      kept true = same x
      kept false = refl

  -- A row with the key of the row that was found is that row.
  pub found_agrees :
      (p : A → Bool) (xs : List A) (x : A)
      → Distinct xs
      → find_first p xs ≡ some x
      → All (λ y. (key y == key x) ≡ true → y ≡ x) xs
  found_agrees p [] x d h = tt
  found_agrees p (y ∷ ys) x d h = go (p y) h (found_agrees p ys x d.1)
    where
      go :
          (b : Bool)
          → (if b then some y else find_first p ys) ≡ some x
          → (find_first p ys ≡ some x → All (λ z. (key z == key x) ≡ true → z ≡ x) ys)
          → All (λ z. (key z == key x) ≡ true → z ≡ x) (y ∷ ys)
      go true e rest =
          let here = some-injective y x e in
          (
            (λ _. here),
            All-map (λ z. (key z == key y) ≡ false) (λ z. (key z == key x) ≡ true → z ≡ x) ys
                (λ z off same. absurd (ground (arith, ap key here))) d.0,
          )
      go false e rest =
          let off = All-found (λ z. (key z == key y) ≡ false) p ys x d.0 e in
          ((λ same. absurd (ground arith)), rest e)
