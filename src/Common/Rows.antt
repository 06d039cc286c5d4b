-- ===== src/Common/Rows.antt =====
-- A table is the list of its rows, newest first. These are the queries of the database client
-- that the handlers use, with `where` as a Boolean test.
use Prim.Native.Nat.{ℕ, suc, ◌+◌}
use mathlib.Core.Path.{◌≡◌, refl, sym, ap, subst}
use mathlib.Core.Bool.{Bool, true, false, not, ◌||◌, ◌&&◌}
use mathlib.Core.Option.{Option, none, some}
use mathlib.Core.Option
use mathlib.Core.List.{List, [], ◌∷◌, ◌++◌, reverse, reverse-append}
use native.Mathlib.Omega.{arith}
use transport_api.Common.Tests.{if◌then◌else◌}

module _ {ℓ} {A : Type ℓ} where
  abbrev pub length : List A → ℕ
  length [] = 0
  length (_ ∷ xs) = suc (length xs)

  -- `findMany`
  abbrev pub select : (A → Bool) → List A → List A
  select p [] = []
  select p (x ∷ xs) = if p x then x ∷ select p xs else select p xs

  -- `findFirst` by newest row first, and `findUnique`
  abbrev pub find_first : (A → Bool) → List A → Option A
  find_first p [] = none
  find_first p (x ∷ xs) = if p x then some x else find_first p xs

  -- a relation filter `some`; `none` is its negation
  abbrev pub any : (A → Bool) → List A → Bool
  any p [] = false
  any p (x ∷ xs) = p x || any p xs

  -- the rows that `updateMany` reports
  abbrev pub count_where : (A → Bool) → List A → ℕ
  count_where p [] = 0
  count_where p (x ∷ xs) = (if p x then 1 else 0) + count_where p xs

  -- `updateMany`, and `update` by the id
  abbrev pub update_where : (A → Bool) → (A → A) → List A → List A
  update_where p f [] = []
  update_where p f (x ∷ xs) = (if p x then f x else x) ∷ update_where p f xs

  abbrev pub sum_by : (A → ℕ) → List A → ℕ
  sum_by f [] = 0
  sum_by f (x ∷ xs) = f x + sum_by f xs

  abbrev pub sum_where : (A → Bool) → (A → ℕ) → List A → ℕ
  sum_where p f [] = 0
  sum_where p f (x ∷ xs) = (if p x then f x else 0) + sum_where p f xs

  abbrev pub All {κ} : (A → Type κ) → List A → Type κ
  All P [] = Unit
  All P (x ∷ xs) = P x × All P xs

  pub sum_by-append : (f : A → ℕ) (xs ys : List A) → sum_by f (xs ++ ys) ≡ sum_by f xs + sum_by f ys
  sum_by-append f [] ys = omega arith
  sum_by-append f (x ∷ xs) ys = omega (arith, sum_by-append f xs ys)

  pub sum_by-reverse : (f : A → ℕ) (xs : List A) → sum_by f (reverse xs) ≡ sum_by f xs
  sum_by-reverse f [] = refl
  sum_by-reverse f (x ∷ xs) =
      let e : sum_by f (reverse (x ∷ xs)) ≡ sum_by f (reverse xs ++ x ∷ []) =
        ap (sum_by f) (reverse-append (x ∷ []) xs) in
      omega (arith, e, sum_by-append f (reverse xs) (x ∷ []), sum_by-reverse f xs)

  pub sum_by-select :
      (p : A → Bool) (f : A → ℕ) (xs : List A) → sum_by f (select p xs) ≡ sum_where p f xs
  sum_by-select p f [] = refl
  sum_by-select p f (x ∷ xs) = ground (arith, sum_by-select p f xs)

  -- After an update, a row that satisfies `q` was not touched and satisfied it already.
  pub any-update_where :
      (p q : A → Bool) (f : A → A) (xs : List A)
      → ((x : A) → p x ≡ true → q (f x) ≡ false)
      → ((x : A) → q x ≡ true → p x ≡ true)
      → any q (update_where p f xs) ≡ false
  any-update_where p q f [] off only = refl
  any-update_where p q f (x ∷ xs) off only =
      ground (arith, off x, only x, any-update_where p q f xs off only)

  -- A query on what the update leaves alone finds the same row, updated.
  pub find_first-update_where :
      (p q : A → Bool) (f : A → A) (xs : List A)
      → ((x : A) → q (f x) ≡ q x)
      → find_first q (update_where p f xs)
        ≡ Option.map (λ x. if p x then f x else x) (find_first q xs)
  find_first-update_where p q f [] keep = refl
  find_first-update_where p q f (x ∷ xs) keep =
      ground (arith, keep x, find_first-update_where p q f xs keep)

  pub any-congr : (p q : A → Bool) (xs : List A) → ((x : A) → p x ≡ q x) → any p xs ≡ any q xs
  any-congr p q [] e = refl
  any-congr p q (x ∷ xs) e = ground (arith, e x, any-congr p q xs e)

  -- An update that does not reach a test leaves the count of that test as it is.
  pub sum_where-update_where :
      (p q : A → Bool) (f : A → A) (g : A → ℕ) (xs : List A)
      → ((x : A) → p x ≡ true → (if q (f x) then g (f x) else 0) ≡ (if q x then g x else 0))
      → sum_where q g (update_where p f xs) ≡ sum_where q g xs
  sum_where-update_where p q f g [] keep = refl
  sum_where-update_where p q f g (x ∷ xs) keep =
      ground (arith, keep x, sum_where-update_where p q f g xs keep)

module _ {ℓ κ} {A : Type ℓ} where
  pub All-select :
      (P Q : A → Type κ) (p : A → Bool) (xs : List A)
      → ((x : A) → P x → p x ≡ true → Q x)
      → All P xs
      → All Q (select p xs)
  All-select P Q p [] h t = t
  All-select P Q p (x ∷ xs) h t = go (p x) refl (All-select P Q p xs h t.1)
    where
      go :
          (b : Bool)
          → p x ≡ b
          → All Q (select p xs)
          → All Q (if b then x ∷ select p xs else select p xs)
      go true e rest = (h x t.0 e, rest)
      go false e rest = rest

  pub All-append : (P : A → Type κ) (xs ys : List A) → All P xs → All P ys → All P (xs ++ ys)
  All-append P [] ys h k = k
  All-append P (x ∷ xs) ys h k = (h.0, All-append P xs ys h.1 k)

  pub All-reverse : (P : A → Type κ) (xs : List A) → All P xs → All P (reverse xs)
  All-reverse P [] h = h
  All-reverse P (x ∷ xs) h =
      subst (All P) (sym (reverse-append (x ∷ []) xs))
        (All-append P (reverse xs) (x ∷ []) (All-reverse P xs h.1) (h.0, tt))

  pub All-update_where :
      (P : A → Type κ) (p : A → Bool) (f : A → A) (xs : List A)
      → ((x : A) → P x → P (f x))
      → All P xs
      → All P (update_where p f xs)
  All-update_where P p f [] h t = t
  All-update_where P p f (x ∷ xs) h t = (go (p x), All-update_where P p f xs h t.1)
    where
      go : (b : Bool) → P (if b then f x else x)
      go true = h x t.0
      go false = t.0

module _ {ℓ} {A : Type ℓ} where
  -- An update that makes no row satisfy `q` anew keeps `q` empty.
  pub any-update_where_keep :
      (p q : A → Bool) (f : A → A) (xs : List A)
      → ((x : A) → q x ≡ false → q (f x) ≡ false)
      → any q xs ≡ false
      → any q (update_where p f xs) ≡ false
  any-update_where_keep p q f [] keep none_yet = refl
  any-update_where_keep p q f (x ∷ xs) keep none_yet =
      ground (arith, keep x, any-update_where_keep p q f xs keep)

  -- A row that no test reaches is not counted.
  pub count_where-zero :
      (p : A → Bool) (xs : List A) → All (λ x. p x ≡ false) xs → count_where p xs ≡ 0
  count_where-zero p [] h = refl
  count_where-zero p (x ∷ xs) h = ground (arith, count_where-zero p xs h.1)

  pub any_of_count : (p : A → Bool) (xs : List A) → count_where p xs ≡ 1 → any p xs ≡ true
  any_of_count p [] h = absurd (omega arith)
  any_of_count p (x ∷ xs) h = ground (arith, any_of_count p xs)

module _ {ℓ} {A : Type ℓ} where
  pub any-update_where_step :
      (p q q' : A → Bool) (f : A → A) (xs : List A)
      → ((x : A) → q x ≡ false → q' (if p x then f x else x) ≡ false)
      → any q xs ≡ false
      → any q' (update_where p f xs) ≡ false
  any-update_where_step p q q' f [] step none_yet = refl
  any-update_where_step p q q' f (x ∷ xs) step none_yet =
      ground (arith, step x, any-update_where_step p q q' f xs step)

  any-select-cons :
      (p r : A → Bool) (x : A) (xs : List A)
      → any r (select p xs) ≡ true
      → any r (select p (x ∷ xs)) ≡ true
  any-select-cons p r x xs h = ground arith

  selected_in :
      (p : A → Bool) (same : A → A → Bool) (found xs : List A)
      → ((x : A) → same x x ≡ true)
      → ((y : A) → any (same y) (select p xs) ≡ true → any (same y) found ≡ true)
      → any (λ x. p x && not (any (same x) found)) xs ≡ false
  selected_in p same found [] same_refl among = refl
  selected_in p same found (x ∷ xs) same_refl among = ground (
    arith,
    same_refl x,
    among x,
    selected_in p same found xs same_refl (λ y h. among y (any-select-cons p (same y) x xs h)),
  )

  -- Every row that satisfies `p` is met, up to `same`, among those selected.
  pub any_unselected :
      (p : A → Bool) (same : A → A → Bool) (xs : List A)
      → ((x : A) → same x x ≡ true)
      → any (λ x. p x && not (any (same x) (select p xs))) xs ≡ false
  any_unselected p same xs same_refl = selected_in p same (select p xs) xs same_refl (λ y h. h)

  pub find_first_sound :
      (p : A → Bool) (xs : List A) (y : A) → find_first p xs ≡ some y → p y ≡ true
  find_first_sound p [] y h = cc
  find_first_sound p (x ∷ xs) y h = ground (arith, find_first_sound p xs y)

  pub count_where-update_where :
      (p : A → Bool) (f : A → A) (xs : List A)
      → ((x : A) → p x ≡ true → p (f x) ≡ false)
      → count_where p (update_where p f xs) ≡ 0
  count_where-update_where p f [] off = refl
  count_where-update_where p f (x ∷ xs) off =
      ground (arith, off x, count_where-update_where p f xs off)
