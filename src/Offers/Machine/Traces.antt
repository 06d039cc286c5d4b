-- ===== src/Offers/Machine/Traces.antt =====
-- src/modules/operations/offers/offers.service.ts: what the moves of the machine keep, offer by offer and
-- order by order.
use transport_api.Common.{
  ==_iff, All, All-map, Bool, Bool-cases, List, [], any, arith, count_where, false, if◌then◌else◌,
  inl, inr, refl, subst, true, update_where, ℕ, ◌&&◌, ◌==◌, ◌∷◌, ◌≡◌, ◌≤◌,
}
use transport_api.Offers.{Matching, is_pending_for}
use transport_api.Offers.Machine.{
  Life, Life-refl, Life-trans, Moves, and_then, answer-Life, answer_offer, answered, idle,
  link-Life, link_offer, linked, opened, pick_shut, recorded,
}
use transport_api.Orders.Closing.{is_pending_offer}
use transport_api.World.{DriverOffer}

-- The offer, or what became of it, is in the table.
pub data Traced (o : DriverOffer) : List DriverOffer → Type 0 where
  at_head : {o' : DriverOffer} {xs : List DriverOffer} → Life o o' → Traced o (o' ∷ xs)
  in_tail : {o' : DriverOffer} {xs : List DriverOffer} → Traced o xs → Traced o (o' ∷ xs)

Traced-trans :
    (a : DriverOffer) {ys zs : List DriverOffer}
    → Traced a ys
    → All (λ y. Traced y zs) ys
    → Traced a zs
Traced-trans a (at_head life) t = follow a life t.0
  where
    follow :
        (a : DriverOffer) {b : DriverOffer} {zs : List DriverOffer}
        → Life a b
        → Traced b zs
        → Traced a zs
    follow a {b} f (at_head {o' = c} g) = at_head (Life-trans a b c f g)
    follow a f (in_tail t) = in_tail (follow a f t)
Traced-trans a (in_tail t) ts = Traced-trans a t ts.1

All-in_tail :
    (o : DriverOffer) (ys xs : List DriverOffer)
    → All (λ x. Traced x ys) xs
    → All (λ x. Traced x (o ∷ ys)) xs
All-in_tail o ys xs = All-map (λ x. Traced x ys) (λ x. Traced x (o ∷ ys)) xs (λ x t. in_tail t)

All-self : (xs : List DriverOffer) → All (λ x. Traced x xs) xs
All-self [] = tt
All-self (x ∷ xs) = (at_head (Life-refl x), All-in_tail x xs xs (All-self xs))

All-changed :
    (p : DriverOffer → Bool) (f : DriverOffer → DriverOffer)
    → ((o : DriverOffer) → p o ≡ true → Life o (f o))
    → (xs : List DriverOffer) → All (λ x. Traced x (update_where p f xs)) xs
All-changed p f lives [] = tt
All-changed p f lives (x ∷ xs) =
    (at_head (go (p x) refl), All-in_tail _ (update_where p f xs) xs (All-changed p f lives xs))
  where
    go : (b : Bool) → p x ≡ b → Life x (if b then f x else x)
    go true e = lives x e
    go false e = Life-refl x

-- Every offer is traced through the moves.
pub Moves-Traced :
    {matching : Matching} {xs ys : List DriverOffer}
    → Moves matching xs ys
    → All (λ x. Traced x ys) xs
Moves-Traced (idle {xs}) = All-self xs
Moves-Traced (answered {xs} now id a p may) =
    All-changed p (answer_offer now a) (λ o hit. answer-Life now a o (may o hit).1) xs
Moves-Traced (linked {xs} id assignment_id) =
    All-changed (λ (o : DriverOffer). o.id == id) (link_offer assignment_id)
      (λ o hit. link-Life assignment_id o) xs
Moves-Traced (opened {xs} o fresh choice free) = All-in_tail o xs xs (All-self xs)
Moves-Traced (recorded {xs} o pick) = All-in_tail o xs xs (All-self xs)
Moves-Traced (and_then {xs} {ys} {zs} m n) =
    All-map (λ x. Traced x ys) (λ x. Traced x zs) xs (λ x t. Traced-trans x t (Moves-Traced n))
      (Moves-Traced m)

-- No order has two pending offers.
abbrev pub HasOneHolder : List DriverOffer → Type 0
HasOneHolder xs = (order_id : ℕ) → count_where (is_pending_for order_id) xs ≤ 1

none_pending :
    (p : DriverOffer → Bool) (xs : List DriverOffer) → any p xs ≡ false → count_where p xs ≡ 0
none_pending p [] h = refl
none_pending p (x ∷ xs) h = ground (arith, none_pending p xs)

opened-HasOneHolder :
    (o : DriverOffer) (xs : List DriverOffer)
    → any (is_pending_for o.order_id) xs ≡ false
    → HasOneHolder xs
    → HasOneHolder (o ∷ xs)
opened-HasOneHolder o xs free one k = elim (Bool-cases (o.order_id == k)) [
  | inr other ↦ ground (arith, one k)
  | inl same ↦
      let zero_here : count_where (is_pending_for k) xs ≡ 0 =
        subst (λ j. count_where (is_pending_for j) xs ≡ 0) ((==_iff o.order_id k).0 same)
          (none_pending (is_pending_for o.order_id) xs free) in
      ground (arith, zero_here)
]

Life-pending :
    (k : ℕ) (o o' : DriverOffer)
    → Life o o'
    → is_pending_for k o' ≡ true
    → is_pending_for k o ≡ true
Life-pending k o o' life pending = elim life.status [
  | inl e ↦
      subst (λ s. ((o.order_id == k) && is_pending_offer s) ≡ true) e
        (subst (λ j. ((j == k) && is_pending_offer o'.status) ≡ true) life.order_id pending)
  | inr (was, shut) ↦ absurd (ground arith)
]

changed-HasOneHolder :
    (p : DriverOffer → Bool) (f : DriverOffer → DriverOffer)
    → ((o : DriverOffer) → p o ≡ true → Life o (f o))
    → (k : ℕ) (xs : List DriverOffer)
    → count_where (is_pending_for k) (update_where p f xs) ≤ count_where (is_pending_for k) xs
changed-HasOneHolder p f lives k [] = omega arith
changed-HasOneHolder p f lives k (x ∷ xs) =
    let rest = changed-HasOneHolder p f lives k xs in
    elim (Bool-cases (p x)) [
      | inl hit ↦ ground (arith, rest, Life-pending k x (f x) (lives x hit))
      | inr miss ↦ ground (arith, rest)
    ]

pub Moves-HasOneHolder :
    {matching : Matching} {xs ys : List DriverOffer}
    → Moves matching xs ys
    → HasOneHolder xs
    → HasOneHolder ys
Moves-HasOneHolder idle one = one
Moves-HasOneHolder (answered {xs} now id a p may) one = λ k. omega (
  arith,
  one k,
  changed-HasOneHolder p (answer_offer now a) (λ o hit. answer-Life now a o (may o hit).1) k xs,
)
Moves-HasOneHolder (linked {xs} id assignment_id) one = λ k. omega (
  arith,
  one k,
  changed-HasOneHolder (λ (o : DriverOffer). o.id == id) (link_offer assignment_id)
      (λ o hit. link-Life assignment_id o) k xs,
)
Moves-HasOneHolder (opened {xs} o fresh choice free) one = opened-HasOneHolder o xs free one
Moves-HasOneHolder (recorded o pick) one = λ k. ground (arith, one k, pick_shut o pick)
Moves-HasOneHolder (and_then m n) one = Moves-HasOneHolder n (Moves-HasOneHolder m one)
