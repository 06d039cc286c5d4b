-- ===== src/Offers/Machine.antt =====
-- src/modules/operations/offers/offers.service.ts: the offers as an abstract machine. A step
-- answers a pending offer, links one to its assignment, opens one for an order that has none open,
-- or records an operator's pick.
pub mod Traces
use transport_api.Common.{
  Bool, List, any, ap, arith, false, inl, inr, leb, ltb, map, none, refl, select, some, subst, sym,
  true, update_where, ℕ, ◌&&◌, ◌==◌, ◌∙◌, ◌∷◌, ◌≡◌, ◌⊎◌,
}
use transport_api.Common.Action.{ok}
use transport_api.Domain.{OfferMode, OfferStatus}
use transport_api.Offers.{Matching, MatchingResult, RankedCandidate, best_candidate, is_pending_for}
use transport_api.Orders.Closing.{is_pending_offer}
use transport_api.World.{DriverOffer, World}

-- What a step does to one offer: it stays what it is about, and its status changes at most once.
pub record Life (o o' : DriverOffer) : Type 0 where
  pub id : o'.id ≡ o.id
  pub order_id : o'.order_id ≡ o.order_id
  pub driver_id : o'.driver_id ≡ o.driver_id
  pub status :
      (o'.status ≡ o.status)
      ⊎ ((is_pending_offer o.status ≡ true) × (is_pending_offer o'.status ≡ false))

pub Life-refl : (o : DriverOffer) → Life o o
Life-refl o = record { id = refl; order_id = refl; driver_id = refl; status = inl refl }

status_trans :
    (a b c : OfferStatus)
    → (b ≡ a) ⊎ ((is_pending_offer a ≡ true) × (is_pending_offer b ≡ false))
    → (c ≡ b) ⊎ ((is_pending_offer b ≡ true) × (is_pending_offer c ≡ false))
    → (c ≡ a) ⊎ ((is_pending_offer a ≡ true) × (is_pending_offer c ≡ false))
status_trans a b c (inl e) (inl e') = inl (e' ∙ e)
status_trans a b c (inl e) (inr (open_b, shut_c)) =
    inr (subst (λ s. is_pending_offer s ≡ true) e open_b, shut_c)
status_trans a b c (inr (open_a, shut_b)) (inl e') =
    inr (open_a, subst (λ s. is_pending_offer s ≡ false) (sym e') shut_b)
status_trans a b c (inr (open_a, shut_b)) (inr (open_b, shut_c)) = inr (open_a, shut_c)

pub Life-trans : (a b c : DriverOffer) → Life a b → Life b c → Life a c
Life-trans a b c f g = record {
  id = g.id ∙ f.id;
  order_id = g.order_id ∙ f.order_id;
  driver_id = g.driver_id ∙ f.driver_id;
  status = status_trans a.status b.status c.status f.status g.status;
}

-- How a pending offer ends; an acceptance and a refusal are by a user.
pub data Answer : Type 0 where
  accepts rejects : ℕ → Answer
  expires cancels : Answer

-- The deadline lies ahead, or has come.
abbrev pub is_in_time : ℕ → DriverOffer → Bool
is_in_time now o = elim o.expires_at [ none ↦ false | some at ↦ ltb now at ]

abbrev pub is_overdue : ℕ → DriverOffer → Bool
is_overdue now o = elim o.expires_at [ none ↦ false | some at ↦ leb at now ]

abbrev pub may_answer : ℕ → Answer → DriverOffer → Bool
may_answer now (accepts user_id) o = is_pending_offer o.status && is_in_time now o
may_answer now (rejects user_id) o = is_pending_offer o.status
may_answer now expires o = is_pending_offer o.status && is_overdue now o
may_answer now cancels o = is_pending_offer o.status

-- An answer writes the status, the instant and the user, and nothing else.
abbrev pub answer_offer : ℕ → Answer → DriverOffer → DriverOffer
answer_offer now (accepts user_id) o = record o {
  status = OfferStatus.accepted;
  responded_at = some now;
  actor_user_id = some user_id;
}
answer_offer now (rejects user_id) o = record o {
  status = OfferStatus.rejected;
  responded_at = some now;
  actor_user_id = some user_id;
}
answer_offer now expires o = record o { status = OfferStatus.expired; responded_at = some now }
answer_offer now cancels o = record o { status = OfferStatus.cancelled; responded_at = some now }

abbrev pub link_offer : ℕ → DriverOffer → DriverOffer
link_offer assignment_id o = record o { assignment_id = some assignment_id }

-- A new automatic offer: nobody has answered it, and it has a deadline.
abbrev pub IsFresh : DriverOffer → Type 0
IsFresh o =
    (o.mode ≡ OfferMode.auto)
    × (o.status ≡ OfferStatus.pending)
    × ((at : ℕ) × (o.expires_at ≡ some at))
    × (o.responded_at ≡ none)
    × (o.actor_user_id ≡ none)
    × (o.assignment_id ≡ none)

-- The record of an operator's pick, with the operator and the assignment.
abbrev pub IsPick : DriverOffer → Type 0
IsPick o =
    (o.mode ≡ OfferMode.manual)
    × (o.status ≡ OfferStatus.accepted)
    × (o.expires_at ≡ none)
    × ((at : ℕ) × (o.responded_at ≡ some at))
    × ((user_id : ℕ) × (o.actor_user_id ≡ some user_id))
    × ((assignment_id : ℕ) × (o.assignment_id ≡ some assignment_id))

-- Everyone who had an offer of the order, whatever became of it.
abbrev pub offered_to : ℕ → List DriverOffer → List ℕ
offered_to order_id os =
    map (λ (o : DriverOffer). o.driver_id) (select (λ (o : DriverOffer). o.order_id == order_id) os)

-- The offer goes to the best candidate of a ranking that was told to leave those out.
abbrev pub IsChoice : Matching → List DriverOffer → DriverOffer → Type 0
IsChoice matching xs o =
    (w : World) × (r : MatchingResult) × (best : RankedCandidate) × (matching.rank_for_order
        o.order_id (offered_to o.order_id xs) w
      ≡ ok r)
    × (best_candidate r ≡ some best)
    × (o.driver_id ≡ best.driver_id)

pub data Moves (matching : Matching) : List DriverOffer → List DriverOffer → Type 0 where
  idle : {xs : List DriverOffer} → Moves matching xs xs
  answered :
      {xs : List DriverOffer} (now id : ℕ) (a : Answer) (p : DriverOffer → Bool)
      → ((o : DriverOffer) → p o ≡ true → (o.id ≡ id) × (may_answer now a o ≡ true))
      → Moves matching xs (update_where p (answer_offer now a) xs)
  linked :
      {xs : List DriverOffer} (id assignment_id : ℕ)
      → Moves matching xs
          (update_where (λ (o : DriverOffer). o.id == id) (link_offer assignment_id) xs)
  opened :
      {xs : List DriverOffer} (o : DriverOffer)
      → IsFresh o
      → IsChoice matching xs o
      → any (is_pending_for o.order_id) xs ≡ false
      → Moves matching xs (o ∷ xs)
  recorded : {xs : List DriverOffer} (o : DriverOffer) → IsPick o → Moves matching xs (o ∷ xs)
  and_then :
      {xs ys zs : List DriverOffer}
      → Moves matching xs ys
      → Moves matching ys zs
      → Moves matching xs zs

pub answer-Life :
    (now : ℕ) (a : Answer) (o : DriverOffer)
    → may_answer now a o ≡ true
    → Life o (answer_offer now a o)
answer-Life now (accepts user_id) o may = record {
  id = refl;
  order_id = refl;
  driver_id = refl;
  status = inr (ground arith, refl);
}
answer-Life now (rejects user_id) o may = record {
  id = refl;
  order_id = refl;
  driver_id = refl;
  status = inr (may, refl);
}
answer-Life now expires o may = record {
  id = refl;
  order_id = refl;
  driver_id = refl;
  status = inr (ground arith, refl);
}
answer-Life now cancels o may = record {
  id = refl;
  order_id = refl;
  driver_id = refl;
  status = inr (may, refl);
}

pub link-Life : (assignment_id : ℕ) (o : DriverOffer) → Life o (link_offer assignment_id o)
link-Life assignment_id o = record {
  id = refl;
  order_id = refl;
  driver_id = refl;
  status = inl refl;
}

pub pick_shut : (o : DriverOffer) → IsPick o → is_pending_offer o.status ≡ false
pick_shut o pick = ap is_pending_offer pick.1
