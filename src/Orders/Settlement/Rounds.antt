-- ===== src/Orders/Settlement/Rounds.antt =====
-- orders.service.ts, `settleClosedOrderPayments`: what the rounds of its loops leave alone.
use transport_api.Common.{
  Bool, List, [], any, any-update_where, any-update_where_keep, arith, false, length, ltb, min,
  select, ℕ, ◌&&◌, ◌==◌, ◌∙◌, ◌∷◌, ◌≡◌,
}
use transport_api.Domain.{PaymentStatus}
use transport_api.Orders.Policy.{is_collected}
use transport_api.Orders.Settlement.{
  SettlementInput, Settling, fee_of, is_held, is_unsettled, keep_fee, release_corporate_credit,
  release_rest, run_settlement, settle_collected, settle_collected_payment, settle_held,
  settle_held_payment, shrink_authorization, void_unsettled,
}
use transport_api.World.{Payment, World}

-- The tables that the money of an order does not touch.
pub record Frame (w w' : World) : Type 0 where
  pub orders : w'.orders ≡ w.orders
  pub assignments : w'.assignments ≡ w.assignments
  pub offers : w'.offers ≡ w.offers
  pub reservations : w'.reservations ≡ w.reservations
  pub tracking : w'.tracking ≡ w.tracking
  pub now : w'.now ≡ w.now
  pub cancellations : w'.cancellations ≡ w.cancellations

pub Frame-refl : (w : World) → Frame w w
Frame-refl w = ground arith

pub Frame-trans : {u v w : World} → Frame u v → Frame v w → Frame u w
Frame-trans f g = record {
  orders = g.orders ∙ f.orders;
  assignments = g.assignments ∙ f.assignments;
  offers = g.offers ∙ f.offers;
  reservations = g.reservations ∙ f.reservations;
  tracking = g.tracking ∙ f.tracking;
  now = g.now ∙ f.now;
  cancellations = g.cancellations ∙ f.cancellations;
}

-- Attempts of the order that are still in flight.
abbrev pub in_flight : ℕ → Payment → Bool
in_flight order_id p = p.order_id == order_id && is_unsettled p.status

abbrev pub NoneInFlight : ℕ → World → Type 0
NoneInFlight order_id w = any (in_flight order_id) w.payments ≡ false

pub void_unsettled-Frame : (order_id : ℕ) (w : World) → Frame w (void_unsettled order_id w)
unfolding void_unsettled
void_unsettled-Frame order_id w = ground arith

pub void_unsettled-in_flight :
    (order_id : ℕ) (w : World) → NoneInFlight order_id (void_unsettled order_id w)
unfolding void_unsettled
void_unsettled-in_flight order_id w =
    any-update_where (in_flight order_id) (in_flight order_id)
      (λ p. record p { status = PaymentStatus.cancelled }) w.payments (λ p h. ground arith)
      (λ p h. h)

settle_held_payment-Frame :
    (order_id : ℕ) (p : Payment) (s : Settling)
    → Frame s.world (settle_held_payment order_id p s).world
unfolding settle_held_payment
settle_held_payment-Frame order_id p s = ground arith

keep_fee-Frame : (p : Payment) (s : Settling) → Frame s.world (keep_fee p s).world
unfolding keep_fee
keep_fee-Frame p s = ground arith

release_corporate_credit-Frame :
    (p : Payment) (kept released order_id : ℕ) (w : World)
    → Frame w (release_corporate_credit p kept released order_id w)
unfolding release_corporate_credit
release_corporate_credit-Frame p kept released order_id w = ground arith

shrink_authorization-in_flight :
    (order_id kept : ℕ) (p : Payment)
    → in_flight order_id p ≡ false
    → in_flight order_id (shrink_authorization kept p) ≡ false
shrink_authorization-in_flight order_id kept p h = ground arith

release_corporate_credit-in_flight :
    (p : Payment) (kept released order_id : ℕ) (w : World)
    → NoneInFlight order_id w
    → NoneInFlight order_id (release_corporate_credit p kept released order_id w)
unfolding release_corporate_credit
release_corporate_credit-in_flight p kept released order_id w h = ground (
  arith,
  any-update_where_keep (λ (q : Payment). q.id == p.id) (in_flight order_id)
      (shrink_authorization kept) w.payments (shrink_authorization-in_flight order_id kept) h,
)

release_rest-Frame :
    (order_id : ℕ) (p : Payment) (kept : ℕ) (s : Settling)
    → Frame s.world (release_rest order_id p kept s).world
unfolding release_rest
release_rest-Frame order_id p kept s = ground arith

release_rest-in_flight :
    (order_id : ℕ) (p : Payment) (kept : ℕ) (s : Settling)
    → NoneInFlight order_id s.world
    → NoneInFlight order_id (release_rest order_id p kept s).world
unfolding release_rest
release_rest-in_flight order_id p kept s h = ground (
  arith,
  any-update_where_keep (λ (q : Payment). q.id == p.id) (in_flight order_id)
      (shrink_authorization kept) s.world.payments (shrink_authorization-in_flight order_id kept) h,
)

settle_held_payment-in_flight :
    (order_id : ℕ) (p : Payment) (s : Settling)
    → NoneInFlight order_id s.world
    → NoneInFlight order_id (settle_held_payment order_id p s).world
unfolding settle_held_payment
settle_held_payment-in_flight order_id p s h = h

keep_fee-in_flight :
    (order_id : ℕ) (p : Payment) (s : Settling)
    → NoneInFlight order_id s.world
    → NoneInFlight order_id (keep_fee p s).world
unfolding keep_fee
keep_fee-in_flight order_id p s h = ground arith

settle_collected_payment-Frame :
    (order_id : ℕ) (p : Payment) (s : Settling)
    → Frame s.world (settle_collected_payment order_id p s).world
unfolding settle_collected_payment
settle_collected_payment-Frame order_id p s =
    Frame-trans (keep_fee-Frame p s)
      (release_rest-Frame order_id p (min s.fee_left p.amount) (keep_fee p s))

settle_collected_payment-in_flight :
    (order_id : ℕ) (p : Payment) (s : Settling)
    → NoneInFlight order_id s.world
    → NoneInFlight order_id (settle_collected_payment order_id p s).world
unfolding settle_collected_payment
settle_collected_payment-in_flight order_id p s h =
    release_rest-in_flight order_id p (min s.fee_left p.amount) (keep_fee p s)
      (keep_fee-in_flight order_id p s h)

module _ (order_id : ℕ) where
  settle_held-Frame :
      (ps : List Payment) (s : Settling)
      → Frame s.world (settle_held order_id ps s).world
        × (NoneInFlight order_id s.world → NoneInFlight order_id (settle_held order_id ps s).world)
  unfolding settle_held
  settle_held-Frame [] s = (Frame-refl s.world, λ h. h)
  settle_held-Frame (p ∷ ps) s =
      let rest = settle_held-Frame ps (settle_held_payment order_id p s) in
      (
        Frame-trans (settle_held_payment-Frame order_id p s) rest.0,
        λ h. rest.1 (settle_held_payment-in_flight order_id p s h),
      )

  settle_collected-Frame :
      (ps : List Payment) (s : Settling)
      → Frame s.world (settle_collected order_id ps s).world
        × (NoneInFlight order_id s.world
            → NoneInFlight order_id (settle_collected order_id ps s).world)
  unfolding settle_collected
  settle_collected-Frame [] s = (Frame-refl s.world, λ h. h)
  settle_collected-Frame (p ∷ ps) s =
      let rest = settle_collected-Frame ps (settle_collected_payment order_id p s) in
      (
        Frame-trans (settle_collected_payment-Frame order_id p s) rest.0,
        λ h. rest.1 (settle_collected_payment-in_flight order_id p s h),
      )

pub run_settlement-Frame :
    (input : SettlementInput) (ps : List Payment) (w : World)
    → let t = run_settlement input ps w in
      Frame w t.world × (NoneInFlight input.order_id w → NoneInFlight input.order_id t.world)
unfolding run_settlement
run_settlement-Frame input ps w =
    let start : Settling = record {
      fee_left = fee_of input (select is_collected ps);
      refund_amount = 0;
      still_holds_money = ltb 0 (length (select is_held ps));
      world = w;
    } in
    let held = settle_held-Frame input.order_id (select is_held ps) start in
    let s₁ = settle_held input.order_id (select is_held ps) start in
    let collected = settle_collected-Frame input.order_id (select is_collected ps) s₁ in
    (Frame-trans held.0 collected.0, λ h. collected.1 (held.1 h))
