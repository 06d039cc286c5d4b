-- ===== src/Orders/Settlement/Frame.antt =====
-- orders.service.ts, `settleClosedOrderPayments`: what a settlement leaves alone.
use transport_api.Common.{
  Bool, Bool-cases, List, Option, any, ap, arith, false, find_first, find_first-update_where,
  if◌then◌else◌, inl, inr, length, ltb, none, refl, select, some, ℕ, ◌==◌, ◌∙◌, ◌≡◌,
}
use transport_api.Domain.{PaymentStatus, StatusOrders}
use transport_api.Orders.Policy.{is_collected}
use transport_api.Orders.Settlement.{
  SettlementInput, Settling, close_payment_status, payments_of, run_settlement,
  settle_closed_order_payments, void_unsettled,
}
use transport_api.Orders.Settlement.Rounds.{
  Frame-trans, in_flight, run_settlement-Frame, void_unsettled-Frame, void_unsettled-in_flight,
}
use transport_api.World.{Payment, TransportOrder, World, order_of}
use mathlib.Core.Option

-- The status of an order, wherever its payment status stands.
abbrev pub status_of : ℕ → World → Option StatusOrders
status_of id w = Option.map (λ (o : TransportOrder). o.status) (order_of id w)

map-keep_status :
    (q : TransportOrder → Bool) (f : TransportOrder → TransportOrder) (o : Option TransportOrder)
    → ((x : TransportOrder) → (f x).status ≡ x.status)
    → Option.map (λ (o : TransportOrder). o.status) (Option.map (λ x. if q x then f x else x) o)
      ≡ Option.map (λ (o : TransportOrder). o.status) o
map-keep_status q f none keep = refl
map-keep_status q f (some x) keep = ground (arith, keep x)

close_payment_status-status_of :
    (id order_id : ℕ) (ps : List Payment) (s : Settling)
    → status_of id (close_payment_status order_id ps s) ≡ status_of id s.world
unfolding close_payment_status
close_payment_status-status_of id order_id ps s = elim (Bool-cases s.still_holds_money) [
  | inl held ↦ rw held
  | inr empty ↦
      let f = λ (o : TransportOrder). record o {
        payment_status =
            if ltb 0 (length ps) then PaymentStatus.refunded else PaymentStatus.cancelled;
      } in
      rw empty (
        ap (Option.map (λ (o : TransportOrder). o.status)) (
          find_first-update_where (λ (o : TransportOrder). o.id == order_id)
            (λ (o : TransportOrder). o.id == id) f s.world.orders (λ x. refl))
        ∙ map-keep_status (λ (o : TransportOrder). o.id == order_id) f
            (find_first (λ (o : TransportOrder). o.id == id) s.world.orders) (λ x. refl))
]

close_payment_status-Frame :
    (order_id : ℕ) (ps : List Payment) (s : Settling)
    → let w = close_payment_status order_id ps s in
      (w.assignments ≡ s.world.assignments)
      × (w.offers ≡ s.world.offers)
      × (w.reservations ≡ s.world.reservations)
      × (w.tracking ≡ s.world.tracking)
      × (w.payments ≡ s.world.payments)
      × (w.cancellations ≡ s.world.cancellations)
unfolding close_payment_status
close_payment_status-Frame order_id ps s = ground arith

-- A settlement changes no order's status and touches no assignment, offer, reservation, tracking
-- session or cancellation; afterwards no attempt to pay the order is in flight.
pub settle-leaves :
    (input : SettlementInput) (w : World)
    → let w' = (settle_closed_order_payments input w).1 in
      ((id : ℕ) → status_of id w' ≡ status_of id w)
      × (w'.assignments ≡ w.assignments)
      × (w'.offers ≡ w.offers)
      × (w'.reservations ≡ w.reservations)
      × (w'.tracking ≡ w.tracking)
      × (any (in_flight input.order_id) w'.payments ≡ false)
      × (w'.cancellations ≡ w.cancellations)
unfolding settle_closed_order_payments
settle-leaves input w =
    let id = input.order_id in
    let w₁ = void_unsettled id w in
    let void = void_unsettled-Frame id w in
    let ps = payments_of id w₁ in
    let s = run_settlement input ps w₁ in
    let run = run_settlement-Frame input ps w₁ in
    let all = Frame-trans void run.0 in
    let collected = select is_collected ps in
    let last = close_payment_status-Frame id collected s in
    (
      λ k.
          close_payment_status-status_of k id collected s
          ∙ ap
              (λ (os : List TransportOrder).
                Option.map (λ (o : TransportOrder). o.status)
                  (find_first (λ (o : TransportOrder). o.id == k) os))
              all.orders,
      last.0 ∙ all.assignments,
      last.1 ∙ all.offers,
      last.2 ∙ all.reservations,
      last.3 ∙ all.tracking,
      ap (any (in_flight id)) last.4 ∙ run.1 (void_unsettled-in_flight id w),
      last.5 ∙ all.cancellations,
    )
