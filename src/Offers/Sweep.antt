-- ===== src/Offers/Sweep.antt =====
-- src/modules/operations/offers/offers.service.ts: the periodic pass over the offers and the orders
-- that wait, and the hook of a payment.
use transport_api.Assignments.{dispatch_waiting_statuses, dispatchable_payment_statuses}
use transport_api.Common.{
  Bool, List, Option, [], any, false, if◌then◌else◌, ltb, min, none, not, reverse, select, some,
  suc, update_where, zero, ℕ, ◌&&◌, ◌+◌, ◌-◌, ◌==◌, ◌||◌, ◌∷◌,
}
use transport_api.Domain.{ServiceType, StatusOrders, same_service, same_status}
use transport_api.Offers.{
  Dispatch, DispatchConfig, Matching, MatchingStatus, arm, auto_enabled, disarm, due_now_filter,
  is_armed, is_due_now, is_pending_for, offer_next, on_world, schedule_wake, scheduled_lead_ms,
  waiting_order_where,
}
use transport_api.Offers.Answers.{expire, is_due}
use transport_api.Offers.Manual.{cancel_pending_offers}
use transport_api.Orders.Cancel.{set_status}
use transport_api.Orders.Closing.{is_pending_offer}
use transport_api.World.{DriverOffer, Emit, TransportOrder, World, emit, order_of}

abbrev pub take : {A : Type 0} → ℕ → List A → List A
take zero xs = []
take (suc n) [] = []
take (suc n) (x ∷ xs) = x ∷ take n xs

unfoldable pub expire_each : List DriverOffer → ℕ → Dispatch → Dispatch
expire_each [] now d = d
expire_each (o ∷ os) now d = expire_each os now (expire o.id now d).1

abbrev pub is_pending_due : ℕ → DriverOffer → Bool
is_pending_due now o = is_pending_offer o.status && is_due now o

-- `expireDue`
unfoldable pub expire_due : ℕ → Dispatch → Dispatch
expire_due now d = expire_each (take 100 (select (is_pending_due now) d.world.offers)) now d

abbrev pub is_stale : World → DriverOffer → Bool
is_stale w o =
    is_pending_offer o.status
    && any (λ (t : TransportOrder). t.id == o.order_id && not (dispatch_waiting_statuses t.status))
        w.orders

-- `cancelStale`
unfoldable pub cancel_stale : World → World
cancel_stale w = (cancel_pending_offers (take 100 (select (is_stale w) w.offers)) w).1

-- The first step of `dispatchWaiting`: orders that an offer was lost for.
abbrev pub is_stuck : World → TransportOrder → Bool
is_stuck w o =
    same_status o.status StatusOrders.assigning_driver && not (any (is_pending_for o.id) w.offers)

unfoldable pub requeue_stuck : World → World
requeue_stuck w = record w {
  orders = update_where (is_stuck w) (set_status StatusOrders.requested) w.orders;
}

abbrev pub is_waiting_now : ℕ → World → TransportOrder → Bool
is_waiting_now now w o = waiting_order_where w o && due_now_filter now o

-- A failure of one order is logged, and the others go on.
unfoldable pub offer_each : DispatchConfig → Matching → List TransportOrder → Dispatch → Dispatch
offer_each c m [] d = d
offer_each c m (o ∷ os) d = offer_each c m os (offer_next c m o.id d).1

-- `dispatchWaiting`, oldest order first
unfoldable pub dispatch_waiting : DispatchConfig → Matching → ℕ → Dispatch → Dispatch
dispatch_waiting c m now d =
    let queued = on_world requeue_stuck d in
    let waiting = select (is_waiting_now now queued.world) queued.world.orders in
    offer_each c m (take 50 (reverse waiting)) queued

-- The first of the scheduled orders that are still too far ahead.
abbrev pub far_ahead : ℕ → World → TransportOrder → Bool
far_ahead now w o =
    waiting_order_where w o
    && same_service o.service_type ServiceType.scheduled
    && elim o.schedule_at [ none ↦ false | some at ↦ ltb (now + scheduled_lead_ms) at ]

earlier : Option ℕ → Option ℕ → Option ℕ
earlier none b = b
earlier (some a) none = some a
earlier (some a) (some b) = some (min a b)

unfoldable pub next_schedule : ℕ → World → List TransportOrder → Option ℕ
unfolding earlier
next_schedule now w [] = none
next_schedule now w (o ∷ os) =
    let rest = next_schedule now w os in
    if far_ahead now w o then earlier o.schedule_at rest else rest

-- `settleSweep`: the scheduled orders get their wake-up, and the sweep rests.
unfoldable pub plan_next_wake : DispatchConfig → ℕ → Dispatch → Dispatch
plan_next_wake c now d = elim (next_schedule now d.world d.world.orders) [
  | none ↦ d
  | some at ↦ schedule_wake c (at - scheduled_lead_ms) d
]

unfoldable pub settle_sweep : DispatchConfig → ℕ → Dispatch → Dispatch
settle_sweep c now d =
    if any (λ (o : DriverOffer). is_pending_offer o.status) d.world.offers
      || (auto_enabled c && any (is_waiting_now now d.world) d.world.orders)
    then d
    else disarm c (if auto_enabled c then plan_next_wake c now d else d)

unfoldable pub dispatch_if_auto : DispatchConfig → Matching → ℕ → Dispatch → Dispatch
dispatch_if_auto c m now d = if auto_enabled c then dispatch_waiting c m now d else d

-- The three passes of a sweep that is armed.
unfoldable pub sweep_passes : DispatchConfig → Matching → ℕ → Dispatch → Dispatch
sweep_passes c m now d = dispatch_if_auto c m now (on_world cancel_stale (expire_due now d))

-- `sweep`
unfoldable pub sweep : DispatchConfig → Matching → ℕ → Dispatch → Dispatch
sweep c m now d = if is_armed c d then settle_sweep c now (sweep_passes c m now d) else d

-- `wakeSweep`
abbrev pub wake_sweep : DispatchConfig → Dispatch → Dispatch
wake_sweep = arm

abbrev pub wants_driver : TransportOrder → Bool
wants_driver o =
    same_status o.status StatusOrders.requested && dispatchable_payment_statuses o.payment_status

abbrev pub wake_for : DispatchConfig → TransportOrder → Dispatch → Dispatch
wake_for c o d = elim o.schedule_at [
  | none ↦ d
  | some at ↦ if auto_enabled c then schedule_wake c (at - scheduled_lead_ms) d else d
]

abbrev pub search_driver : DispatchConfig → Matching → ℕ → Dispatch → Dispatch
search_driver c m order_id d =
    (offer_next c m order_id
      (record d { statuses = MatchingStatus.searching order_id ∷ d.statuses })).1

-- `onOrderDispatchable`, once the order is found paid and waiting
unfoldable pub offer_paid : DispatchConfig → Matching → TransportOrder → Dispatch → Dispatch
offer_paid c m o d =
    let offered = if auto_enabled c then search_driver c m o.id d else d in
    if is_due_now d.world.now o then offered else wake_for c o d

-- `onOrderDispatchable`; what the offer throws is the job's failure.
unfoldable pub on_order_dispatchable : DispatchConfig → Matching → ℕ → Dispatch → Dispatch
on_order_dispatchable c m order_id d =
    let armed = arm c d in
    elim (order_of order_id armed.world) [
      | none ↦ armed
      | some o ↦
          if wants_driver o
          then offer_paid c m o (on_world (emit (Emit.order_status_announced o.id o.status)) armed)
          else armed
    ]
