-- ===== src/Offers/Passes.antt =====
-- src/modules/operations/offers/offers.service.ts, `sweep` and `onOrderDispatchable`: the passes over many
-- offers, as steps of the machine of the offers.
use transport_api.Common.{
  Bool-cases, List, Option-cases, [], arith, inl, inr, reverse, select, ℕ, ◌&&◌, ◌-◌, ◌∷◌, ◌≡◌,
}
use transport_api.Offers.{
  Dispatch, DispatchConfig, Matching, MatchingStatus, arm, auto_enabled, is_armed, is_due_now,
  offer_next, on_world, scheduled_lead_ms,
}
use transport_api.Offers.Answers.{expire}
use transport_api.Offers.Checks.{still}
use transport_api.Offers.Machine.{and_then, idle}
use transport_api.Offers.Openings.{offer_next-Moves, schedule_wake-world}
use transport_api.Offers.Operations.{cancel_pending_offers-Moves, expire-Moves}
use transport_api.Offers.Steps.{MovesDispatch}
use transport_api.Offers.Sweep.{
  cancel_stale, dispatch_if_auto, dispatch_waiting, expire_due, expire_each, is_pending_due,
  is_stale, is_waiting_now, next_schedule, offer_each, offer_paid, on_order_dispatchable,
  plan_next_wake, requeue_stuck, settle_sweep, sweep, sweep_passes, take, wants_driver,
}
use transport_api.World.{DriverOffer, Emit, TransportOrder, emit, order_of}

-- The passes of a sweep.
pub expire_each-Moves :
    {m : Matching} (os : List DriverOffer) (now : ℕ) (d : Dispatch)
    → MovesDispatch m d (expire_each os now d)
unfolding expire_each
expire_each-Moves [] now d = idle
expire_each-Moves (o ∷ os) now d =
    and_then (expire-Moves o.id now d) (expire_each-Moves os now (expire o.id now d).1)

pub offer_each-Moves :
    (c : DispatchConfig) (m : Matching) (os : List TransportOrder) (d : Dispatch)
    → MovesDispatch m d (offer_each c m os d)
unfolding offer_each
offer_each-Moves c m [] d = idle
offer_each-Moves c m (o ∷ os) d =
    and_then (offer_next-Moves c m o.id d) (offer_each-Moves c m os (offer_next c m o.id d).1)

pub dispatch_if_auto-Moves :
    (c : DispatchConfig) (m : Matching) (now : ℕ) (d : Dispatch)
    → MovesDispatch m d (dispatch_if_auto c m now d)
unfolding dispatch_if_auto dispatch_waiting requeue_stuck
dispatch_if_auto-Moves c m now d = elim (Bool-cases (auto_enabled c)) [
  | inr off ↦ still (ground arith)
  | inl on ↦
      let queued = on_world requeue_stuck d in
      let waiting =
        take 50 (reverse (select (is_waiting_now now queued.world) queued.world.orders)) in
      and_then (offer_each-Moves c m waiting queued) (still (ground arith))
]

pub sweep_passes-Moves :
    (c : DispatchConfig) (m : Matching) (now : ℕ) (d : Dispatch)
    → MovesDispatch m d (sweep_passes c m now d)
unfolding sweep_passes expire_due cancel_stale
sweep_passes-Moves c m now d =
    let due = take 100 (select (is_pending_due now) d.world.offers) in
    let expired = expire_each due now d in
    let stale = take 100 (select (is_stale expired.world) expired.world.offers) in
    and_then (expire_each-Moves due now d) (
      and_then (cancel_pending_offers-Moves stale expired.world)
        (dispatch_if_auto-Moves c m now (on_world cancel_stale expired)))

pub settle_sweep-world :
    (c : DispatchConfig) (now : ℕ) (d : Dispatch) → (settle_sweep c now d).world ≡ d.world
unfolding settle_sweep plan_next_wake
settle_sweep-world c now d = elim (Option-cases (next_schedule now d.world d.world.orders)) [
  | inl none_ahead ↦ ground arith
  | inr (at, ahead) ↦ ground (arith, schedule_wake-world c (at - scheduled_lead_ms) d)
]

pub sweep-Moves :
    (c : DispatchConfig) (m : Matching) (now : ℕ) (d : Dispatch)
    → MovesDispatch m d (sweep c m now d)
unfolding sweep
sweep-Moves c m now d = elim (Bool-cases (is_armed c d)) [
  | inr rests ↦ still (ground arith)
  | inl runs ↦
      let same = settle_sweep-world c now (sweep_passes c m now d) in
      and_then (sweep_passes-Moves c m now d) (still (ground (arith, same)))
]

pub offer_paid-Moves :
    (c : DispatchConfig) (m : Matching) (o : TransportOrder) (d : Dispatch)
    → MovesDispatch m d (offer_paid c m o d)
unfolding offer_paid
offer_paid-Moves c m o d =
    let searching = record d { statuses = MatchingStatus.searching o.id ∷ d.statuses } in
    elim (Bool-cases (is_due_now d.world.now o && auto_enabled c)) [
      | inl goes ↦ and_then (offer_next-Moves c m o.id searching) (still (ground arith))
      | inr stays ↦ still (elim (Option-cases o.schedule_at) [
        | inl never ↦ ground arith
        | inr (at, planned) ↦ ground (arith, schedule_wake-world c (at - scheduled_lead_ms) d)
      ])
    ]

pub on_order_dispatchable-Moves :
    (c : DispatchConfig) (m : Matching) (order_id : ℕ) (d : Dispatch)
    → MovesDispatch m d (on_order_dispatchable c m order_id d)
unfolding on_order_dispatchable
on_order_dispatchable-Moves c m order_id d = elim (Option-cases (order_of order_id d.world)) [
  | inl gone ↦ still (ground arith)
  | inr (o, there_is) ↦
      let announced = on_world (emit (Emit.order_status_announced o.id o.status)) (arm c d) in
      elim (Bool-cases (wants_driver o)) [
        | inl wants ↦
            and_then (still (ground arith))
              (and_then (offer_paid-Moves c m o announced) (still (ground arith)))
        | inr moved_on ↦ still (ground arith)
      ]
]
