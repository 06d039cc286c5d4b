-- ===== src/Offers.antt =====
-- src/modules/operations/offers/offers.service.ts and offer-scheduler.service.ts: the state of the
-- dispatch beside the database, and the automatic offer to the best driver who had none yet.
-- The matching service is taken as a record of its one operation.
pub mod Answers
pub mod Manual
pub mod Sweep
pub mod Machine
pub mod Checks
pub mod Steps
pub mod Openings
pub mod Operations
pub mod Passes
pub mod Requests
pub mod Histories
pub mod Cascade
pub mod Picks
pub mod Resting
pub mod Hooks
pub mod Acceptance
use transport_api.Assignments.{
  dispatch_waiting_statuses, dispatchable_payment_statuses, driver_by_id,
}
use transport_api.Common.{
  Bool, List, Option, [], any, count_where, false, find_first, if◌then◌else◌, leb, length, ltb, map,
  none, not, select, some, suc, true, update_where, ℕ, ◌&&◌, ◌*◌, ◌+◌, ◌-◌, ◌/◌, ◌==◌, ◌||◌, ◌∷◌,
}
use transport_api.Common.Action.{Action, Result, err, ok}
use transport_api.Domain.{
  OfferMode, OfferStatus, ServiceType, StatusOrders, same_service, same_status,
}
use transport_api.Orders.Cancel.{set_status}
use transport_api.Orders.Closing.{holds_order, is_pending_offer}
use transport_api.World.{DriverOffer, Emit, TransportOrder, World, emit}

-- `RankedCandidate`, with the columns that an offer is made from.
pub record RankedCandidate : Type 0 where
  pub rank : ℕ
  pub driver_id : ℕ
  pub vehicle_id : ℕ
  pub eta_is_ok : Bool

-- `MatchingResult`; `presence_disabled` says whether `alerts` names it.
pub record MatchingResult : Type 0 where
  pub candidates : List RankedCandidate
  pub presence_disabled : Bool

-- `MatchingService`: `rankForOrder` by the order and the drivers to leave out.
pub record Matching : Type 0 where
  pub rank_for_order : ℕ → List ℕ → World → Result MatchingResult

-- `matchingConfig`, with the runtime settings that override it already applied.
pub record DispatchConfig : Type 0 where
  pub auto_offer : Bool
  pub has_redis : Bool
  pub has_queue : Bool
  pub offer_ttl_sec : ℕ
  pub retry_cooldown_sec : ℕ
  pub manual_enforce : Bool

-- A delayed job that expires an offer, and one that arms the sweep, by its minute slot.
pub record ExpireJob : Type 0 where
  pub offer_id : ℕ
  pub delay : ℕ

pub record WakeJob : Type 0 where
  pub slot : ℕ
  pub delay : ℕ

pub record Cooldown : Type 0 where
  pub order_id : ℕ
  pub until : ℕ

-- `emitMatchingStatus` and `emitAlert`
pub data MatchingStatus : Type 0 where
  searching alert : ℕ → MatchingStatus
  offering no_drivers : ℕ → ℕ → MatchingStatus

-- The database, Redis (`SWEEP_ARMED_KEY` and the cooldowns), the queue's jobs, and the cascades
-- that were started without waiting for them.
pub record Dispatch : Type 0 where
  pub world : World
  pub armed : Bool
  pub cooldowns : List Cooldown
  pub expire_jobs : List ExpireJob
  pub wake_jobs : List WakeJob
  pub cascades : List ℕ
  pub statuses : List MatchingStatus

abbrev pub on_world : (World → World) → Dispatch → Dispatch
on_world f d = record d { world = f d.world }

abbrev pub in_world : {A : Type 0} → Action World A → Action Dispatch A
in_world m d = let (r, w) = m d.world in (r, record d { world = w })

-- `SCHEDULED_LEAD_MS`
abbrev pub scheduled_lead_ms : ℕ
scheduled_lead_ms = 1800000

-- `autoEnabled`
abbrev pub auto_enabled : DispatchConfig → Bool
auto_enabled c = c.auto_offer && c.has_redis

-- `arm`, `disarm` and `isArmed`; where Redis is off, the sweep runs.
abbrev pub arm : DispatchConfig → Dispatch → Dispatch
arm c d = if c.has_redis then record d { armed = true } else d

abbrev pub disarm : DispatchConfig → Dispatch → Dispatch
disarm c d = if c.has_redis then record d { armed = false } else d

abbrev pub is_armed : DispatchConfig → Dispatch → Bool
is_armed c d = not c.has_redis || d.armed

-- `scheduleWake`: the queue keeps one job of an id.
unfoldable pub schedule_wake : DispatchConfig → ℕ → Dispatch → Dispatch
schedule_wake c at d =
    let slot = at / 60000 in
    if not c.has_queue || any (λ (j : WakeJob). j.slot == slot) d.wake_jobs
    then d
    else record d { wake_jobs = record { slot = slot; delay = at - d.world.now } ∷ d.wake_jobs }

-- `scheduleExpiry`
unfoldable pub schedule_expiry : DispatchConfig → ℕ → ℕ → Dispatch → Dispatch
schedule_expiry c offer_id delay_sec d =
    let job : ExpireJob = record { offer_id = offer_id; delay = delay_sec * 1000 + 250 } in
    if c.has_queue then record (arm c d) { expire_jobs = job ∷ d.expire_jobs } else d

abbrev pub is_within_lead : ℕ → Option ℕ → Bool
is_within_lead now none = false
is_within_lead now (some at) = leb at (now + scheduled_lead_ms)

-- `dueNowFilter`
abbrev pub due_now_filter : ℕ → TransportOrder → Bool
due_now_filter now o =
    same_service o.service_type ServiceType.inmediate
    || (same_service o.service_type ServiceType.scheduled && is_within_lead now o.schedule_at)

-- `isDueNow`
unfoldable pub is_due_now : ℕ → TransportOrder → Bool
is_due_now now o =
    if not (same_service o.service_type ServiceType.scheduled)
    then true
    else is_within_lead now o.schedule_at

-- A pending offer of the order.
abbrev pub is_pending_for : ℕ → DriverOffer → Bool
is_pending_for order_id o = o.order_id == order_id && is_pending_offer o.status

-- `DISPATCHABLE_PAYMENT_STATUSES`, no live assignment and no open offer
abbrev pub is_paid_and_free : World → TransportOrder → Bool
is_paid_and_free w o =
    dispatchable_payment_statuses o.payment_status
    && not (any (holds_order o.id) w.assignments)
    && not (any (is_pending_for o.id) w.offers)

-- `waitingOrderWhere`
abbrev pub waiting_order_where : World → TransportOrder → Bool
waiting_order_where w o = same_status o.status StatusOrders.requested && is_paid_and_free w o

-- `isWaitingForOffer`
unfoldable pub is_waiting_for_offer : ℕ → World → Bool
is_waiting_for_offer order_id w =
    any
      (λ (o : TransportOrder).
        o.id == order_id
        && due_now_filter w.now o
        && dispatch_waiting_statuses o.status
        && is_paid_and_free w o)
      w.orders

-- `setWaitingStatus`
unfoldable pub set_waiting_status : ℕ → StatusOrders → StatusOrders → List ℕ → World → World
set_waiting_status order_id from to driver_ids w =
    let here = λ (o : TransportOrder). o.id == order_id && same_status o.status from in
    let moved = record w { orders = update_where here (set_status to) w.orders } in
    if count_where here w.orders == 1
    then emit (Emit.order_status_changed order_id to from driver_ids) moved
    else moved

-- `announce`
abbrev pub announce : DriverOffer → World → World
announce o = emit (Emit.offer_updated o.id o.status)

-- `notifyDriver`
unfoldable pub notify_driver : DriverOffer → World → World
notify_driver o w = elim (driver_by_id o.driver_id w) [
  | none ↦ w
  | some d ↦ emit (Emit.driver_notified d.id) w
]

abbrev pub offered_drivers : ℕ → World → List ℕ
offered_drivers order_id w =
    map (λ (o : DriverOffer). o.driver_id)
      (select (λ (o : DriverOffer). o.order_id == order_id) w.offers)

abbrev pub is_on_cooldown : ℕ → Dispatch → Bool
is_on_cooldown order_id d =
    any (λ (c : Cooldown). c.order_id == order_id && ltb d.world.now c.until) d.cooldowns

abbrev pub best_candidate : MatchingResult → Option RankedCandidate
best_candidate r = find_first (λ (c : RankedCandidate). c.eta_is_ok) r.candidates

-- Nobody is left: a cooldown, and the order goes back to the queue.
unfoldable pub no_driver_left : DispatchConfig → ℕ → ℕ → Dispatch → Dispatch
no_driver_left c order_id attempt d =
    let until = d.world.now + c.retry_cooldown_sec * 1000 in
    record d {
      cooldowns = record { order_id = order_id; until = until } ∷ d.cooldowns;
      world =
          set_waiting_status order_id StatusOrders.assigning_driver StatusOrders.requested []
            d.world;
      statuses =
          MatchingStatus.no_drivers order_id attempt ∷ MatchingStatus.alert order_id ∷ d.statuses;
    }

abbrev pub auto_offer_for : DispatchConfig → ℕ → RankedCandidate → World → DriverOffer
auto_offer_for c order_id best w = record {
  id = w.next_id;
  order_id = order_id;
  driver_id = best.driver_id;
  vehicle_id = best.vehicle_id;
  mode = OfferMode.auto;
  status = OfferStatus.pending;
  expires_at = some (w.now + c.offer_ttl_sec * 1000);
  responded_at = none;
  actor_user_id = none;
  assignment_id = none;
}

abbrev pub insert_offer : DriverOffer → World → World
insert_offer o w = record w { next_id = suc w.next_id; offers = o ∷ w.offers }

-- What follows the row of a new offer.
unfoldable pub announce_new_offer : DispatchConfig → ℕ → DriverOffer → Dispatch → Dispatch
announce_new_offer c attempt o d =
    let timed = schedule_expiry c o.id c.offer_ttl_sec d in
    record timed {
      world = notify_driver o (
          announce o (
            set_waiting_status o.order_id StatusOrders.requested StatusOrders.assigning_driver
              (o.driver_id ∷ []) timed.world));
      statuses = MatchingStatus.offering o.order_id attempt ∷ timed.statuses;
    }

-- The offer to the candidate that the ranking gave. The partial unique index refuses a second
-- pending offer of an order, and the code takes that for another sweep that was faster.
unfoldable pub open_offer :
    DispatchConfig → ℕ → ℕ → RankedCandidate → Dispatch → Option DriverOffer × Dispatch
open_offer c order_id attempt best d =
    let o = auto_offer_for c order_id best d.world in
    if any (is_pending_for order_id) d.world.offers
    then (none, d)
    else (some o, announce_new_offer c attempt o (on_world (insert_offer o) d))

-- `offerNext`, from the ranking on
unfoldable pub offer_best :
    DispatchConfig → ℕ → ℕ → MatchingResult → Dispatch → Option DriverOffer × Dispatch
offer_best c order_id attempts ranking d = elim (best_candidate ranking) [
  | none ↦ (none, no_driver_left c order_id attempts d)
  | some best ↦ open_offer c order_id (suc attempts) best d
]

-- `offerNext`
unfoldable pub offer_next : DispatchConfig → Matching → ℕ → Action Dispatch (Option DriverOffer)
offer_next c m order_id d =
    if not (auto_enabled c)
      || is_on_cooldown order_id d
      || not (is_waiting_for_offer order_id d.world)
    then (ok none, d)
    else let previous = offered_drivers order_id d.world in
      elim (m.rank_for_order order_id previous d.world) [
        | err e ↦ (err e, d)
        | ok ranking ↦ let (o, d') = offer_best c order_id (length previous) ranking d in (ok o, d')
      ]
