-- ===== src/Offers/Steps.antt =====
-- src/modules/operations/offers/offers.service.ts: every operation of the database that a dispatch
-- runs moves the offers by steps of the machine.
use transport_api.Assignments.{
  ClaimHooks, accepted_assignment, announce_assignment, announce_order_status,
  assert_driver_vehicle_can_take_order, check_claim, claim_driver, claim_order, claim_row, create,
  insert_assignment, is_dispatchable, pending_assignment, write_assignment, write_claim,
}
use transport_api.Assignments.Requests.{assert_driver_vehicle_can_take_order-reads}
use transport_api.Common.{Bool, ap, not, refl, ℕ}
use transport_api.Common.Action.{
  forbidden, gets, modify, pure, resource_not_found, transaction, ◌>>=◌, ◌>>◌,
}
use transport_api.Common.Respects.{
  bind-Respects, given-Respects, guarded-Respects, reading-Respects, returning-Respects,
  transaction-Respects, writing-Respects,
}
use transport_api.Domain.{EventType, StatusOrders}
use transport_api.Offers.{Dispatch, Matching}
use transport_api.Offers.Checks.{
  KeepsOffers, MovesOffers, check_claim-OnlyReads, claim_driver-KeepsOffers, claim_row-KeepsOffers,
  keeps-MovesOffers, offers_frame, reading-MovesOffers, same_offers,
}
use transport_api.Offers.Machine.{Moves, idle}
use transport_api.World.{AuthenticatedUser, Emit, OrderAssignment, World, add_event, emit, order_of}

-- The hooks of a claim that move the offers.
abbrev pub HooksMoveOffers : Matching → ClaimHooks → Type 0
HooksMoveOffers matching h =
    MovesOffers matching h.before_claim
    × ((a : OrderAssignment) → MovesOffers matching (h.after_claim a))

abbrev pub MovesDispatch : Matching → Dispatch → Dispatch → Type 0
MovesDispatch matching d d' = Moves matching d.world.offers d'.world.offers

module _ {matching : Matching} where
  write_claim-MovesOffers :
      (h : ClaimHooks) (user_id order_id driver_id vehicle_id : ℕ)
      → HooksMoveOffers matching h
      → MovesOffers matching (write_claim h user_id order_id driver_id vehicle_id)
  unfolding write_claim insert_assignment
  write_claim-MovesOffers h user_id order_id driver_id vehicle_id hooks =
      bind-Respects (offers_frame matching) h.before_claim _ hooks.0 (λ _.
        bind-Respects (offers_frame matching) (claim_row order_id StatusOrders.accepted) _
          (keeps-MovesOffers _ (claim_row-KeepsOffers order_id StatusOrders.accepted))
          (λ _.
            bind-Respects (offers_frame matching) (claim_driver driver_id) _
              (keeps-MovesOffers _ (claim_driver-KeepsOffers driver_id))
              (λ _.
                reading-Respects (offers_frame matching)
                  (accepted_assignment order_id driver_id vehicle_id) _
                  (λ created. finish created))))
    where
      finish :
          (created : OrderAssignment)
          → MovesOffers matching (
              modify (insert_assignment created)
              >> (modify (add_event order_id EventType.accepted user_id)
                  >> (h.after_claim created >> pure created)))
      finish created =
          writing-Respects (offers_frame matching) (insert_assignment created) _ (λ w. idle)
            (λ _.
              writing-Respects (offers_frame matching)
                (add_event order_id EventType.accepted user_id)
                (λ _. h.after_claim created >> pure created) (λ w. idle)
                (λ _.
                  bind-Respects (offers_frame matching) (h.after_claim created) _ (hooks.1 created)
                    (λ _. returning-Respects (offers_frame matching) created)))

  pub claim_order-MovesOffers :
      (on : Bool) (h : ClaimHooks) (user : AuthenticatedUser) (order_id vehicle_id : ℕ)
      → HooksMoveOffers matching h
      → MovesOffers matching (claim_order on h user order_id vehicle_id)
  unfolding claim_order
  claim_order-MovesOffers on h user order_id vehicle_id hooks =
      bind-Respects (offers_frame matching) (check_claim on h.via_offer user order_id vehicle_id) _
        (reading-MovesOffers _ (check_claim-OnlyReads on h.via_offer user order_id vehicle_id))
        (λ driver_id.
          let write = write_claim h user.id order_id driver_id vehicle_id in
          bind-Respects (offers_frame matching) (transaction write) _
            (transaction-Respects (offers_frame matching) write
              (write_claim-MovesOffers h user.id order_id driver_id vehicle_id hooks))
            (λ a. finish driver_id a))
    where
      finish :
          (driver_id : ℕ) (a : OrderAssignment)
          → MovesOffers matching (
              modify (emit (Emit.presence_removed driver_id))
              >> (modify (emit (Emit.assignment_created a.id))
                  >> (modify (
                        announce_order_status order_id StatusOrders.accepted StatusOrders.requested
                          driver_id)
                      >> pure a)))
      finish driver_id a = record { holds = λ w. idle }

write_assignment-KeepsOffers :
    (user_id order_id driver_id vehicle_id : ℕ)
    → KeepsOffers (write_assignment user_id order_id driver_id vehicle_id)
unfolding write_assignment insert_assignment
write_assignment-KeepsOffers user_id order_id driver_id vehicle_id =
    bind-Respects same_offers (claim_row order_id StatusOrders.assigned) _
      (claim_row-KeepsOffers order_id StatusOrders.assigned)
      (λ _.
        bind-Respects same_offers (claim_driver driver_id) _ (claim_driver-KeepsOffers driver_id)
          (λ _. finish))
  where
    finish : KeepsOffers (
        gets (pending_assignment user_id order_id driver_id vehicle_id) >>= λ created.
        modify (insert_assignment created)
        >> (modify (add_event order_id EventType.assigned user_id) >> pure created))
    finish = record { holds = λ w. refl }

pub create-KeepsOffers :
    (user : AuthenticatedUser) (order_id driver_id vehicle_id : ℕ)
    → KeepsOffers (create user order_id driver_id vehicle_id)
unfolding create
create-KeepsOffers user order_id driver_id vehicle_id =
    reading-Respects same_offers (order_of order_id) _ (λ found.
      given-Respects same_offers found resource_not_found _ (λ order.
        guarded-Respects same_offers (not (is_dispatchable order)) forbidden _ (λ _.
          bind-Respects same_offers
            (assert_driver_vehicle_can_take_order driver_id vehicle_id order.vehicle_category_id) _
            (record {
              holds = λ w.
                  ap (λ (v : World). v.offers)
                    (assert_driver_vehicle_can_take_order-reads driver_id vehicle_id
                      order.vehicle_category_id w);
            })
            (λ _.
              bind-Respects same_offers
                (transaction (write_assignment user.id order_id driver_id vehicle_id)) _
                (transaction-Respects same_offers
                  (write_assignment user.id order_id driver_id vehicle_id)
                  (write_assignment-KeepsOffers user.id order_id driver_id vehicle_id))
                (λ a. finish order.status a)))))
  where
    finish :
        (previous : StatusOrders) (a : OrderAssignment)
        → KeepsOffers (
            modify (announce_assignment a)
            >> (modify (announce_order_status order_id StatusOrders.assigned previous driver_id)
                >> pure a))
    finish previous a = record { holds = λ w. refl }
