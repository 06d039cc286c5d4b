-- ===== src/Orders/Access.antt =====
-- orders.service.ts: the checks of who may read an order and who may act on it.
use transport_api.Common.{
  Bool, List, [], any, false, find_first, if◌then◌else◌, length, ltb, map, not, select, true, ℕ,
  ◌&&◌, ◌++◌, ◌==◌, ◌||◌, ◌∷◌,
}
use transport_api.Common.Action.{
  Action, bad_request, forbidden, or_throw, pure, resource_not_found, throw_if, ◌>>=◌, ◌>>◌,
}
use transport_api.Domain.{AssignmentStatus}
use transport_api.Orders.Closing.{contains, dedup, driver_release_statuses}
use transport_api.Orders.Roles.{is_customer_only, is_driver_only}
use transport_api.World.{
  Attachment, AuthenticatedUser, CustomerProfile, DeliveryProof, DriverProfile, OrderAssignment,
  TransportOrder, World,
}

-- `getCustomerProfile`
abbrev pub get_customer_profile : ℕ → Action World CustomerProfile
get_customer_profile user_id w =
    or_throw (find_first (λ (c : CustomerProfile). c.user_id == user_id) w.customers)
      resource_not_found w

-- `assertCanReadOrder`
unfoldable pub assert_can_read_order : AuthenticatedUser → ℕ → Action World (Unit {0})
assert_can_read_order user customer_id = if not (is_customer_only user) then pure tt else do
  customer ← get_customer_profile user.id
  throw_if (not (customer.id == customer_id)) forbidden

abbrev pub driver_user_is : ℕ → ℕ → World → Bool
driver_user_is driver_id user_id w =
    any (λ (d : DriverProfile). d.id == driver_id && d.user_id == user_id) w.drivers

-- `EVIDENCE_READ_ASSIGNMENT_STATUSES`
abbrev pub evidence_read_assignment_statuses : AssignmentStatus → Bool
evidence_read_assignment_statuses AssignmentStatus.pending = true
evidence_read_assignment_statuses AssignmentStatus.accepted = true
evidence_read_assignment_statuses AssignmentStatus.completed = true
evidence_read_assignment_statuses _ = false

-- `DRIVER_HOLDER_ASSIGNMENT_STATUSES`
abbrev pub driver_holder_assignment_statuses : AssignmentStatus → Bool
driver_holder_assignment_statuses AssignmentStatus.accepted = true
driver_holder_assignment_statuses AssignmentStatus.completed = true
driver_holder_assignment_statuses AssignmentStatus.cancelled = true
driver_holder_assignment_statuses _ = false

abbrev is_cancelled_assignment : AssignmentStatus → Bool
is_cancelled_assignment AssignmentStatus.cancelled = true
is_cancelled_assignment _ = false

-- `driverReadableAssignment`
abbrev pub driver_readable_assignment : ℕ → World → OrderAssignment → Bool
driver_readable_assignment user_id w a =
    driver_user_is a.driver_id user_id w
    && (evidence_read_assignment_statuses a.assignment_status
        || (is_cancelled_assignment a.assignment_status
            && any (λ (o : TransportOrder). o.id == a.order_id && driver_release_statuses o.status)
                w.orders))

-- `assertDriverCanAccessOrder`
unfoldable pub assert_driver_can_access_order : AuthenticatedUser → ℕ → Action World (Unit {0})
assert_driver_can_access_order user order_id w =
    throw_if
      (is_driver_only user
        && not (
            any
              (λ (a : OrderAssignment).
                a.order_id == order_id && driver_readable_assignment user.id w a)
              w.assignments))
      forbidden w

-- `assertDriverHoldsOrder`
unfoldable pub assert_driver_holds_order : AuthenticatedUser → ℕ → Action World (Unit {0})
assert_driver_holds_order user order_id w =
    throw_if
      (is_driver_only user
        && not (
            any
              (λ (a : OrderAssignment).
                a.order_id == order_id
                && driver_holder_assignment_statuses a.assignment_status
                && driver_user_is a.driver_id user.id w)
              w.assignments))
      forbidden w

-- The attachment query of `assertDeliveryEvidenceReady`: a photo that is no signature.
abbrev pub is_delivery_photo : List ℕ → List ℕ → Attachment → Bool
is_delivery_photo proof_ids signature_urls a =
    contains a.entity_id proof_ids
    && a.is_image
    && not a.named_signature
    && not (contains a.file_url signature_urls)

abbrev pub flat_urls : List DeliveryProof → List ℕ
flat_urls [] = []
flat_urls (p ∷ ps) = p.signature_urls ++ flat_urls ps

-- `assertDeliveryEvidenceReady`
unfoldable pub assert_delivery_evidence_ready : ℕ → Action World (Unit {0})
assert_delivery_evidence_ready order_id w =
    let proofs = select (λ (p : DeliveryProof). p.order_id == order_id) w.proofs in
    let signature_urls = dedup (flat_urls proofs) in
    let photo =
      ltb 0 (length signature_urls)
      && any (is_delivery_photo (map (λ (p : DeliveryProof). p.id) proofs) signature_urls)
          w.attachments in
    (do throw_if (length proofs == 0) bad_request; throw_if (not photo) bad_request) w
