-- ===== src/Tests/Data.antt =====
-- The rows that the examples run on.
use transport_api.Common.{[], false, none, some, true, ℕ, ◌∷◌}
use transport_api.Common.Int.{pos}
use transport_api.Domain.{
  AssignmentStatus, OfferMode, OfferStatus, OrderCancellation, PaymentMethod, PaymentStatus,
  PaymentsRefundStatus, ReservationsStatus, Role, ServiceType, StatusDriver, StatusOrders,
  TrackingSessions, TypeCustomer, VerificationStatus,
}
use transport_api.Orders.Cancel.{CancelPlan, settlement_input}
use transport_api.Orders.Settlement.{SettlementInput}
use transport_api.World.{AuthenticatedUser, Payment, RateRule, Refund, TransportOrder, World}

abbrev pub rider : AuthenticatedUser
rider = record { id = 7; roles = Role.customer ∷ [] }

abbrev pub courier : AuthenticatedUser
courier = record { id = 8; roles = Role.driver ∷ [] }

abbrev pub clerk : AuthenticatedUser
clerk = record { id = 9; roles = Role.operator ∷ [] }

abbrev pub accepted_order : TransportOrder
accepted_order = record {
  id = 1;
  customer_id = 3;
  quote_id = none;
  vehicle_category_id = 4;
  service_type = ServiceType.scheduled;
  status = StatusOrders.accepted;
  schedule_at = some 900;
  pickup_at = none;
  delivered_at = none;
  total_amount = some 7000;
  payment_status = PaymentStatus.paid;
}

abbrev pub rule : RateRule
rule = record {
  id = 5;
  vehicle_category_id = 4;
  cancellation_fee = pos 1500;
  created_at = 10;
  card_is_active = true;
  card_valid_from = 0;
  card_valid_to = none;
  card_priority = pos 1;
}

abbrev pub payment : ℕ → ℕ → PaymentMethod → PaymentStatus → Payment
payment id amount method status = record {
  id = id;
  order_id = 1;
  customer_id = 3;
  amount = amount;
  payment_method = method;
  status = status;
  cardnet = none;
}

-- An accepted order with a paid card payment, a card authorization and an attempt in flight.
abbrev pub busy_world : World
busy_world = record {
  now = 500;
  next_id = 100;
  customers = record { id = 3; user_id = 7; customer_type = TypeCustomer.business } ∷ [];
  drivers =
      record {
        id = 6;
        user_id = 8;
        availability_status = StatusDriver.busy;
        verification_status = VerificationStatus.approved;
        license_expiration = 9000;
      }
      ∷ [];
  vehicles = [];
  orders = accepted_order ∷ [];
  categories = [];
  quotes = [];
  rate_rules = rule ∷ [];
  assignments =
      record {
        id = 20;
        order_id = 1;
        driver_id = 6;
        vehicle_id = 30;
        assigned_by = none;
        assignment_status = AssignmentStatus.accepted;
        accepted_at = some 400;
        rejected_at = none;
      }
      ∷ [];
  offers =
      record {
        id = 40;
        order_id = 1;
        driver_id = 6;
        vehicle_id = 30;
        mode = OfferMode.auto;
        status = OfferStatus.pending;
        expires_at = some 600;
        responded_at = none;
        actor_user_id = none;
        assignment_id = none;
      }
      ∷ [];
  reservations =
      record {
        id = 50;
        order_id = 1;
        reserved_for = 900;
        reservation_status = ReservationsStatus.active;
        reschedule_count = 0;
        cancellation_deadline = 450;
      }
      ∷ [];
  tracking =
      record { id = 60; order_id = 1; status = TrackingSessions.active; ended_at = none } ∷ [];
  payments =
      payment 13 800 PaymentMethod.card PaymentStatus.processing
      ∷ payment 12 2000 PaymentMethod.card PaymentStatus.authorized
      ∷ payment 11 5000 PaymentMethod.card PaymentStatus.paid
      ∷ [];
  transactions = [];
  refunds = [];
  credit_accounts = [];
  credit_movements = [];
  cancellations = [];
  proofs = record { id = 70; order_id = 1; signature_urls = 1 ∷ [] } ∷ [];
  attachments =
      record { entity_id = 70; is_image = true; named_signature = false; file_url = 2 } ∷ [];
  events = [];
  audits = [];
  emitted = [];
}

-- The trip failed.
abbrev pub failed_order : TransportOrder
failed_order = record accepted_order { status = StatusOrders.failed }

abbrev pub failed_world : World
failed_world = record busy_world { orders = failed_order ∷ [] }

-- The trip started while the customer was cancelling.
abbrev pub started_world : World
started_world = record busy_world {
  orders = record accepted_order { status = StatusOrders.in_progress } ∷ [];
}

-- What the checks of the customer's cancellation hand on.
abbrev pub rider_plan : CancelPlan
rider_plan = record {
  order_id = 1;
  status = StatusOrders.accepted;
  cancellation_type = OrderCancellation.customer_cancelled;
  rule_fee = pos 1500;
  past_cancellation_deadline = true;
}

abbrev pub rider_settlement : SettlementInput
rider_settlement = settlement_input rider_plan

abbrev pub pending_refund : Refund
pending_refund = record {
  id = 90;
  payment_id = 11;
  order_id = 1;
  amount = 3000;
  status = PaymentsRefundStatus.pending;
  provider_reference = none;
}

abbrev pub refunding_world : World
refunding_world = record busy_world { refunds = pending_refund ∷ [] }
