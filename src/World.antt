-- ===== src/World.antt =====
-- The rows that the handlers read and write (prisma/schema.prisma), and the state that they share.
-- Identifiers are numbers, which are only compared. Money is in whole cents and time in
-- milliseconds. Columns that no modelled decision reads, free text above all, are left out.
use transport_api.Common.{Bool, List, Option, find_first, ℕ, ◌==◌, ◌∷◌}
use transport_api.Common.Int.{ℤ}
use transport_api.Domain.{
  AssignmentStatus, CreditAccountStatus, EventType, OfferMode, OfferStatus, OrderCancellation,
  PaymentMethod, PaymentStatus, PaymentTransactionsType, PaymentsRefundStatus,
  PaymentsTransactionsStatus, QuoteStatus, ReservationsStatus, Role, ServiceType, StatusDriver,
  StatusOrders, StatusVehicle, TrackingSessions, TypeCustomer, VerificationStatus,
}

-- The caller, as the authentication guard passes it on.
pub record AuthenticatedUser : Type 0 where
  pub id : ℕ
  pub roles : List Role

pub record CustomerProfile : Type 0 where
  pub id : ℕ
  pub user_id : ℕ
  pub customer_type : TypeCustomer

pub record DriverProfile : Type 0 where
  pub id : ℕ
  pub user_id : ℕ
  pub availability_status : StatusDriver
  pub verification_status : VerificationStatus
  pub license_expiration : ℕ

pub record Vehicle : Type 0 where
  pub id : ℕ
  pub driver_id : ℕ
  pub status : StatusVehicle
  pub category_id : ℕ

pub record TransportOrder : Type 0 where
  pub id : ℕ
  pub customer_id : ℕ
  pub quote_id : Option ℕ
  pub vehicle_category_id : ℕ
  pub service_type : ServiceType
  pub status : StatusOrders
  pub schedule_at : Option ℕ
  pub pickup_at : Option ℕ
  pub delivered_at : Option ℕ
  pub total_amount : Option ℕ
  pub payment_status : PaymentStatus

pub record VehicleCategory : Type 0 where
  pub id : ℕ
  pub max_weight_kg : ℕ
  pub max_volumen_m3 : ℕ

pub record Coordinates : Type 0 where
  pub latitude : ℤ
  pub longitude : ℤ

-- `breakdown.route`, by its two ends
pub record QuotedRoute : Type 0 where
  pub origin : Coordinates
  pub destination : Coordinates

-- Of the quote's `breakdown`, the keys `rateRuleId`, `route` and `requireHelper` are read.
pub record PriceQuote : Type 0 where
  pub id : ℕ
  pub customer_id : ℕ
  pub order_id : Option ℕ
  pub vehicle_category_id : ℕ
  pub total_amount : ℕ
  pub quote_status : QuoteStatus
  pub rate_rule_id : Option ℕ
  pub route : Option QuotedRoute
  pub require_helper : Bool
  pub expires_at : ℕ

-- A rate rule with the columns of its rate card that its use depends on.
pub record RateRule : Type 0 where
  pub id : ℕ
  pub vehicle_category_id : ℕ
  pub cancellation_fee : ℤ
  pub created_at : ℕ
  pub card_is_active : Bool
  pub card_valid_from : ℕ
  pub card_valid_to : Option ℕ
  pub card_priority : ℤ

pub record OrderAssignment : Type 0 where
  pub id : ℕ
  pub order_id : ℕ
  pub driver_id : ℕ
  pub vehicle_id : ℕ
  pub assigned_by : Option ℕ
  pub assignment_status : AssignmentStatus
  pub accepted_at : Option ℕ
  pub rejected_at : Option ℕ

pub record DriverOffer : Type 0 where
  pub id : ℕ
  pub order_id : ℕ
  pub driver_id : ℕ
  pub vehicle_id : ℕ
  pub mode : OfferMode
  pub status : OfferStatus
  pub expires_at : Option ℕ
  pub responded_at : Option ℕ
  pub actor_user_id : Option ℕ
  pub assignment_id : Option ℕ

pub record Reservation : Type 0 where
  pub id : ℕ
  pub order_id : ℕ
  pub reserved_for : ℕ
  pub reservation_status : ReservationsStatus
  pub reschedule_count : ℕ
  pub cancellation_deadline : ℕ

pub record TrackingSession : Type 0 where
  pub id : ℕ
  pub order_id : ℕ
  pub status : TrackingSessions
  pub ended_at : Option ℕ

-- The columns that a payment of the provider CardNET has, and no other; the order's code, which
-- CardNET repeats, stands by the order's id.
pub record CardnetColumns : Type 0 where
  pub transaction_id : ℕ
  pub session_id : Option ℕ
  pub has_session_key : Bool
  pub expires_at : Option ℕ

pub record Payment : Type 0 where
  pub id : ℕ
  pub order_id : ℕ
  pub customer_id : ℕ
  pub amount : ℕ
  pub payment_method : PaymentMethod
  pub status : PaymentStatus
  pub cardnet : Option CardnetColumns

pub record PaymentTransaction : Type 0 where
  pub payment_id : ℕ
  pub transaction_type : PaymentTransactionsType
  pub amount : ℕ
  pub status : PaymentsTransactionsStatus

pub record Refund : Type 0 where
  pub id : ℕ
  pub payment_id : ℕ
  pub order_id : ℕ
  pub amount : ℕ
  pub status : PaymentsRefundStatus
  pub provider_reference : Option ℕ

pub record CustomerCreditAccount : Type 0 where
  pub id : ℕ
  pub customer_id : ℕ
  pub status : CreditAccountStatus
  pub credit_limit : ℕ
  pub balance_used : ℤ

pub record CustomerCreditMovement : Type 0 where
  pub credit_account_id : ℕ
  pub order_id : ℕ
  pub payment_id : ℕ
  pub amount : ℕ
  pub balance_after : ℤ

pub record CancellationRow : Type 0 where
  pub order_id : ℕ
  pub cancelled_by : ℕ
  pub cancellation_type : OrderCancellation
  pub fee_applied : Bool
  pub fee_amount : ℕ
  pub refund_amount : ℕ

-- A delivery proof with the urls of its signatures.
pub record DeliveryProof : Type 0 where
  pub id : ℕ
  pub order_id : ℕ
  pub signature_urls : List ℕ

-- `is_image` is `mimeType` starting with `image/`, and `named_signature` is `fileName` holding
-- "signature" in any case; `entity_id` is that of a delivery proof.
pub record Attachment : Type 0 where
  pub entity_id : ℕ
  pub is_image : Bool
  pub named_signature : Bool
  pub file_url : ℕ

pub record OrderEvent : Type 0 where
  pub order_id : ℕ
  pub event_type : EventType
  pub actor_user_id : ℕ

-- The audit actions that the modelled handlers record, with the row that each is about.
pub data Audit : Type 0 where
  order_soft_deleted refund_requested refund_completed refund_failed : ℕ → Audit

-- What leaves the process: websocket events and notifications, in no decision of the code.
pub data Emit : Type 0 where
  order_status_changed : ℕ → StatusOrders → StatusOrders → List ℕ → Emit
  order_created : ℕ → ℕ → Emit
  order_status_announced : ℕ → StatusOrders → Emit
  order_room_revoked : ℕ → ℕ → Emit
  offer_updated : ℕ → OfferStatus → Emit
  assignment_created : ℕ → Emit
  dispatch_triggered : ℕ → Emit
  operators_notified customer_notified driver_notified : ℕ → Emit
  presence_removed : ℕ → Emit

pub record World : Type 0 where
  pub now : ℕ
  pub next_id : ℕ
  pub customers : List CustomerProfile
  pub drivers : List DriverProfile
  pub vehicles : List Vehicle
  pub orders : List TransportOrder
  pub categories : List VehicleCategory
  pub quotes : List PriceQuote
  pub rate_rules : List RateRule
  pub assignments : List OrderAssignment
  pub offers : List DriverOffer
  pub reservations : List Reservation
  pub tracking : List TrackingSession
  pub payments : List Payment
  pub transactions : List PaymentTransaction
  pub refunds : List Refund
  pub credit_accounts : List CustomerCreditAccount
  pub credit_movements : List CustomerCreditMovement
  pub cancellations : List CancellationRow
  pub proofs : List DeliveryProof
  pub attachments : List Attachment
  pub events : List OrderEvent
  pub audits : List Audit
  pub emitted : List Emit

-- `findUnique({ where: { id } })` on the orders
abbrev pub order_of : ℕ → World → Option TransportOrder
order_of id w = find_first (λ (o : TransportOrder). o.id == id) w.orders

abbrev pub add_event : ℕ → EventType → ℕ → World → World
add_event order type actor w = record w {
  events = record { order_id = order; event_type = type; actor_user_id = actor } ∷ w.events;
}

abbrev pub emit : Emit → World → World
emit e w = record w { emitted = e ∷ w.emitted }
