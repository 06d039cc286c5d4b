-- ===== src/Domain.antt =====
-- The enumerations of prisma/schema.prisma that the modelled handlers test, and the identity tests
-- that the code writes `===` for.
use transport_api.Common.{ℕ, ◌≡◌, refl, Bool, true, false, List, [], ◌∷◌, ◌==◌, ◌||◌, arith}

pub data Role : Type 0 where
  admin operator driver customer : Role

pub data TypeCustomer : Type 0 where
  individual business : TypeCustomer

pub data CreditAccountStatus : Type 0 where
  pending active blocked rejected closed : CreditAccountStatus

pub data PaymentsTransactionsStatus : Type 0 where
  pending success failed : PaymentsTransactionsStatus

pub data StatusAccount : Type 0 where
  active inactive blocked : StatusAccount

pub data StatusDriver : Type 0 where
  available busy offline suspended vacation : StatusDriver

pub data VerificationStatus : Type 0 where
  pending approved rejected : VerificationStatus

pub data StatusVehicle : Type 0 where
  active maintenance inactive suspended : StatusVehicle

pub data ServiceType : Type 0 where
  inmediate scheduled : ServiceType

pub data StatusOrders : Type 0 where
  draft pending_quote pending_customer_confirmation pending_payment : StatusOrders
  confirmed assigning_driver requested assigned accepted : StatusOrders
  in_progress delivered cancelled failed : StatusOrders

pub data QuoteStatus : Type 0 where
  draft provisional calculated sent accepted rejected expired replaced : QuoteStatus

pub data PaymentStatus : Type 0 where
  pending processing authorized paid refunded failed cancelled expired : PaymentStatus

pub data PaymentMethod : Type 0 where
  card cash transfer wallet check corporate_credit : PaymentMethod

pub data PaymentTransactionsType : Type 0 where
  authorization capture refund void cancellation_fee : PaymentTransactionsType

pub data PaymentsRefundStatus : Type 0 where
  pending success failed : PaymentsRefundStatus

pub data AssignmentStatus : Type 0 where
  pending accepted rejected cancelled completed : AssignmentStatus

pub data OfferStatus : Type 0 where
  pending accepted rejected expired cancelled : OfferStatus

pub data OfferMode : Type 0 where
  manual auto : OfferMode

pub data EventType : Type 0 where
  created assigned accepted picked_up in_transit arrived : EventType
  delivered cancelled incident_reported : EventType

pub data ReservationsStatus : Type 0 where
  active reschuduled cancelled expired completed : ReservationsStatus

pub data OrderCancellation : Type 0 where
  customer_cancelled driver_cancelled admin_cancelled system_cancelled : OrderCancellation

pub data TrackingSessions : Type 0 where
  active ended interrupted : TrackingSessions

abbrev role_tag : Role → ℕ
role_tag Role.admin = 0
role_tag Role.operator = 1
role_tag Role.driver = 2
role_tag Role.customer = 3

abbrev status_tag : StatusOrders → ℕ
status_tag StatusOrders.draft = 0
status_tag StatusOrders.pending_quote = 1
status_tag StatusOrders.pending_customer_confirmation = 2
status_tag StatusOrders.pending_payment = 3
status_tag StatusOrders.confirmed = 4
status_tag StatusOrders.assigning_driver = 5
status_tag StatusOrders.requested = 6
status_tag StatusOrders.assigned = 7
status_tag StatusOrders.accepted = 8
status_tag StatusOrders.in_progress = 9
status_tag StatusOrders.delivered = 10
status_tag StatusOrders.cancelled = 11
status_tag StatusOrders.failed = 12

abbrev assignment_tag : AssignmentStatus → ℕ
assignment_tag AssignmentStatus.pending = 0
assignment_tag AssignmentStatus.accepted = 1
assignment_tag AssignmentStatus.rejected = 2
assignment_tag AssignmentStatus.cancelled = 3
assignment_tag AssignmentStatus.completed = 4

-- `a === b` on roles, order statuses and assignment statuses
abbrev pub same_role : Role → Role → Bool
same_role a b = role_tag a == role_tag b

abbrev pub same_status : StatusOrders → StatusOrders → Bool
same_status a b = status_tag a == status_tag b

abbrev pub same_service : ServiceType → ServiceType → Bool
same_service ServiceType.inmediate ServiceType.inmediate = true
same_service ServiceType.scheduled ServiceType.scheduled = true
same_service _ _ = false

abbrev pub same_assignment : AssignmentStatus → AssignmentStatus → Bool
same_assignment a b = assignment_tag a == assignment_tag b

pub same_status-eq : (a b : StatusOrders) → same_status a b ≡ true → a ≡ b
same_status-eq a b h = ground arith

pub same_assignment-eq : (a b : AssignmentStatus) → same_assignment a b ≡ true → a ≡ b
same_assignment-eq a b h = ground arith

pub same_status_refl : (a : StatusOrders) → same_status a a ≡ true
same_status_refl StatusOrders.draft = refl
same_status_refl _ = refl

-- `roles.includes(role)`
abbrev pub includes : Role → List Role → Bool
includes r [] = false
includes r (x ∷ xs) = same_role x r || includes r xs
