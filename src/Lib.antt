-- ===== src/Lib.antt =====
-- The transport API, the NestJS backend of a trucking marketplace: how an order is made from a
-- quote, changes its status, is paid, cancelled and settled, what the customer is shown, how refunds
-- are recorded, how drivers are ranked, offered and assigned an order, and how login sessions are
-- refreshed and revoked.
--
-- Parts of the program and the files that model them (paths from the root of the repository):
--   * src/modules/transport/orders/orders.service.ts, class OrdersService. Orders/Transitions has
--     STATUS_TRANSITIONS and assertStatusTransition, Orders/Access the checks of who may read or
--     act, Orders/Closing what closing an order releases (releaseOrderDrivers,
--     closeOrderReservations, cancelOpenOffers, revokeOrderRooms), Orders/Settlement the money of
--     an order that ends undelivered (settleClosedOrderPayments, releaseCorporateCredit),
--     Orders/Trip assertOrderMatchesQuote and assertVehicleCategoryCapacity, Orders/Create the handler
--     create with claimQuote, Orders/Views findOne, findAvailableForDrivers and accept, Orders/Cancel
--     the handler cancel, and Orders/Status updateStatus and confirmByCustomer.
--   * src/modules/transport/orders/cancellation-policy.ts is Orders/Policy, and cancellationFeeFor
--     of src/modules/transport/pricing/pricing.service.ts stands in Orders/Closing.
--   * src/modules/transport/pricing/demand-bands.ts is Pricing/Bands.
--   * src/modules/billing/cancellation-fees/cancellation-fees.service.ts is Orders/FeePreview.
--   * src/modules/billing/refunds/refunds.service.ts is Refunds.
--   * src/modules/operations/assignments/assignments.service.ts is Assignments (create, claimOrder)
--     and Assignments/Decisions (accept, reject, complete); the hooks that the offers pass to
--     claimOrder are a record of actions, ClaimHooks.
--   * src/modules/operations/offers is Offers: offers.service.ts (Offers has the state and offerNext,
--     Offers/Answers accept, reject and the rest of one offer's life, Offers/Manual manualAssign,
--     Offers/Sweep the sweep and the payment hook), offer-scheduler.service.ts and
--     offer.processor.ts. Offers/Machine is the step relation that the requests implement.
--   * src/modules/operations/matching: matching.service.ts and scoring.ts are Matching and
--     Matching/Ranking. The offers know the service by the record Matching, with its one operation
--     rankForOrder; matching_service fills it.
--   * src/modules/billing/payments/payments.service.ts is Payments (the shared reads and
--     syncOrderAfterPayment), Payments/Manual (checks, corporate credit, updateStatus),
--     Payments/Cardnet (the answers of the gateway) and Payments/Checkout (create and
--     createCardnetSession).
--   * src/modules/identity/sessions is Sessions: sessions.service.ts, sessions.repository.ts,
--     token.service.ts, session-revocation.ts and strategies/jwt.strategy.ts. The signing library
--     and SHA-256 are the parameter TokenLibrary; Sessions/Requests runs the requests in any order.
--   * prisma/schema.prisma: its enums are in Domain, the rows of its models in World.
--
-- The parts that deal with orders share one database. World is its state as far as the modelled
-- code reads and writes it: one list of rows for each table, the newest row first, and `emitted`,
-- the websocket events and notifications that leave the process. The sessions touch no other table
-- and have a store of their own, SessionStore. The offers add to the World what they keep in Redis
-- and in the queue, in the record Dispatch: the armed flag, the cooldowns and the jobs. What is
-- asked of CardNet is the parameter CardnetGateway or PaymentProvider, and what matching reads of
-- presence, Google and the score is MatchingEnv. A handler is an Action (Common/Action): it takes the
-- World and returns a result or an error code together with the new World; `transaction` is
-- prisma.$transaction, which rolls back on a throw. Where the code reads, then runs a transaction,
-- and then announces, the model has the three parts as definitions of their own, so that a theorem
-- can place another request between them (commit_cancel on a World other than plan_cancel's). A
-- Prisma `where` is a Boolean test on rows, and updateMany and its count are update_where and
-- count_where (Common/Rows).
--
-- Conventions. Identifiers are numbers, which the code only compares. Money is in whole cents, on
-- which roundMoney and toFixed(2) do nothing; a balance and a configured fee may be negative (ℤ).
-- Time is in milliseconds, and one request runs at one instant, `now`. Free text (reasons, notes,
-- descriptions) is left out where no decision reads it. Loops run over the list of rows that they
-- were given, by structural recursion, so that no fuel is needed.
--
-- Not modelled: the HTTP layer and its validation, Prisma itself, logging, rendering of the rows
-- that are returned, failures of Redis and of the queue, and the retries of notifications, which
-- cannot fail a request. Of matching, the score, which is floating point, and the list of excluded
-- drivers. Quoting, the orders that the TMS creates, users and customers, presence,
-- the rescheduling of reservations and tracking are not modelled beyond the rows that the code above
-- touches.
pub mod Common
pub mod Domain
pub mod World
pub mod Orders
pub mod Pricing
pub mod Refunds
pub mod Payments
pub mod Assignments
pub mod Offers
pub mod Matching
pub mod Sessions
pub mod Tests
