-- ===== src/Lib.antt =====
-- A verification library for the NextStock backend: the rules that keep a shop's stock, orders
-- and payments right when several people work on them at once.
--
-- What is modelled, by file (paths are the repository's; the services are NestJS classes over a
-- PostgreSQL database):
-- - Store: the rows of prisma/schema.prisma that orders, sales and stock share, and the state
--   `Db` of the tables. A request's tenant and branch, which `TenantContextService` resolves, are
--   the record `Context`.
-- - Orders: src/orders/orders.service.ts and src/orders/order-status-transitions.ts. Status is
--   the transition table. Items groups and prices the requested items and computes the change of
--   stock of an edit; Stock is `applyStockDelta`; Create, Update and Lifecycle are the operations
--   (`create`, `update`, `updateStatus`, `deliver`, `cancel`, `remove`). Change says what one
--   request may do to the tables, and its children show it of each operation; Requests runs
--   requests one after the other, each of which is one transaction. Takes and Restores say what a
--   creation and a cancellation do to the stock, Payments what a payment makes of an order.
-- - Sales: `createFromOrder` of src/sales/sales.service.ts, which `updateStatus` calls for an
--   order that becomes paid; FromOrder is its transaction with the claim of the order, the race
--   branch, the unique index and the recovery from its violation, Payment the checks of the
--   payment machine and of the amount. Counter is the counter sale, `create`, with its items, the
--   discount (Counter/Discount) and the transaction (Counter/Create, with `cancel`), over the
--   numbers with decimals of src/products/quantity.util.ts (Numbers). Counter/Stock, Enough and
--   Priced say what the sale takes from the shelf, Limits what a discount may be, Asked what the
--   client asks for, and Promises what the sale does as a whole.
-- - Audit: src/audit/audit-outbox.service.ts. Outbox is the rows and `enqueue`, Worker the claims
--   under a lease, the delivery into the audit trail and the retries, Steps any sequence of
--   these. Candidates says which events a claim takes, Faithful, Deliveries and Trail that the
--   trail is what has been delivered, Settled, Progress and Repeats what becomes of an event.
-- - Billing: src/billing/billing-state-order.ts (StateOrder, which news of a payment counts),
--   src/billing/billing-entitlement.service.ts (Entitlement, who may use the product) and
--   src/billing/webhook.service.ts (Webhook, the inbox of the provider's notifications). Plans is
--   the policy of src/billing/server-usage-policy.ts, plan-change-eligibility.ts and
--   src/promotions/promotion-plan-change-policy.ts. Subscriptions is the rows of
--   src/billing/subscriptions.service.ts, with `cancelForTenant` up to the call of the provider
--   (Subscriptions/Cancel) and after it (Finish), and the two halves of a plan change
--   (PlanChange, Confirm). Newest is the checkout that a change is of. Claims, Exclusion and
--   Access say what a cancellation holds, whom it keeps out and what access it leaves; Upgrades,
--   ClaimChange, Pending and Confirms what a plan change asks for, what it keeps out and what its
--   confirmation does. Payments is `processVerifiedPayment` of src/billing/payments.service.ts
--   over the rows of Ledger: its reads, then its writes (Payments/Rows and Apply) with the
--   referral and the promotion (Referral) and the end of a period (Dates). Kept, States, Founded,
--   Refines and Receives relate the ledger to the order of states, Current says which news is of
--   the current period, PaidFor and Access what a payment makes of the access, Contention is the
--   loop of its 120 attempts.
-- - Storage: src/storage/upload-quota.service.ts. Quota is the rows, Quota/Reserve and
--   Quota/Settle the operations. Counters, Checks and Inserts say what the updates of the
--   counters do, Ledger and Balance relate the counters to the reservations, Totality shows that
--   a settlement goes through, and Steps runs any sequence of operations.
-- - Products: src/products/scale-barcode.util.ts. ScaleBarcode is the parser of scale labels,
--   Check its check digit, Formats the formats that are used, Labels what a label holds, and
--   RoundTrip reads a printed label back.
-- - Promotions: src/promotions/promotions.service.ts, with the link of a reservation of
--   src/billing/checkout.service.ts. Campaigns is the reservation of a place, Campaigns/Manage
--   what becomes of it and of its campaign. Places and Sound count the places, Reserves and Moves
--   say what each operation keeps, Paid the link to a checkout and the conversion by its payment,
--   Steps runs any sequence of operations.
-- - Tests: small tables of each part and the theorems at them.
--
-- How the code corresponds. A service method is a function from the state to a result, `err` for
-- the exception that it throws; a transaction that throws leaves the state as it was. A
-- conditional `updateMany` is a read of the row, a test of its `where` and a write; its `count`
-- is whether the test holds. Where a transaction reads a row and claims it later, the part after
-- the read is a function of its own that takes what was read, so that another transaction can
-- stand in between. So it is where a provider is called: one function stands before the call, and
-- another takes the answer. Times are milliseconds and come in as arguments, and so do the keys
-- of new rows. UUIDs are the numbers that they spell, so that their order is that of
-- `localeCompare` on them. JavaScript's `toLowerCase` and the arithmetic of doubles are
-- parameters. Money and quantities are natural numbers, a stock an integer, without the 32-bit
-- bound of their columns. The only definition with fuel is the loop of 120 attempts in
-- Billing/Payments/Contention, where the bound is the code's; every other loop runs over a list.
--
-- What is not modelled: reads that only answer (lists, receipts, the reply format), the HTTP
-- layer and its validation, the resolution of the tenant context, and the services that mostly
-- call other systems (payment gateways, fiscal documents, object storage, mail).
pub mod Prelude
pub mod Store
pub mod Orders
pub mod Sales
pub mod Audit
pub mod Storage
pub mod Billing
pub mod Products
pub mod Tests
pub mod Promotions
