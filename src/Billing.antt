-- ===== src/Billing.antt =====
-- src/billing: the order of a payment's states, who may use the product, the provider's
-- notifications, the changes of a subscription and its payments.
pub mod StateOrder
pub mod Entitlement
pub mod Webhook
pub mod Plans
pub mod Subscriptions
pub mod Ledger
pub mod Payments
