-- ===== src/Tests.antt =====
-- The theorems at concrete inputs.
mod Shop
mod Orders
mod Counter
mod Products
mod Billing
mod Subscriptions
mod Payments
mod Promotions
mod Audit
mod Storage
