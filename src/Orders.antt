-- ===== src/Orders.antt =====
-- src/orders/: the orders of a branch, their items, their status and the stock that they hold.
pub mod Status
pub mod Errors
pub mod Items
pub mod Stock
pub mod Create
pub mod Update
pub mod Lifecycle
pub mod Units
pub mod Change
pub mod Requests
pub mod Takes
pub mod Restores
pub mod Payments
