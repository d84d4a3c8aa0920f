-- ===== src/Sales.antt =====
-- The operations of src/sales/sales.service.ts.
pub mod Errors
pub mod Numbers
pub mod Payment
pub mod FromOrder
pub mod Counter
