-- ===== src/Products.antt =====
-- The codes of src/products that need no database.
pub mod ScaleBarcode
