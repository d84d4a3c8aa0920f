-- ===== src/Store.antt =====
-- The rows of the tables that orders, sales and stock share (prisma/schema.prisma), and the state
-- of the database that the services change. Keys are UUIDs, read as the numbers that they spell;
-- times are milliseconds; money is in cents.
use next_stock_oficial.Prelude.{ℕ, Bool, ◌&&◌, Option, List, is_none, ◌==◌}
use next_stock_oficial.Prelude.Int.{ℤ}
use next_stock_oficial.Prelude.Table.{Table}
use next_stock_oficial.Prelude.Text.{Text}
use next_stock_oficial.Orders.Status.{OrderStatus}

pub data Role : Type 0 where
  super_admin admin vendedor comprador : Role

-- What `TenantContextService.resolve` returns for a request, with `user?.id`.
pub record Context : Type 0 where
  pub user_id : ℕ
  pub actor_id : Option ℕ
  pub role : Role
  pub is_dev_super_admin : Bool
  pub tenant_id : ℕ
  pub branch_id : ℕ

pub data OrderPaymentMethod : Type 0 where
  pix cash credit_card debit_card other : OrderPaymentMethod

pub record Product : Type 0 where
  pub tenant_id : ℕ
  pub branch_id : ℕ
  pub name : Text
  pub sku : Option Text
  pub barcode : Option Text
  pub sale_price_cents : ℕ
  pub quantity : ℤ
  -- in millionths: the column has six decimals
  pub quantity_decimal : Option ℤ
  pub is_weighable : Bool

pub record OrderItem : Type 0 where
  pub product_id : ℕ
  pub product_name_snapshot : Text
  pub sku_snapshot : Option Text
  pub barcode_snapshot : Option Text
  pub quantity : ℕ
  pub unit_price_cents : ℕ
  pub total_price_cents : ℕ

pub record Order : Type 0 where
  pub version : ℕ
  pub tenant_id : ℕ
  pub branch_id : ℕ
  pub customer_name : Text
  pub customer_document : Option Text
  pub customer_phone : Option Text
  pub customer_email : Option Text
  pub payment_method : OrderPaymentMethod
  pub status : OrderStatus
  pub subtotal_cents : ℕ
  pub discount_cents : ℕ
  pub total_cents : ℕ
  pub notes : Option Text
  pub delivered_at : Option ℕ
  pub canceled_at : Option ℕ
  pub cancellation_reason : Option Text
  pub created_by_id : Option ℕ
  pub updated_by_id : Option ℕ
  pub deleted_at : Option ℕ
  pub stock_restored_at : Option ℕ
  pub items : List OrderItem

pub data SaleStatus : Type 0 where
  pending paid canceled refunded : SaleStatus

-- quantities are in whole units and in millionths of a unit
pub record SaleItem : Type 0 where
  pub product_id : Option ℕ
  pub is_miscellaneous : Bool
  pub product_name_snapshot : Text
  pub sku_snapshot : Option Text
  pub barcode_snapshot : Option Text
  pub quantity : ℕ
  pub quantity_decimal : Option ℕ
  pub unit_price_cents : ℕ
  pub total_price_cents : ℕ

pub data SaleSource : Type 0 where
  cash_register order : SaleSource

pub data SaleDiscountType : Type 0 where
  percentage fixed : SaleDiscountType

pub record Sale : Type 0 where
  pub tenant_id : ℕ
  pub branch_id : ℕ
  pub order_id : Option ℕ
  pub source : SaleSource
  pub idempotency_key : Option ℕ
  pub seller_id : ℕ
  pub payment_method : OrderPaymentMethod
  pub payment_machine_id : Option ℕ
  pub status : SaleStatus
  pub subtotal_cents : ℕ
  pub discount_type : Option SaleDiscountType
  pub discount_cents : ℕ
  pub total_cents : ℕ
  pub paid_cents : ℕ
  pub change_cents : ℕ
  pub canceled_at : Option ℕ
  pub canceled_by_id : Option ℕ
  pub cancellation_reason : Option Text
  pub deleted_at : Option ℕ
  pub items : List SaleItem

pub record PaymentMachine : Type 0 where
  pub tenant_id : ℕ
  pub branch_id : ℕ
  pub is_active : Bool
  pub deleted_at : Option ℕ

-- the events that the order service writes to `securityAuditEvent`
pub data AuditMetadata : Type 0 where
  order_admin_updated : ℕ → ℕ → AuditMetadata
  order_delivered order_admin_canceled : ℕ → AuditMetadata

pub record AuditEvent : Type 0 where
  pub actor_profile_id : Option ℕ
  pub actor_role : Role
  pub tenant_id : ℕ
  pub branch_id : ℕ
  pub target_id : ℕ
  pub metadata : AuditMetadata

pub record Db : Type 0 where
  pub orders : Table Order
  pub products : Table Product
  pub sales : Table Sale
  pub machines : Table PaymentMachine
  pub audit : List AuditEvent

-- `where: { tenantId, branchId }` on a row
abbrev pub in_scope : Context → ℕ → ℕ → Bool
in_scope ctx tenant_id branch_id = tenant_id == ctx.tenant_id && branch_id == ctx.branch_id

-- `where: { tenantId, branchId, deletedAt: null }` on an order
abbrev pub order_in_scope : Context → Order → Bool
order_in_scope ctx o = in_scope ctx o.tenant_id o.branch_id && is_none o.deleted_at

-- the same on a sale
abbrev pub sale_in_scope : Context → Sale → Bool
sale_in_scope ctx s = in_scope ctx s.tenant_id s.branch_id && is_none s.deleted_at
