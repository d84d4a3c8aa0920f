-- ===== src/Orders/Update.antt =====
-- `update` of src/orders/orders.service.ts: an edit claims the version that the client has seen,
-- and reads the order again under that claim.
use next_stock_oficial.Prelude.{
  ℕ, ◌+◌, ◌-◌, min, max, Bool, false, ◌&&◌, ◌||◌, Option, none, some, List, [], ◌∷◌, ◌++◌,
  or_default, is_some, ◌==◌, if◌then◌else◌,
}
use next_stock_oficial.Prelude.Result.{Result, ok, err, ◌>>=◌, ◌>>◌, throw_if}
use next_stock_oficial.Prelude.Table.{get, put, matching}
use next_stock_oficial.Prelude.Text.{Text, trim}
use next_stock_oficial.Store.{Context, Db, Order, OrderPaymentMethod, AuditMetadata, order_in_scope}
use next_stock_oficial.Orders.Status.{OrderStatus, paid, canceled, refunded, delivered, status_eq}
use next_stock_oficial.Orders.Errors.{
  OrderError, order_final, order_already_delivered, version_conflict,
}
use next_stock_oficial.Orders.Items.{
  ItemRequest, normalize_items, load_priced_items, build_stock_diff,
}
use next_stock_oficial.Orders.Stock.{apply_stock_delta}
use next_stock_oficial.Orders.Create.{clean, clean_email, find_scoped_order, subtotal_of}

-- UpdateOrderDto; `none` is `undefined`
pub record UpdateOrder : Type 0 where
  pub expected_version : ℕ
  pub customer_name : Option Text
  pub customer_document : Option Text
  pub customer_phone : Option Text
  pub customer_email : Option Text
  pub payment_method : Option OrderPaymentMethod
  pub discount_cents : Option ℕ
  pub notes : Option Text
  pub items : Option (List ItemRequest)

-- FINAL_STATUSES
abbrev pub is_final : OrderStatus → Bool
is_final s = status_eq s paid || status_eq s canceled || status_eq s refunded

unfoldable pub assert_mutable : Order → Result OrderError (Unit {0})
assert_mutable order = do
  throw_if (is_final order.status) order_final
  throw_if (status_eq order.status delivered) order_already_delivered

-- `securityAuditEvent.create`
abbrev pub log_event : Context → ℕ → AuditMetadata → Db → Db
log_event ctx id metadata db = record db {
  audit =
      db.audit
      ++ (record {
        actor_profile_id = ctx.actor_id;
        actor_role = ctx.role;
        tenant_id = ctx.tenant_id;
        branch_id = ctx.branch_id;
        target_id = id;
        metadata = metadata;
      })
        ∷ [];
}

-- the claim: `updateMany({ where: { ..., version: expectedVersion }, data: { version: +1 } })`
unfoldable pub claim_version : Context → ℕ → ℕ → Db → Result OrderError Db
claim_version ctx id expected_version db =
    elim (matching (λ o. order_in_scope ctx o && o.version == expected_version)
      (get id db.orders)) [
        | none ↦ err version_conflict
        | some o ↦
            ok (record db { orders = put id (record o { version = o.version + 1 }) db.orders })
      ]

-- the money fields of an edit
abbrev pub with_totals : ℕ → ℕ → Order → Order
with_totals subtotal_cents discount_cents o = record o {
  subtotal_cents = subtotal_cents;
  discount_cents = discount_cents;
  total_cents = max (subtotal_cents - discount_cents) 0;
}

-- A new list of items replaces the old one, and the stock moves by the difference.
unfoldable pub replace_items :
    Context → UpdateOrder → List ItemRequest → Order → Db → Result OrderError (Order × Db)
replace_items ctx dto requests order db = do
  priced ← load_priced_items ctx db.products false (normalize_items requests)
  products ← apply_stock_delta ctx (build_stock_diff order.items priced) db.products
  let subtotal_cents = subtotal_of priced
  let discount_cents = min (or_default dto.discount_cents order.discount_cents) subtotal_cents
  let edited = with_totals subtotal_cents discount_cents order
  ok (record edited { items = priced }, record db { products = products })

-- Without new items only a new discount changes the money.
unfoldable pub rediscount : UpdateOrder → Order → Order
rediscount dto order = elim dto.discount_cents [
  | none ↦ order
  | some d ↦ record order {
    discount_cents = min d order.subtotal_cents;
    total_cents = max (order.subtotal_cents - min d order.subtotal_cents) 0;
  }
]

unfoldable pub edit_items : Context → UpdateOrder → Order → Db → Result OrderError (Order × Db)
unfolding replace_items rediscount
edit_items ctx dto order db = elim dto.items [
  | none ↦ ok (rediscount dto order, db)
  | some requests ↦ replace_items ctx dto requests order db
]

-- a field that the request leaves undefined stays
abbrev keep {ℓ} : {A B : Type ℓ} → Option A → (A → B) → B → B
keep none f old = old
keep (some a) f old = f a

module _ (to_lower : Text → Text) where
  -- `buildUpdateData`, applied to the row
  unfoldable pub apply_update_data : Context → UpdateOrder → Order → Order
  apply_update_data ctx dto o = record o {
    updated_by_id = if is_some ctx.actor_id then ctx.actor_id else o.updated_by_id;
    customer_name = keep dto.customer_name trim o.customer_name;
    customer_document = keep dto.customer_document (λ s. clean (some s)) o.customer_document;
    customer_phone = keep dto.customer_phone (λ s. clean (some s)) o.customer_phone;
    customer_email = keep dto.customer_email (λ s. clean_email to_lower (some s)) o.customer_email;
    payment_method = or_default dto.payment_method o.payment_method;
    notes = keep dto.notes (λ s. clean (some s)) o.notes;
  }

  -- The transaction from its claim on.
  unfoldable pub update_claimed : Context → ℕ → UpdateOrder → Db → Result OrderError Db
  unfolding claim_version edit_items apply_update_data assert_mutable
  update_claimed ctx id dto db = do
    claimed ← claim_version ctx id dto.expected_version db
    order ← find_scoped_order ctx id claimed
    assert_mutable order
    edited ← edit_items ctx dto order claimed
    let row = apply_update_data ctx dto edited.0
    let metadata = AuditMetadata.order_admin_updated dto.expected_version (dto.expected_version + 1)
    ok (log_event ctx id metadata (record (edited.1) { orders = put id row edited.1.orders }))

  unfoldable pub update : Context → ℕ → UpdateOrder → Db → Result OrderError Db
  unfolding update_claimed
  update ctx id dto db = do
    existing ← find_scoped_order ctx id db
    assert_mutable existing
    update_claimed ctx id dto db
