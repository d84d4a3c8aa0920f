-- ===== src/Tests/Shop.antt =====
-- A small shop: two products, one of them of another branch, and no orders yet.
use next_stock_oficial.Prelude.{
  ℕ, false, map, none, some, [], ◌∷◌, arith, leb, ◌&&◌, ◌+◌, if◌then◌else◌,
}
use next_stock_oficial.Prelude.Int.{pos}
use next_stock_oficial.Prelude.Table.{get}
use next_stock_oficial.Prelude.Text.{Text}
use next_stock_oficial.Store.{Context, Db, Product, Role}
use next_stock_oficial.Orders.Items.{ItemRequest}
use next_stock_oficial.Orders.Create.{CreateOrder}
use next_stock_oficial.Orders.Requests.Invariants.{IsValid}

-- `toLowerCase`, on ASCII letters
abbrev pub lower : Text → Text
lower s = map (λ c. if leb b'A' c && leb c b'Z' then c + 32 else c) s

abbrev pub clerk : Context
clerk = record {
  user_id = 5;
  actor_id = some 5;
  role = Role.vendedor;
  is_dev_super_admin = false;
  tenant_id = 1;
  branch_id = 2;
}

abbrev pub soap : Product
soap = record {
  tenant_id = 1;
  branch_id = 2;
  name = b's' ∷ [];
  sku = none;
  barcode = none;
  sale_price_cents = 250;
  quantity = pos 10;
  quantity_decimal = none;
  is_weighable = false;
}

abbrev pub shop : Db
shop = record {
  orders = [];
  products = (7, soap) ∷ (8, record soap { branch_id = 3; quantity = pos 4 }) ∷ [];
  sales = [];
  machines = [];
  audit = [];
}

pub shop-IsValid : IsValid shop
unfolding get
shop-IsValid = record {
  stocked = record { at = λ p. ground arith };
  priced = λ id o h. cc;
  consistent = record { at = λ id o h. cc };
}

abbrev pub soaps : ℕ → ItemRequest
soaps n = record { product_id = 7; quantity = n }

abbrev pub three_soaps : CreateOrder
three_soaps = record {
  customer_name = b' ' ∷ b'A' ∷ [];
  customer_document = none;
  customer_phone = none;
  customer_email = some (b'A' ∷ []);
  payment_method = none;
  discount_cents = some 50;
  notes = none;
  items = soaps 1 ∷ soaps 2 ∷ [];
}
