-- ===== src/Orders/Change/Created.antt =====
-- `create` adds one order, and takes its units from the shelf.
use next_stock_oficial.Prelude.{ℕ, ◌≡◌, refl, true, none, List, map, is_some, arith, is_some-false}
use next_stock_oficial.Prelude.Result.{ok, throw_if, >>=-eq-ok, throw_if_ok}
use next_stock_oficial.Prelude.Table.{get, put}
use next_stock_oficial.Prelude.Text.{Text}
use next_stock_oficial.Store.{Context, Db, OrderItem, in_scope}
use next_stock_oficial.Orders.Items.{normalize_items, load_priced_items}
use next_stock_oficial.Orders.Stock.{apply_stock_delta}
use next_stock_oficial.Orders.Create.{CreateOrder, create, new_order, taken}
use next_stock_oficial.Orders.Change.{Change, added, IsPriced}
use next_stock_oficial.Orders.Change.Products.{Restocks-apply_stock_delta, net-taken}

in_scope_self : (ctx : Context) → in_scope ctx ctx.tenant_id ctx.branch_id ≡ true
in_scope_self ctx = ground arith

module _ (to_lower : Text → Text) where
  pub new_order-IsPriced :
      (ctx : Context) (dto : CreateOrder) (items : List OrderItem)
      → IsPriced (new_order to_lower ctx dto items)
  new_order-IsPriced ctx dto items = record {
    subtotal = refl;
    discount = omega arith;
    total = omega arith;
  }

  -- The parts of a creation that goes through.
  pub create_ok :
      (ctx : Context) (id : ℕ) (dto : CreateOrder) (db : Db) {db' : Db}
      → create to_lower ctx id dto db ≡ ok db'
      → (items : List OrderItem) × (load_priced_items ctx db.products true
            (normalize_items dto.items)
          ≡ ok items)
        × (get id db.orders ≡ none)
        × (apply_stock_delta ctx (map taken items) db.products ≡ ok db'.products)
        × (db'.orders ≡ put id (new_order to_lower ctx dto items) db.orders)
  unfolding create
  create_ok ctx id dto db h =
      let (items, h1, h2) =
        >>=-eq-ok (load_priced_items ctx db.products true (normalize_items dto.items)) _ h in
      let (_, h3, h4) = >>=-eq-ok (throw_if (is_some (get id db.orders)) _) _ h2 in
      let (products, h5, h6) =
        >>=-eq-ok (apply_stock_delta ctx (map taken items) db.products) _ h4 in
      (items, h1, is_some-false _ (throw_if_ok _ _ h3), ground (arith, h5, h6), ground (arith, h6))

  pub create-Change :
      (ctx : Context) (id : ℕ) (dto : CreateOrder) (db : Db) {db' : Db}
      → create to_lower ctx id dto db ≡ ok db'
      → Change ctx db db'
  create-Change ctx id dto db h =
      let (items, _, fresh, stocks, orders) = create_ok ctx id dto db h in
      added id (new_order to_lower ctx dto items) fresh orders refl (in_scope_self ctx) refl
        (new_order-IsPriced ctx dto items)
        (Restocks-apply_stock_delta ctx (map taken items) _ _ db.products (λ p. net-taken p items)
          stocks)
