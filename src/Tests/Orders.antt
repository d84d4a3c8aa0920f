-- ===== src/Tests/Orders.antt =====
-- The theorems on orders at the small shop, and runs of the service that the source shows.
use next_stock_oficial.Prelude.{false, ◌≢◌, ℕ, ◌≡◌, refl, some, none, List, [], ◌∷◌, true}
use next_stock_oficial.Prelude.Int.{pos, ◌+ℤ◌, ◌≤ℤ◌}
use next_stock_oficial.Prelude.Result.{ok}
use next_stock_oficial.Prelude.Table.{get, put}
use next_stock_oficial.Store.{cash, OrderItem, Context, Db, Order}
use next_stock_oficial.Orders.Status.{preparing, sources_for}
use next_stock_oficial.Orders.Items.{normalize_items, load_priced_items, build_stock_diff}
use next_stock_oficial.Orders.Stock.{apply_stock_delta}
use next_stock_oficial.Orders.Stock.Net.{stock}
use next_stock_oficial.Orders.Stock.Safety.{IsForeign}
use next_stock_oficial.Orders.Items.Quantities.{requested, units}
use next_stock_oficial.Orders.Units.{held, total}
use next_stock_oficial.Orders.Create.{CreateOrder, new_order, create, clean, find_scoped_order}
use next_stock_oficial.Orders.Update.{UpdateOrder, update}
use next_stock_oficial.Orders.Lifecycle.{cancel_after_read, cancel, update_status, is_restored}
use next_stock_oficial.Orders.Takes.{IsNewOrder, create_takes}
use next_stock_oficial.Orders.Restores.{cancel_gives_back, cancel_twice, cancel_after_read_total}
use next_stock_oficial.Orders.Requests.Versions.{update_no_lost_update, serve-Later, Later}
use next_stock_oficial.Orders.Requests.Isolation.{run_isolated}
use next_stock_oficial.Orders.Requests.{
  Request, sell_order, create_order, edit_order, set_status, cancel_order, run, after, serve,
}
use next_stock_oficial.Orders.Requests.Invariants.{IsValid, serve_total, serve-IsValid}
use next_stock_oficial.Orders.Payments.{create_from_order_twice}
use next_stock_oficial.Sales.FromOrder.{FromOrderRequest, find_sale, create_from_order}
use next_stock_oficial.Tests.Shop.{soap, lower, clerk, shop, shop-IsValid, soaps, three_soaps}

-- an edit of version 1 to five soaps
abbrev five_soaps : UpdateOrder
five_soaps = record {
  expected_version = 1;
  customer_name = none;
  customer_document = none;
  customer_phone = none;
  customer_email = none;
  payment_method = none;
  discount_cents = none;
  notes = some [];
  items = some (soaps 5 ∷ []);
}

abbrev script : List (Context × Request)
script =
    (clerk, create_order 20 three_soaps)
    ∷ (clerk, edit_order 20 five_soaps)
    ∷ (clerk, edit_order 20 five_soaps)
    ∷ (clerk, set_status 9 30 20 preparing none)
    ∷ (clerk, cancel_order 10 20 none)
    ∷ []

-- The order of three soaps, edited to five, is canceled in the end: the shelf is full again.
stock-serve : stock 7 (serve lower script shop).products ≡ pos 10
unfolding serve create update update_status cancel get put ◌+ℤ◌ find_scoped_order load_priced_items
    normalize_items apply_stock_delta build_stock_diff sources_for
    next_stock_oficial.Sales.FromOrder.find_sale
stock-serve = refl

serve_total_example : total 7 (serve lower script shop) ≡ total 7 shop
serve_total_example = serve_total lower 7 script shop shop-IsValid

serve-IsValid_example : IsValid (serve lower script shop)
serve-IsValid_example = serve-IsValid lower script shop shop-IsValid

-- the shop with the order of three soaps, and with that order edited to five
abbrev ordered : Db
ordered = serve lower ((clerk, create_order 20 three_soaps) ∷ []) shop

abbrev edited_shop : Db
edited_shop = serve lower ((clerk, edit_order 20 five_soaps) ∷ []) ordered

abbrev canceled_shop : Db
canceled_shop = serve lower ((clerk, cancel_order 10 20 none) ∷ []) edited_shop

ordered_eq : create lower clerk 20 three_soaps shop ≡ ok ordered
unfolding serve create get put ◌+ℤ◌ load_priced_items normalize_items apply_stock_delta
ordered_eq = refl

edited_eq : update lower clerk 20 five_soaps ordered ≡ ok edited_shop
unfolding serve create update get put ◌+ℤ◌ find_scoped_order load_priced_items normalize_items
    apply_stock_delta build_stock_diff
edited_eq = refl

canceled_eq : cancel clerk 10 20 none edited_shop ≡ ok canceled_shop
unfolding serve create update cancel get put ◌+ℤ◌ find_scoped_order load_priced_items
    normalize_items apply_stock_delta build_stock_diff sources_for
    next_stock_oficial.Sales.FromOrder.find_sale
canceled_eq = refl

create_takes_example :
    ((o : Order) × (get 20 ordered.orders ≡ some o) × IsNewOrder three_soaps o)
    × ((p : ℕ)
        → (stock p ordered.products +ℤ pos (requested p three_soaps.items) ≡ stock p shop.products)
          × (pos (requested p three_soaps.items) ≤ℤ stock p shop.products)
          × (pos 0 ≤ℤ stock p ordered.products))
create_takes_example = create_takes lower clerk 20 three_soaps shop shop-IsValid.stocked ordered_eq

ordered-IsValid : IsValid ordered
ordered-IsValid = serve-IsValid lower ((clerk, create_order 20 three_soaps) ∷ []) shop shop-IsValid

update_no_lost_update_example :
    update lower clerk 20 five_soaps
      (serve lower ((clerk, cancel_order 10 20 none) ∷ []) edited_shop)
    ≢ ok shop
update_no_lost_update_example =
    update_no_lost_update lower clerk clerk 20 five_soaps five_soaps
      ((clerk, cancel_order 10 20 none) ∷ []) ordered edited_shop shop ordered-IsValid edited_eq
      refl

-- the order of three soaps as it stands in the table
abbrev soap_item : OrderItem
soap_item = record {
  product_id = 7;
  product_name_snapshot = soap.name;
  sku_snapshot = none;
  barcode_snapshot = none;
  quantity = 3;
  unit_price_cents = 250;
  total_price_cents = 750;
}

abbrev soap_order : Order
soap_order = new_order lower clerk three_soaps (soap_item ∷ [])

soap_order_row : get 20 ordered.orders ≡ some soap_order
unfolding serve create get put ◌+ℤ◌ load_priced_items normalize_items apply_stock_delta
soap_order_row = refl

serve-Later_example :
    (o' : Order) × (get 20 (serve lower script ordered).orders ≡ some o') × Later soap_order o'
serve-Later_example = serve-Later lower script ordered 20 soap_order ordered-IsValid soap_order_row

cancel_gives_back_example :
    (o : Order) × (o' : Order) × (get 20 edited_shop.orders ≡ some o)
    × (get 20 canceled_shop.orders ≡ some o')
    × (is_restored o' ≡ true)
    × ((p : ℕ) → stock p canceled_shop.products ≡ stock p edited_shop.products +ℤ pos (held p o))
cancel_gives_back_example = cancel_gives_back clerk 10 20 none edited_shop canceled_eq

cancel_twice_example : cancel clerk 11 20 none canceled_shop ≡ ok canceled_shop
cancel_twice_example = cancel_twice clerk 10 11 20 none none edited_shop canceled_shop canceled_eq

-- a clerk of the next branch, to whom the order and the soap are foreign
abbrev neighbour : Context
neighbour = record clerk { branch_id = 3 }

abbrev candles : CreateOrder
candles = record three_soaps { items = (record { product_id = 8; quantity = 2 }) ∷ [] }

abbrev both_ordered : Db
both_ordered = serve lower ((neighbour, create_order 21 candles) ∷ []) ordered

both_ordered_eq : run lower neighbour (create_order 21 candles) ordered ≡ ok both_ordered
unfolding serve create get put ◌+ℤ◌ load_priced_items normalize_items apply_stock_delta
both_ordered_eq = refl

soap-IsForeign : IsForeign neighbour (get 7 ordered.products)
unfolding serve create get put ◌+ℤ◌ load_priced_items normalize_items apply_stock_delta
soap-IsForeign = refl

run_isolated_example :
    (get 20 both_ordered.orders ≡ some soap_order)
    × (get 7 both_ordered.products ≡ get 7 ordered.products)
run_isolated_example =
    run_isolated lower neighbour (create_order 21 candles) ordered 20 soap_order 7
      ordered-IsValid.consistent both_ordered_eq soap_order_row refl soap-IsForeign

-- A cancellation reads the order of three soaps, and the edit to five is committed before its
-- claim: three soaps come back where five were held.
abbrev five_order : Order
five_order = record soap_order {
  version = 2;
  subtotal_cents = 1250;
  total_cents = 1200;
  items = record soap_item { quantity = 5; total_price_cents = 1250 } ∷ [];
}

abbrev raced_shop : Db
raced_shop = after lower edited_shop (cancel_after_read clerk 10 20 none soap_order edited_shop)

five_order_row : get 20 edited_shop.orders ≡ some five_order
unfolding serve create update get put ◌+ℤ◌ find_scoped_order load_priced_items normalize_items
    apply_stock_delta build_stock_diff clean
five_order_row = refl

raced_eq : cancel_after_read clerk 10 20 none soap_order edited_shop ≡ ok raced_shop
unfolding serve create update cancel_after_read get put ◌+ℤ◌ find_scoped_order load_priced_items
    normalize_items apply_stock_delta build_stock_diff sources_for
    next_stock_oficial.Sales.FromOrder.find_sale
raced_eq = refl

raced_stock : stock 7 raced_shop.products ≡ pos 8
unfolding serve create update cancel_after_read get put ◌+ℤ◌ find_scoped_order load_priced_items
    normalize_items apply_stock_delta build_stock_diff sources_for
    next_stock_oficial.Sales.FromOrder.find_sale
raced_stock = refl

cancel_after_read_total_example :
    total 7 raced_shop +ℤ pos (units 7 five_order.items)
    ≡ total 7 edited_shop +ℤ pos (units 7 soap_order.items)
cancel_after_read_total_example =
    cancel_after_read_total clerk 10 20 7 none soap_order five_order edited_shop refl five_order_row
      refl raced_eq

-- the order of three soaps, paid in cash with a note of ten
abbrev in_cash : FromOrderRequest
in_cash = record { payment_method = some cash; payment_machine_id = none; amount_cents = some 1000 }

abbrev paid_shop : Db
paid_shop = serve lower ((clerk, sell_order 30 20 in_cash) ∷ []) ordered

paid_eq :
    create_from_order clerk 30 20 in_cash ordered
    ≡ ok (record { idempotent = false; sale_id = 30 }, paid_shop)
unfolding serve create create_from_order get put ◌+ℤ◌ load_priced_items normalize_items
    apply_stock_delta sources_for
paid_eq = refl

create_from_order_twice_example :
    create_from_order clerk 31 20 in_cash paid_shop
    ≡ ok (record { idempotent = true; sale_id = 30 }, paid_shop)
create_from_order_twice_example =
    create_from_order_twice clerk 30 31 20 in_cash in_cash ordered paid_eq
