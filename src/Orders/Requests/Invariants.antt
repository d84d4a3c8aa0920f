-- ===== src/Orders/Requests/Invariants.antt =====
-- What holds of the orders and the stock after any requests.
use next_stock_oficial.Prelude.{
  ℕ, ◌≡◌, refl, ◌∙◌, sym, ap, subst, true, some, List, [], ◌∷◌, inl, inr, arith, ◌==◌, ap₂,
  Bool-cases,
}
use next_stock_oficial.Prelude.Int.{pos, ◌+ℤ◌, +ℤ_zero}
use next_stock_oficial.Prelude.Result.{Result-cases}
use next_stock_oficial.Prelude.Table.{Table, get, put, get-put}
use next_stock_oficial.Prelude.Text.{Text}
use next_stock_oficial.Store.{Context, Db, Order}
use next_stock_oficial.Orders.Stock.Net.{stock}
use next_stock_oficial.Orders.Stock.Safety.{IsStocked}
use next_stock_oficial.Orders.Units.{total, reserved, total-put, total-put_new}
use next_stock_oficial.Orders.Change.{Change, unchanged, added, edited, IsPriced, is_consistent}
use next_stock_oficial.Orders.Requests.{Request, run, after, serve}
use next_stock_oficial.Orders.Requests.Effects.{IsConsistent, run-Change}

-- The stock is never negative, every order's money adds up, and only canceled orders have given
-- their stock back.
pub record IsValid (db : Db) : Type 0 where
  pub stocked : IsStocked db.products
  pub priced : (id : ℕ) (o : Order) → get id db.orders ≡ some o → IsPriced o
  pub consistent : IsConsistent db

-- what is asked of a row, wherever it stands
module _ (P : Order → Type 0) (id : ℕ) (new : Order) (orders : Table Order)
    {orders' : Table Order} where
  rows-put :
      orders' ≡ put id new orders
      → P new
      → ((j : ℕ) (o : Order) → get j orders ≡ some o → P o)
      → (j : ℕ) (o : Order) → get j orders' ≡ some o
      → P o
  rows-put e here there j o h = elim (Bool-cases (id == j)) [
    | inl same ↦ subst P (ground (arith, h, e, same, get-put id j new orders)) here
    | inr other ↦ there j o (ground (arith, h, e, other, get-put id j new orders))
  ]

pub Change-IsValid : {ctx : Context} {db db' : Db} → Change ctx db db' → IsValid db → IsValid db'
Change-IsValid {db} (unchanged orders products) v = record {
  stocked = subst IsStocked (sym products) v.stocked;
  priced = λ j o h. v.priced j o (ap (get j) (sym orders) ∙ h);
  consistent = record { at = λ j o h. v.consistent.at j o (ap (get j) (sym orders) ∙ h) };
}
Change-IsValid {db} (added id new fresh orders status scope c p r) v = record {
  stocked = r.stocked v.stocked;
  priced = rows-put IsPriced id new db.orders orders p v.priced;
  consistent = record {
    at = rows-put (λ o. is_consistent o ≡ true) id new db.orders orders c v.consistent.at;
  };
}
Change-IsValid {db} (edited id old new row scope orders e r) v = record {
  stocked = r.stocked v.stocked;
  priced = rows-put IsPriced id new db.orders orders (e.priced (v.priced id old row)) v.priced;
  consistent = record {
    at =
        rows-put (λ o. is_consistent o ≡ true) id new db.orders orders
          (e.consistent (v.consistent.at id old row)) v.consistent.at;
  };
}

pub Change-total :
    {ctx : Context} {db db' : Db} (p : ℕ) → Change ctx db db' → total p db' ≡ total p db
Change-total p (unchanged orders products) =
    ap₂ (λ o t. stock p t +ℤ pos (reserved p o)) orders products
Change-total {db} {db'} p (added id new fresh orders status scope c priced r) =
    ap (λ o. stock p db'.products +ℤ pos (reserved p o)) orders
    ∙ total-put_new p id new db'.products db fresh (r.balance p ∙ +ℤ_zero (stock p db.products))
Change-total {db} {db'} p (edited id old new row scope orders e r) =
    ap (λ o. stock p db'.products +ℤ pos (reserved p o)) orders
    ∙ total-put p id old new db'.products db row (r.balance p)

module _ (to_lower : Text → Text) where
  pub after-IsValid :
      (ctx : Context) (r : Request) (db : Db)
      → IsValid db
      → IsValid (after to_lower db (run to_lower ctx r db))
  after-IsValid ctx r db v = elim (Result-cases (run to_lower ctx r db)) [
    | inl (db', done) ↦
        subst (λ x. IsValid (after to_lower db x)) (sym done)
          (Change-IsValid (run-Change to_lower ctx r db v.consistent done) v)
    | inr (e, failed) ↦ subst (λ x. IsValid (after to_lower db x)) (sym failed) v
  ]

  -- Over any requests from a valid state, the state stays valid: no stock is negative, every
  -- order's money adds up, and only canceled orders have given their stock back.
  pub serve-IsValid :
      (rs : List (Context × Request)) (db : Db) → IsValid db → IsValid (serve to_lower rs db)
  unfolding serve
  serve-IsValid [] db v = v
  serve-IsValid ((ctx, r) ∷ rs) db v =
      serve-IsValid rs (after to_lower db (run to_lower ctx r db)) (after-IsValid ctx r db v)

  after_total :
      (p : ℕ) (ctx : Context) (r : Request) (db : Db)
      → IsValid db
      → total p (after to_lower db (run to_lower ctx r db)) ≡ total p db
  after_total p ctx r db v = elim (Result-cases (run to_lower ctx r db)) [
    | inl (db', done) ↦
        subst (λ x. total p (after to_lower db x) ≡ total p db) (sym done)
          (Change-total p (run-Change to_lower ctx r db v.consistent done))
    | inr (e, failed) ↦ subst (λ x. total p (after to_lower db x) ≡ total p db) (sym failed) refl
  ]

  -- Over any requests from a valid state, the units of each product on the shelf and in the
  -- orders that have not given them back stay the same in number.
  pub serve_total :
      (p : ℕ) (rs : List (Context × Request)) (db : Db)
      → IsValid db
      → total p (serve to_lower rs db) ≡ total p db
  unfolding serve
  serve_total p [] db v = refl
  serve_total p ((ctx, r) ∷ rs) db v =
      serve_total p rs (after to_lower db (run to_lower ctx r db)) (after-IsValid ctx r db v)
      ∙ after_total p ctx r db v
