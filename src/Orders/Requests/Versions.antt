-- ===== src/Orders/Requests/Versions.antt =====
-- Over any requests an order only goes on; and an edit that was made for an older version of it
-- never goes through.
use next_stock_oficial.Prelude.{
  ℕ, ◌+◌, ◌≤◌, ◌≡◌, ◌≢◌, refl, ap, ◌∙◌, some, List, [], ◌∷◌, inl, inr, arith,
}
use next_stock_oficial.Prelude.Result.{ok, Result-cases, >>=-eq-ok}
use next_stock_oficial.Prelude.Table.{get, get-put_self}
use next_stock_oficial.Prelude.Text.{Text}
use next_stock_oficial.Store.{Context, Db, Order}
use next_stock_oficial.Orders.Status.Laws.{stage, stage_le}
use next_stock_oficial.Orders.Create.{find_scoped_order}
use next_stock_oficial.Orders.Update.{UpdateOrder, assert_mutable, apply_update_data, update}
use next_stock_oficial.Orders.Change.Edited.{update_claimed_ok, written, update-Change}
use next_stock_oficial.Orders.Requests.{Request, run, after, serve}
use next_stock_oficial.Orders.Requests.Invariants.{IsValid, after-IsValid, Change-IsValid}
use next_stock_oficial.Orders.Requests.Isolation.{Follows, run-Follows}

-- What an order keeps over many requests.
pub record Later (o o' : Order) : Type 0 where
  pub stage_le : stage o.status ≤ stage o'.status
  pub version_le : o.version ≤ o'.version
  pub tenant : o'.tenant_id ≡ o.tenant_id
  pub branch : o'.branch_id ≡ o.branch_id

Later-refl : (o : Order) → Later o o
Later-refl o = record {
  stage_le = omega arith;
  version_le = omega arith;
  tenant = refl;
  branch = refl;
}

Later-step : {o o' o'' : Order} → Follows o o' → Later o' o'' → Later o o''
Later-step {o} {o'} f l = record {
  stage_le = omega (arith, stage_le o.status o'.status f.moved, l.stage_le);
  version_le = omega (arith, f.version_le, l.version_le);
  tenant = l.tenant ∙ f.tenant;
  branch = l.branch ∙ f.branch;
}

module _ (to_lower : Text → Text) where
  after-Follows :
      (ctx : Context) (r : Request) (db : Db) (j : ℕ) (o : Order)
      → IsValid db
      → get j db.orders ≡ some o
      → (o' : Order) × (get j (after to_lower db (run to_lower ctx r db)).orders ≡ some o')
        × Later o o'
  after-Follows ctx r db j o v row = elim (Result-cases (run to_lower ctx r db)) [
    | inl (db', done) ↦
        let (o', row', f) = run-Follows to_lower ctx r db j o v.consistent done row in
        (o', ap (λ x. get j (after to_lower db x).orders) done ∙ row', Later-step f (Later-refl o'))
    | inr (e, failed) ↦ (o, ap (λ x. get j (after to_lower db x).orders) failed ∙ row, Later-refl o)
  ]

  Later-trans : {o o' o'' : Order} → Later o o' → Later o' o'' → Later o o''
  Later-trans l m = record {
    stage_le = omega (arith, l.stage_le, m.stage_le);
    version_le = omega (arith, l.version_le, m.version_le);
    tenant = m.tenant ∙ l.tenant;
    branch = m.branch ∙ l.branch;
  }

  -- Over any requests from a valid state, an order stays in the table, its status never comes back
  -- to an earlier stage, its version never falls, and it stays in its branch.
  pub serve-Later :
      (rs : List (Context × Request)) (db : Db) (j : ℕ) (o : Order)
      → IsValid db
      → get j db.orders ≡ some o
      → (o' : Order) × (get j (serve to_lower rs db).orders ≡ some o') × Later o o'
  unfolding serve
  serve-Later [] db j o v row = (o, row, Later-refl o)
  serve-Later ((ctx, r) ∷ rs) db j o v row =
      let (o', row', l) = after-Follows ctx r db j o v row in
      let (o'', row'', m) =
        serve-Later rs (after to_lower db (run to_lower ctx r db)) j o'
          (after-IsValid to_lower ctx r db v) row' in
      (o'', row'', Later-trans l m)

  -- An edit that goes through has found the version that it expects, and leaves the next one.
  pub update_versions :
      (ctx : Context) (id : ℕ) (dto : UpdateOrder) (db : Db) {db' : Db}
      → update to_lower ctx id dto db ≡ ok db'
      → (o : Order) × (o' : Order) × (get id db.orders ≡ some o)
        × (o.version ≡ dto.expected_version)
        × (get id db'.orders ≡ some o')
        × (o'.version ≡ dto.expected_version + 1)
  unfolding update apply_update_data
  update_versions ctx id dto db h =
      let (existing, h1, h2) = >>=-eq-ok (find_scoped_order ctx id db) _ h in
      let (_, h3, h4) = >>=-eq-ok (assert_mutable existing) _ h2 in
      let (o, e, between, row, scope, version, live, r, orders, products) =
        update_claimed_ok to_lower ctx id dto db h4 in
      (
        o,
        written to_lower ctx dto e,
        row,
        version,
        ap (get id) orders ∙ get-put_self id (written to_lower ctx dto e) db.orders,
        r.version ∙ ap (λ n. n + 1) version,
      )

  -- After an edit of an order of a valid state, and whatever requests follow, no other edit that
  -- expects the same version of that order goes through.
  pub update_no_lost_update :
      (ctx ctx' : Context) (id : ℕ) (dto dto' : UpdateOrder) (rs : List (Context × Request))
      (db db1 db2 : Db)
      → IsValid db
      → update to_lower ctx id dto db ≡ ok db1
      → dto'.expected_version ≡ dto.expected_version
      → update to_lower ctx' id dto' (serve to_lower rs db1) ≢ ok db2
  update_no_lost_update ctx ctx' id dto dto' rs db db1 db2 v first same second =
      let c = update-Change to_lower ctx id dto db (v.consistent.at id) first in
      let (o, o1, row, version, row1, version1) = update_versions ctx id dto db first in
      let (o2, row2, l) = serve-Later rs db1 id o1 (Change-IsValid c v) row1 in
      let (o3, o4, row3, version3, row4, version4) =
        update_versions ctx' id dto' (serve to_lower rs db1) second in
      let is : o3 ≡ o2 = cc (row2, row3) in
      absurd (omega (arith, l.version_le, version1, version3, same, ap (λ x. x.version) is))
