-- ===== src/Orders/Change/Edited.antt =====
-- `update` changes one order, and moves the stock by the difference of its items.
use next_stock_oficial.Prelude.{
  ℕ, ◌+◌, ◌≡◌, refl, sym, ◌∙◌, ap, subst, subst₂, true, false, ◌&&◌, none, some, List, arith, inl,
  inr, Option-cases, is_none-true, ◌==◌,
}
use next_stock_oficial.Prelude.Result.{ok, >>=-eq-ok, ok-injective}
use next_stock_oficial.Prelude.Table.{get, put, get-put_self, put-put, matching}
use next_stock_oficial.Prelude.Text.{Text}
use next_stock_oficial.Store.{Context, Db, Order, order_in_scope}
use next_stock_oficial.Orders.Status.{OrderStatus, status_eq, can_transition}
use next_stock_oficial.Orders.Items.{
  ItemRequest, normalize_items, load_priced_items, build_stock_diff,
}
use next_stock_oficial.Orders.Stock.{apply_stock_delta}
use next_stock_oficial.Orders.Create.{find_scoped_order}
use next_stock_oficial.Orders.Units.{held}
use next_stock_oficial.Orders.Update.{
  UpdateOrder, is_final, assert_mutable, claim_version, replace_items, rediscount, edit_items,
  apply_update_data, update_claimed, update,
}
use next_stock_oficial.Orders.Change.{Change, edited, is_consistent, IsPriced, Restocks}
use next_stock_oficial.Orders.Change.Products.{Restocks-same, Restocks-apply_stock_delta, net-diff}
use next_stock_oficial.Orders.Change.Moved.{
  find_scoped_order_ok, matching-some, can_transition_self,
}

-- What a claim of a version finds and writes.
pub claim_version_ok :
    (ctx : Context) (id expected : ℕ) (db : Db) {db' : Db}
    → claim_version ctx id expected db ≡ ok db'
    → (o : Order) × (get id db.orders ≡ some o)
      × (order_in_scope ctx o ≡ true)
      × (o.version ≡ expected)
      × (db' ≡ record db { orders = put id (record o { version = o.version + 1 }) db.orders })
unfolding claim_version
claim_version_ok ctx id expected db h =
    elim (Option-cases
      (matching (λ o. order_in_scope ctx o && o.version == expected) (get id db.orders))) [
        | inl lost ↦ absurd (ground (arith, lost, h))
        | inr (o, found) ↦
            let (row, can) =
              matching-some (λ o. order_in_scope ctx o && o.version == expected) (get id db.orders)
                found in
            (o, row, ground (arith, can), ground (arith, can), ground (arith, found, h))
      ]

-- What the middle of an edit does to the order that it has read.
pub record Reprices (ctx : Context) (o e : Order) (db db' : Db) : Type 0 where
  pub status : e.status ≡ o.status
  pub version : e.version ≡ o.version
  pub tenant : e.tenant_id ≡ o.tenant_id
  pub branch : e.branch_id ≡ o.branch_id
  pub restored : e.stock_restored_at ≡ o.stock_restored_at
  pub priced : IsPriced o → IsPriced e
  pub orders : db'.orders ≡ db.orders
  pub restocks :
      o.stock_restored_at ≡ none
      → Restocks ctx (λ p. held p o) (λ p. held p e) db.products db'.products

replace_items-Reprices :
    (ctx : Context) (dto : UpdateOrder) (requests : List ItemRequest) (o e : Order) (db db' : Db)
    → replace_items ctx dto requests o db ≡ ok (e, db')
    → Reprices ctx o e db db'
unfolding replace_items
replace_items-Reprices ctx dto requests o e db db' h =
    let (items, h1, h2) =
      >>=-eq-ok (load_priced_items ctx db.products false (normalize_items requests)) _ h in
    let (products, h3, h4) =
      >>=-eq-ok (apply_stock_delta ctx (build_stock_diff o.items items) db.products) _ h2 in
    subst (λ r. Reprices ctx o r.0 db r.1) (ok-injective h4)
      (record {
        status = refl;
        version = refl;
        tenant = refl;
        branch = refl;
        restored = refl;
        priced = λ p. record { subtotal = refl; discount = omega arith; total = omega arith };
        orders = refl;
        restocks = λ fresh.
            Restocks-apply_stock_delta ctx (build_stock_diff o.items items) _ _ db.products
              (λ p. rw fresh (net-diff p o.items items)) h3;
      })

rediscount-Reprices :
    (ctx : Context) (dto : UpdateOrder) (o : Order) (db : Db)
    → Reprices ctx o (rediscount dto o) db db
unfolding rediscount
rediscount-Reprices ctx dto o db = record {
  status = ground arith;
  version = ground arith;
  tenant = ground arith;
  branch = ground arith;
  restored = ground arith;
  priced = λ p. record { subtotal = ground arith; discount = ground arith; total = ground arith };
  orders = refl;
  restocks = λ fresh. Restocks-same ctx _ _ refl (λ p. ground arith);
}

edit_items-Reprices :
    (ctx : Context) (dto : UpdateOrder) (o e : Order) (db db' : Db)
    → edit_items ctx dto o db ≡ ok (e, db')
    → Reprices ctx o e db db'
unfolding edit_items
edit_items-Reprices ctx dto o e db db' h = elim (Option-cases dto.items) [
  | inl keeps ↦
      subst (λ r. Reprices ctx o r.0 db r.1) (ok-injective (rw keeps at h))
        (rediscount-Reprices ctx dto o db)
  | inr (requests, new) ↦ replace_items-Reprices ctx dto requests o e db db' (rw new at h)
]

pub assert_mutable_ok :
    (o : Order) {u : Unit {0}}
    → assert_mutable o ≡ ok u
    → (is_final o.status ≡ false) × (status_eq o.status OrderStatus.delivered ≡ false)
unfolding assert_mutable
assert_mutable_ok o h = ground arith

module _ (to_lower : Text → Text) where
  abbrev pub written : Context → UpdateOrder → Order → Order
  written ctx dto e = apply_update_data to_lower ctx dto e

  abbrev bumped : Order → Order
  bumped o = record o { version = o.version + 1 }

  -- The parts of an edit that goes through.
  pub update_claimed_ok :
      (ctx : Context) (id : ℕ) (dto : UpdateOrder) (db : Db) {db' : Db}
      → update_claimed to_lower ctx id dto db ≡ ok db'
      → (o : Order) × (e : Order) × (between : Db) × (get id db.orders ≡ some o)
        × (order_in_scope ctx o ≡ true)
        × (o.version ≡ dto.expected_version)
        × (is_final o.status ≡ false)
        × Reprices ctx (bumped o) e (record db { orders = put id (bumped o) db.orders }) between
        × (db'.orders ≡ put id (written ctx dto e) db.orders)
        × (db'.products ≡ between.products)
  unfolding update_claimed
  update_claimed_ok ctx id dto db {db'} h =
      let (claimed, h1, h2) = >>=-eq-ok (claim_version ctx id dto.expected_version db) _ h in
      let (o, row, scope, version, e1) = claim_version_ok ctx id dto.expected_version db h1 in
      let (order, h3, h4) = >>=-eq-ok (find_scoped_order ctx id claimed) _ h2 in
      let (_, h5, h6) = >>=-eq-ok (assert_mutable order) _ h4 in
      let (pair, h7, h8) = >>=-eq-ok (edit_items ctx dto order claimed) _ h6 in
      let found = (find_scoped_order_ok ctx id claimed h3).0 in
      let same : order ≡ bumped o = cc (found, e1, get-put_self id (bumped o) db.orders) in
      let reprices = edit_items-Reprices ctx dto order pair.0 claimed pair.1 h7 in
      (
        o,
        pair.0,
        pair.1,
        row,
        scope,
        version,
        subst (λ x. is_final x.status ≡ false) same (assert_mutable_ok order h5).0,
        subst₂ (λ x d. Reprices ctx x pair.0 d pair.1) same e1 reprices,
        ap (λ d. d.orders) (sym (ok-injective h8))
            ∙ ap (put id (written ctx dto pair.0)) (reprices.orders ∙ ap (λ d. d.orders) e1)
            ∙ put-put id (bumped o) (written ctx dto pair.0) db.orders,
        ap (λ d. d.products) (sym (ok-injective h8)),
      )

  pub update_claimed-Change :
      (ctx : Context) (id : ℕ) (dto : UpdateOrder) (db : Db) {db' : Db}
      → ((o : Order) → get id db.orders ≡ some o → is_consistent o ≡ true)
      → update_claimed to_lower ctx id dto db ≡ ok db'
      → Change ctx db db'
  unfolding apply_update_data
  update_claimed-Change ctx id dto db valid h =
      let (o, e, between, row, scope, version, live, r, orders, products) =
        update_claimed_ok ctx id dto db h in
      let fresh = is_none-true o.stock_restored_at (ground (arith, valid o row, live)) in
      edited id o (written ctx dto e) row scope orders
        (record {
          moved =
              subst (λ s. can_transition o.status s ≡ true) (sym r.status)
                (can_transition_self o.status);
          consistent = λ c. ground (arith, r.status, r.restored, c);
          version_le = omega (arith, r.version);
          tenant = r.tenant;
          branch = r.branch;
          priced = λ p.
              let q =
                r.priced
                  (record { subtotal = p.subtotal; discount = p.discount; total = p.total }) in
              record { subtotal = q.subtotal; discount = q.discount; total = q.total };
        })
        (subst (λ t. Restocks ctx (λ p. held p o) (λ p. held p e) db.products t) (sym products)
          (r.restocks fresh))

  pub update-Change :
      (ctx : Context) (id : ℕ) (dto : UpdateOrder) (db : Db) {db' : Db}
      → ((o : Order) → get id db.orders ≡ some o → is_consistent o ≡ true)
      → update to_lower ctx id dto db ≡ ok db'
      → Change ctx db db'
  unfolding update
  update-Change ctx id dto db valid h =
      let (existing, h1, h2) = >>=-eq-ok (find_scoped_order ctx id db) _ h in
      let (_, h3, h4) = >>=-eq-ok (assert_mutable existing) _ h2 in
      update_claimed-Change ctx id dto db valid h4
