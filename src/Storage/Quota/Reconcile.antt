-- ===== src/Storage/Quota/Reconcile.antt =====
-- The reconciliation job keeps the balance, and goes through to its end.
use next_stock_oficial.Prelude.{
  ℕ, min, max, ◌≡◌, refl, ◌∙◌, sym, subst, Bool, true, none, some, List, [], ◌∷◌, select, sum_by,
  ◌==◌, arith, Bool-cases, inl, inr,
}
use next_stock_oficial.Prelude.Result.{ok}
use next_stock_oficial.Prelude.Table.{Table, get, put, matching-cases, map_rows}
use next_stock_oficial.Prelude.Table.Distinct.{
  distinct, distinct-put, distinct-map_rows, is_among, holds_at, is_among-select,
}
use next_stock_oficial.Prelude.Sort.{sort_by, any-sort_by, any-first_rows}
use next_stock_oficial.Storage.Quota.{CounterKey, Reservation, QuotaStore, reconciliation_required}
use next_stock_oficial.Storage.Quota.Settle.{
  to_confirmed, is_settleable, confirm, require_reconciliation, expired_candidates, is_expired,
  expires_before, expire_row, claim_expired, reconcile_one, reconcile_ids, reconcile_expired_batch,
}
use next_stock_oficial.Storage.Quota.Counters.{Measure}
use next_stock_oficial.Storage.Quota.Ledger.{held_by, IsBalanced, sum_by-put}
use next_stock_oficial.Storage.Quota.Balance.{transition-IsBalanced}
use next_stock_oficial.Storage.Quota.Totality.{transition_total}

pub require_reconciliation-IsBalanced :
    (id : ℕ) (st : QuotaStore) → IsBalanced st → IsBalanced (require_reconciliation id st)
unfolding require_reconciliation
require_reconciliation-IsBalanced id st v =
    elim (matching-cases (λ r. is_settleable r.state) (get id st.reservations)) [
      | inl lost ↦ subst IsBalanced (ground (arith, lost)) v
      | inr (row, found, live, matched) ↦
          let new = record row { state = reconciliation_required } in
          let written : IsBalanced (record st { reservations = put id new st.reservations }) =
            record {
              keys = distinct-put id new st.reservations v.keys;
              checked = v.checked;
              balance = λ m k.
                  let same : held_by m k new ≡ held_by m k row = ground (arith, live) in
                  omega (
                    arith,
                    v.balance m k,
                    same,
                    sum_by-put (held_by m k) id row new st.reservations found,
                  );
            } in
          subst IsBalanced (ground (arith, matched)) written
    ]

-- a statement on all rows that leaves a measure of each row
sum_by-map_rows :
    (f : Reservation → ℕ) (g : ℕ → Reservation → Reservation) (rows : Table Reservation)
    → distinct rows ≡ true
    → ((id : ℕ) (r : Reservation) → get id rows ≡ some r → f (g id r) ≡ f r)
    → sum_by (λ e. f e.1) (map_rows g rows) ≡ sum_by (λ e. f e.1) rows
unfolding map_rows get
sum_by-map_rows f g [] d h = refl
sum_by-map_rows f g ((k, a) ∷ rows) d h = ground (
  arith,
  h k a (ground arith),
  sum_by-map_rows f g rows (ground (arith, d)) (λ id r found. h id r (ground (arith, d, found))),
)

expired_candidates_reserved :
    (locked : ℕ → Bool) (limit now id : ℕ) (st : QuotaStore)
    → distinct st.reservations ≡ true
    → is_among (expired_candidates locked limit now st) id ≡ true
    → holds_at (is_expired locked now) id (get id st.reservations) ≡ true
unfolding expired_candidates
expired_candidates_reserved locked limit now id st d h =
    let rows = select (is_expired locked now) st.reservations in
    sym (is_among-select (is_expired locked now) id st.reservations d)
    ∙ sym (any-sort_by (λ e. e.0 == id) expires_before rows)
    ∙ any-first_rows (λ e. e.0 == id) (min (max limit 1) 500) (sort_by expires_before rows) h

held_by-expire_row :
    (m : Measure) (k : CounterKey) (locked : ℕ → Bool) (limit now id : ℕ) (row : Reservation)
    (st : QuotaStore)
    → distinct st.reservations ≡ true
    → get id st.reservations ≡ some row
    → held_by m k (expire_row (expired_candidates locked limit now st) id row) ≡ held_by m k row
held_by-expire_row m k locked limit now id row st d found =
    elim (Bool-cases (is_among (expired_candidates locked limit now st) id)) [
      | inr left ↦ ground (arith, left)
      | inl taken ↦
          let live : is_expired locked now (id, row) ≡ true =
            ground (arith, found, expired_candidates_reserved locked limit now id st d taken) in
          ground (arith, taken, live)
    ]

claim_expired-IsBalanced :
    (locked : ℕ → Bool) (limit now : ℕ) (st : QuotaStore)
    → IsBalanced st
    → IsBalanced (claim_expired locked limit now st).1
unfolding claim_expired
claim_expired-IsBalanced locked limit now st v =
    let row = expire_row (expired_candidates locked limit now st) in
    record {
      keys = distinct-map_rows row st.reservations v.keys;
      checked = v.checked;
      balance = λ m k.
          v.balance m k
          ∙ sym (
              sum_by-map_rows (held_by m k) row st.reservations v.keys
                (λ id r found. held_by-expire_row m k locked limit now id r st v.keys found));
    }

-- `confirm` goes through, and its result is in balance
confirm-IsBalanced :
    (id : ℕ) (st : QuotaStore)
    → IsBalanced st
    → (r : Bool × QuotaStore) × (confirm id st ≡ ok r) × IsBalanced r.1
unfolding confirm
confirm-IsBalanced id st v =
    let (r, done) = transition_total to_confirmed id st v in
    (r, done, transition-IsBalanced to_confirmed id st v done)

reconcile_one-IsBalanced :
    (has_file : ℕ → Bool) (id : ℕ) (st : QuotaStore)
    → IsBalanced st
    → (st' : QuotaStore) × (reconcile_one has_file id st ≡ ok st') × IsBalanced st'
unfolding reconcile_one
reconcile_one-IsBalanced has_file id st v = elim (Bool-cases (has_file id)) [
  | inl stored ↦
      let (r, done, w) = confirm-IsBalanced id st v in (r.1, ground (arith, stored, done), w)
  | inr lost ↦ (
    require_reconciliation id st,
    ground (arith, lost),
    require_reconciliation-IsBalanced id st v,
  )
]

-- The reconciliation job goes through to its end, from counters that are in balance, and keeps
-- them so.
reconcile_ids-IsBalanced :
    (has_file : ℕ → Bool) (ids : List ℕ) (st : QuotaStore)
    → IsBalanced st
    → IsBalanced (reconcile_ids has_file ids st).1 × ((reconcile_ids has_file ids st).0 ≡ none)
unfolding reconcile_ids
reconcile_ids-IsBalanced has_file [] st v = (v, refl)
reconcile_ids-IsBalanced has_file (id ∷ ids) st v =
    let (st', done, w) = reconcile_one-IsBalanced has_file id st v in
    let same : reconcile_ids has_file (id ∷ ids) st ≡ reconcile_ids has_file ids st' =
      ground (arith, done) in
    subst (λ x. IsBalanced x.1 × (x.0 ≡ none)) (sym same)
      (reconcile_ids-IsBalanced has_file ids st' w)

-- From counters that are in balance, the whole reconciliation job throws nothing and keeps the
-- balance, whatever it takes and finds.
pub reconcile_expired_batch-IsBalanced :
    (has_file locked : ℕ → Bool) (limit now : ℕ) (st : QuotaStore)
    → IsBalanced st
    → IsBalanced (reconcile_expired_batch has_file locked limit now st).1
      × ((reconcile_expired_batch has_file locked limit now st).0 ≡ none)
unfolding reconcile_expired_batch
reconcile_expired_batch-IsBalanced has_file locked limit now st v =
    let taken = claim_expired locked limit now st in
    reconcile_ids-IsBalanced has_file taken.0 taken.1
      (claim_expired-IsBalanced locked limit now st v)
