-- ===== src/Audit/Outbox/Candidates.antt =====
-- Which events a claim takes.
use next_stock_oficial.Prelude.{
  ◌==◌, ◌≤◌, select, length, ℕ, ◌≤◌, ◌≡◌, ◌∙◌, sym, ap, Bool, true, ◌&&◌, not, length, select,
  arith,
}
use next_stock_oficial.Prelude.Table.{get}
use next_stock_oficial.Prelude.Table.Distinct.{distinct, is_among, holds_at, is_among-select}
use next_stock_oficial.Audit.Outbox.{OutboxEvent, Outbox}
use next_stock_oficial.Audit.Outbox.Worker.{is_due, comes_before, candidates}
use next_stock_oficial.Prelude.Sort.{
  sort_by, any-sort_by, length-sort_by, length-select, first_rows_all, any-first_rows,
}

abbrev pub may_take : (ℕ → Bool) → ℕ → ℕ × OutboxEvent → Bool
may_take locked now e = is_due now e.1 && not (locked e.0)

-- A claim takes due events only.
pub candidates_due :
    (locked : ℕ → Bool) (limit now id : ℕ) (st : Outbox)
    → distinct st.events ≡ true
    → is_among (candidates locked limit now st) id ≡ true
    → holds_at (may_take locked now) id (get id st.events) ≡ true
unfolding candidates
candidates_due locked limit now id st d h =
    let rows = select (may_take locked now) st.events in
    sym (is_among-select (may_take locked now) id st.events d)
    ∙ sym (any-sort_by (λ e. e.0 == id) comes_before rows)
    ∙ any-first_rows (λ e. e.0 == id) limit (sort_by comes_before rows) h

-- With a limit that is no smaller than the outbox, it takes all of them that no one holds.
pub candidates_all :
    (locked : ℕ → Bool) (limit now id : ℕ) (st : Outbox)
    → distinct st.events ≡ true
    → length st.events ≤ limit
    → is_among (candidates locked limit now st) id
      ≡ holds_at (may_take locked now) id (get id st.events)
unfolding candidates
candidates_all locked limit now id st d h =
    let rows = select (may_take locked now) st.events in
    let fits : length (sort_by comes_before rows) ≤ limit =
      omega (
        arith,
        length-sort_by comes_before rows,
        length-select (may_take locked now) st.events,
        h,
      ) in
    ap (λ r. is_among r id) (first_rows_all limit (sort_by comes_before rows) fits)
    ∙ any-sort_by (λ e. e.0 == id) comes_before rows
    ∙ is_among-select (may_take locked now) id st.events d
