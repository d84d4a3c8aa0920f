-- ===== src/Billing/Payments/States.antt =====
-- The state of each payment in the ledger that `applyWithCas` of src/billing/payments.service.ts
-- writes.
use next_stock_oficial.Prelude.{
  ℕ, ◌≡◌, ◌∙◌, ap, Bool, true, false, not, ◌&&◌, Option, none, some, find, ◌==◌, arith, inl, inr,
  Option-cases,
}
use next_stock_oficial.Prelude.Result.{ok}
use next_stock_oficial.Prelude.Table.{get, put, matching-cases}
use next_stock_oficial.Prelude.Table.Find.{get-find, unseen, find-put-unseen}
use next_stock_oficial.Prelude.Table.Distinct.{distinct, distinct-put}
use next_stock_oficial.Billing.Ledger.{BillingPayment}
use next_stock_oficial.Billing.StateOrder.{PaymentState, process_news}
use next_stock_oficial.Billing.Subscriptions.{Accounts}
use next_stock_oficial.Billing.Payments.{
  PaymentReads, is_payment, state_of, state_in, news_of, find_payment,
}
use next_stock_oficial.Billing.Payments.Rows.{
  PaymentNews, renew_payment, new_payment, is_read, save_payment,
}

-- the state of a payment as the ledger has it
abbrev pub payment_state : ℕ → ℕ → ℕ → Accounts → Option PaymentState
payment_state tenant_id provider gateway_payment_id st =
    state_in (find_payment tenant_id provider gateway_payment_id st)

-- One piece of news takes one payment of a tenant where the order of states takes it, and no other payment
-- anywhere.
pub record Refines (n : PaymentNews) (tenant_id : ℕ) (st st' : Accounts) : Type 0 where
  pub processed :
      payment_state tenant_id n.provider n.result.gateway_payment_id st'
      ≡ process_news
          (payment_state tenant_id n.provider n.result.gateway_payment_id st)
          (news_of n.result)
  pub others :
      (t p g : ℕ)
      → (t == tenant_id && p == n.provider && g == n.result.gateway_payment_id) ≡ false
      → payment_state t p g st' ≡ payment_state t p g st
  pub keys : distinct st'.payments ≡ true

module _ (n : PaymentNews) (reads : PaymentReads) (st : Accounts) where
  abbrev pub own : Accounts → Option (ℕ × BillingPayment)
  own = find_payment reads.checkout.tenant_id n.provider n.result.gateway_payment_id

  pub save_existing :
      (invoice_id : ℕ) (e : ℕ × BillingPayment) {out : ℕ × Accounts}
      → distinct st.payments ≡ true
      → reads.existing ≡ some e
      → own st ≡ some e
      → save_payment n reads invoice_id st ≡ ok out
      → out.1.payments ≡ put e.0 (renew_payment n invoice_id e.1 e.1) st.payments
  unfolding save_payment
  save_existing invoice_id e {out} d known found h =
      let row = get-find _ st.payments d found in
      elim (matching-cases (is_read reads.checkout.tenant_id e.1) (get e.0 st.payments)) [
        | inl lost ↦ absurd (ground (arith, known, lost, h))
        | inr (p, there, _, matched) ↦ ground (arith, known, matched, h, row, there)
      ]

  pub save_new :
      (invoice_id : ℕ) {out : ℕ × Accounts}
      → reads.existing ≡ none
      → save_payment n reads invoice_id st ≡ ok out
      → (out.1.payments ≡ put n.payment_id (new_payment n reads invoice_id) st.payments)
        × (get n.payment_id st.payments ≡ none)
  unfolding save_payment
  save_new invoice_id {out} fresh h = (ground (arith, fresh, h), ground (arith, fresh, h))

-- a row that is written for the payment, whose earlier row, if any, stood under the same key
module _ (n : PaymentNews) (tenant_id : ℕ) (st st' : Accounts) (k : ℕ) (b : BillingPayment)
    (d : distinct st.payments ≡ true) (wrote : st'.payments ≡ put k b st.payments)
    (mine : is_payment tenant_id n.provider n.result.gateway_payment_id (k, b) ≡ true) where
  abbrev pub is_own : ℕ × BillingPayment → Bool
  is_own = is_payment tenant_id n.provider n.result.gateway_payment_id

  others_kept :
      unseen (λ e. not (is_own e)) k (get k st.payments) ≡ true
      → (t p g : ℕ)
      → (t == tenant_id && p == n.provider && g == n.result.gateway_payment_id) ≡ false
      → payment_state t p g st' ≡ payment_state t p g st
  others_kept before t p g apart =
      let out : is_payment t p g (k, b) ≡ false = ground (arith, mine, apart) in
      let hidden : unseen (is_payment t p g) k (get k st.payments) ≡ true =
        elim (Option-cases (get k st.payments)) [
          | inl free ↦ ground (arith, free)
          | inr (a, there) ↦ ground (arith, there, before, apart)
        ] in
      ap (λ x. state_in (find (is_payment t p g) x)) wrote
      ∙ ap state_in (find-put-unseen (is_payment t p g) k b st.payments hidden out)

  pub put-Refines :
      unseen (λ e. not (is_own e)) k (get k st.payments) ≡ true
      → find is_own (put k b st.payments) ≡ some (k, b)
      → some (state_of b) ≡ process_news (state_in (find is_own st.payments)) (news_of n.result)
      → Refines n tenant_id st st'
  put-Refines before found counts = record {
    processed = ap (λ x. state_in (find is_own x)) wrote ∙ ap state_in found ∙ counts;
    others = others_kept before;
    keys = ap distinct wrote ∙ distinct-put k b st.payments d;
  }
