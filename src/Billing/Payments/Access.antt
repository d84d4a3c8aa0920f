-- ===== src/Billing/Payments/Access.antt =====
-- What the news of a payment makes of the subscription, and of the access that it gives:
-- `applyWithCas` of src/billing/payments.service.ts.
use next_stock_oficial.Prelude.{ℕ, ◌≡◌, ◌∙◌, sym, ap, true, false, Option, some, arith, inl, inr}
use next_stock_oficial.Prelude.Result.{ok, err, >>=-eq-ok, ok-injective}
use next_stock_oficial.Prelude.Table.{get, matching-cases, get-put_self}
use next_stock_oficial.Billing.Entitlement.{Subscription}
use next_stock_oficial.Billing.Subscriptions.{Accounts, cas_lost}
use next_stock_oficial.Billing.Payments.{PaymentReads, PaymentAnswer, applied, decision}
use next_stock_oficial.Billing.Payments.Dates.{period_end}
use next_stock_oficial.Billing.Payments.Apply.{is_unclaimed, claim_payment_news, write_payment}
use next_stock_oficial.Billing.Payments.Rows.{
  PaymentNews, period_start, paid_subscription, upsert_invoice, save_payment,
}
use next_stock_oficial.Billing.Payments.Kept.{follow_payment-Keeps}
use next_stock_oficial.Billing.Payments.Refines.{
  upsert_invoice-payments, BillingStateDecision-cases,
}
use next_stock_oficial.Billing.Payments.PaidFor.{Pays, paid_subscription-Pays}

save_payment-subscriptions :
    (n : PaymentNews) (reads : PaymentReads) (invoice_id : ℕ) (st : Accounts) {out : ℕ × Accounts}
    → save_payment n reads invoice_id st ≡ ok out
    → out.1.subscriptions ≡ st.subscriptions
unfolding save_payment
save_payment-subscriptions n reads invoice_id st h = ground (arith, h)

-- the subscription that a claim writes
record Wrote (n : PaymentNews) (reads : PaymentReads) (st st' : Accounts) : Type 0 where
  row : Subscription
  there : get reads.subscription_id st.subscriptions ≡ some row
  unclaimed : is_unclaimed reads row ≡ true
  ends : Option ℕ
  period : period_end (period_start n) reads.plan.interval reads.plan.interval_count ≡ ok ends
  written : get reads.subscription_id st'.subscriptions ≡ some (paid_subscription n reads ends row)

claim_payment_news-Wrote :
    (n : PaymentNews) (reads : PaymentReads) (st : Accounts) {a : PaymentAnswer} {st' : Accounts}
    → claim_payment_news n reads st ≡ ok (a, st')
    → Wrote n reads st st'
unfolding claim_payment_news
claim_payment_news-Wrote n reads st {st' = st'} h =
    elim (matching-cases (is_unclaimed reads) (get reads.subscription_id st.subscriptions)) [
      | inl lost ↦ absurd (ground (arith, lost, h))
      | inr (s, there, fits, matched) ↦
          let (ends, h1, k1) =
            >>=-eq-ok (period_end (period_start n) reads.plan.interval reads.plan.interval_count) _
              (rw (matched, claim_payment_news) at h) in
          let (invoiced, h2, k2) = >>=-eq-ok (upsert_invoice n reads ends _) _ k1 in
          let (saved, h3, k3) = >>=-eq-ok (save_payment n reads invoiced.0 invoiced.1) _ k2 in
          record {
            row = s;
            there = there;
            unclaimed = fits;
            ends = ends;
            period = h1;
            written =
                ap (λ x. get reads.subscription_id x.1.subscriptions) (sym (ok-injective k3))
                ∙ ap (get reads.subscription_id)
                    (follow_payment-Keeps n reads saved.1).subscriptions
                ∙ ap (get reads.subscription_id)
                    (save_payment-subscriptions n reads invoiced.0 invoiced.1 h3)
                ∙ ap (get reads.subscription_id) (upsert_invoice-payments n reads ends _ h2).1
                ∙ get-put_self reads.subscription_id (paid_subscription n reads ends s)
                    st.subscriptions;
          }
    ]

-- The claim of news that counts, of a subscription that was at the version `v`.
applied_claims :
    (n : PaymentNews) (reads : PaymentReads) (st : Accounts) {id : ℕ} {st' : Accounts}
    → write_payment n reads st ≡ ok (applied id, st')
    → claim_payment_news n reads st ≡ ok (applied id, st')
unfolding write_payment
applied_claims n reads st h = elim (BillingStateDecision-cases (decision n.result reads)) [
  | inl (why, decided) ↦ ground (arith, decided, h)
  | inr (why, decided) ↦ absurd (ground (arith, decided, h))
]

claim_payment_news_lost :
    (n : PaymentNews) (reads : PaymentReads) (st : Accounts) {s : Subscription}
    → get reads.subscription_id st.subscriptions ≡ some s
    → is_unclaimed reads s ≡ false
    → claim_payment_news n reads st ≡ err cas_lost
unfolding claim_payment_news
claim_payment_news_lost n reads st row claimed = ground (arith, row, claimed)

-- News of a payment that is applied finds the subscription at the version that the transaction has
-- read, and raises it. It is of the current period where the checkout is of the remote subscription
-- that the tenant has, the payment is not older than the last one, has a date where it is not
-- approved and follows another, and its plan is that of the checkout or of the subscription. Where
-- such a payment is approved and the subscription is not canceled with a period left, the tenant
-- gets the plan that is paid for and is let in until the period ends. Where it is refunded or
-- charged back, the tenant is not let in at all. Any other news leaves the plan, and lets the
-- tenant in at the times at which it was before. Of two transactions that have read the same
-- version, the claim of the second is lost.
pub write_payment-Pays :
    (n : PaymentNews) (reads : PaymentReads) (st : Accounts) {id : ℕ} {st' : Accounts}
    → write_payment n reads st ≡ ok (applied id, st')
    → (s s' : Subscription) × (ends : Option ℕ) × (get reads.subscription_id st.subscriptions
        ≡ some s)
      × (s.version ≡ reads.subscription.version)
      × (get reads.subscription_id st'.subscriptions ≡ some s')
      × (period_end (period_start n) reads.plan.interval reads.plan.interval_count ≡ ok ends)
      × Pays n reads ends s s'
      × ((m : PaymentNews) (same : PaymentReads)
          → same.subscription_id ≡ reads.subscription_id
          → same.subscription.version ≡ reads.subscription.version
          → claim_payment_news m same st' ≡ err cas_lost)
write_payment-Pays n reads st {st' = st'} h =
    let w = claim_payment_news-Wrote n reads st (applied_claims n reads st h) in
    let pays = paid_subscription-Pays n reads w.ends w.row in
    let at : w.row.version ≡ reads.subscription.version = ground (arith, w.unclaimed) in
    let s' = paid_subscription n reads w.ends w.row in
    (
      w.row,
      s',
      w.ends,
      w.there,
      at,
      w.written,
      w.period,
      pays,
      λ m same id version.
          claim_payment_news_lost m same st' (ap (λ k. get k st'.subscriptions) id ∙ w.written)
            (ground (arith, pays.raised, at, version)),
    )
