-- ===== src/Billing/Payments/Refines.antt =====
-- One transaction of `applyWithCas` of src/billing/payments.service.ts, beside the order of states.
use next_stock_oficial.Prelude.{
  ℕ, ◌≡◌, ◌⊎◌, refl, ◌∙◌, sym, ap, Bool, true, Option, none, some, find, arith, inl, inr,
  Option-cases,
}
use next_stock_oficial.Prelude.Result.{ok, >>=-eq-ok, ok-injective}
use next_stock_oficial.Prelude.Table.{get, put, matching-cases, find-put}
use next_stock_oficial.Prelude.Table.Distinct.{distinct}
use next_stock_oficial.Prelude.Table.Find.{get-find, find-meets, find-put_found}
use next_stock_oficial.Billing.Ledger.{BillingPayment}
use next_stock_oficial.Billing.StateOrder.{
  BillingStateDecision, ApplyReason, RejectReason, apply, reject, process_news,
}
use next_stock_oficial.Billing.Subscriptions.{Accounts}
use next_stock_oficial.Billing.Payments.{
  GatewayPaymentResult, PaymentReads, PaymentAnswer, is_payment, state_in, news_of, decision,
}
use next_stock_oficial.Billing.Payments.Apply.{claim_payment_news, write_payment, is_unclaimed}
use next_stock_oficial.Billing.Payments.Rows.{
  PaymentNews, renew_payment, new_payment, save_payment, upsert_invoice, period_start,
}
use next_stock_oficial.Billing.Payments.Dates.{period_end}
use next_stock_oficial.Billing.Payments.Kept.{follow_payment-Keeps}
use next_stock_oficial.Billing.Payments.States.{Refines, own, save_existing, save_new, put-Refines}

pub BillingStateDecision-cases :
    (b : BillingStateDecision)
    → ((why : ApplyReason) × (b ≡ apply why)) ⊎ ((why : RejectReason) × (b ≡ reject why))
BillingStateDecision-cases (apply why) = inl (why, refl)
BillingStateDecision-cases (reject why) = inr (why, refl)

process_news_applied :
    (result : GatewayPaymentResult) (reads : PaymentReads) {why : ApplyReason}
    → decision result reads ≡ apply why
    → some (news_of result) ≡ process_news (state_in reads.existing) (news_of result)
unfolding process_news
process_news_applied result reads h = ground (arith, h)

process_news_rejected :
    (result : GatewayPaymentResult) (reads : PaymentReads) {why : RejectReason}
    → decision result reads ≡ reject why
    → state_in reads.existing ≡ process_news (state_in reads.existing) (news_of result)
unfolding process_news
process_news_rejected result reads h = ground (arith, h)

pub upsert_invoice-payments :
    (n : PaymentNews) (reads : PaymentReads) (ends : Option ℕ) (st : Accounts) {out : ℕ × Accounts}
    → upsert_invoice n reads ends st ≡ ok out
    → (out.1.payments ≡ st.payments) × (out.1.subscriptions ≡ st.subscriptions)
unfolding upsert_invoice
upsert_invoice-payments n reads ends st h = (ground (arith, h), ground (arith, h))

-- what a claim has gone through
record Claimed (n : PaymentNews) (reads : PaymentReads) (st st' : Accounts) : Type 0 where
  middle : Accounts
  payments : middle.payments ≡ st.payments
  invoice_id : ℕ
  saved : ℕ × Accounts
  saves : save_payment n reads invoice_id middle ≡ ok saved
  last : st'.payments ≡ saved.1.payments

claim_payment_news_ok :
    (n : PaymentNews) (reads : PaymentReads) (st : Accounts) {a : PaymentAnswer} {st' : Accounts}
    → claim_payment_news n reads st ≡ ok (a, st')
    → Claimed n reads st st'
unfolding claim_payment_news
claim_payment_news_ok n reads st {st' = st'} h =
    elim (matching-cases (is_unclaimed reads) (get reads.subscription_id st.subscriptions)) [
      | inl lost ↦ absurd (ground (arith, lost, h))
      | inr (s, _, _, matched) ↦
          let (ends, h1, k1) =
            >>=-eq-ok (period_end (period_start n) reads.plan.interval reads.plan.interval_count) _
              (rw (matched, claim_payment_news) at h) in
          let (invoiced, h2, k2) = >>=-eq-ok (upsert_invoice n reads ends _) _ k1 in
          let (saved, h3, k3) = >>=-eq-ok (save_payment n reads invoiced.0 invoiced.1) _ k2 in
          record {
            middle = invoiced.1;
            payments = (upsert_invoice-payments n reads ends _ h2).0;
            invoice_id = invoiced.0;
            saved = saved;
            saves = h3;
            last =
                ap (λ x. x.1.payments) (sym (ok-injective k3))
                ∙ (follow_payment-Keeps n reads saved.1).payments;
          }
    ]

module _ (n : PaymentNews) (reads : PaymentReads) (st : Accounts) (d : distinct st.payments ≡ true)
    (seen : own n reads st st ≡ reads.existing) where
  abbrev is_its : ℕ × BillingPayment → Bool
  is_its = is_payment reads.checkout.tenant_id n.provider n.result.gateway_payment_id

  -- the payment was known: its row is rewritten
  renewed-Refines :
      (e : ℕ × BillingPayment) (invoice_id : ℕ) {st' : Accounts}
      → reads.existing ≡ some e
      → st'.payments ≡ put e.0 (renew_payment n invoice_id e.1 e.1) st.payments
      → some (news_of n.result) ≡ process_news (state_in reads.existing) (news_of n.result)
      → Refines n reads.checkout.tenant_id st st'
  renewed-Refines e invoice_id {st'} known wrote counts =
      let found : find is_its st.payments ≡ some e = seen ∙ known in
      let row = get-find is_its st.payments d found in
      let b = renew_payment n invoice_id e.1 e.1 in
      let meets = find-meets is_its st.payments found in
      put-Refines n reads.checkout.tenant_id st st' e.0 b d wrote (ground (arith, meets))
        (ground (arith, row, meets))
        (find-put_found is_its e.0 e.1 b st.payments found row (ground (arith, meets)))
        (counts ∙ ap (λ o. process_news (state_in o) (news_of n.result)) (sym seen))

  -- the payment was not known: a row is made
  made-Refines :
      (invoice_id : ℕ) {st' : Accounts}
      → reads.existing ≡ none
      → get n.payment_id st.payments ≡ none
      → st'.payments ≡ put n.payment_id (new_payment n reads invoice_id) st.payments
      → some (news_of n.result) ≡ process_news (state_in reads.existing) (news_of n.result)
      → Refines n reads.checkout.tenant_id st st'
  made-Refines invoice_id {st'} fresh free wrote counts =
      let b = new_payment n reads invoice_id in
      let mine : is_its (n.payment_id, b) ≡ true = ground arith in
      put-Refines n reads.checkout.tenant_id st st' n.payment_id b d wrote mine
        (ground (arith, free)) (find-put is_its n.payment_id b st.payments (seen ∙ fresh) free mine)
        (counts ∙ ap (λ o. process_news (state_in o) (news_of n.result)) (sym seen))

  claim_payment_news-Refines :
      {a : PaymentAnswer} {st' : Accounts}
      → some (news_of n.result) ≡ process_news (state_in reads.existing) (news_of n.result)
      → claim_payment_news n reads st ≡ ok (a, st')
      → Refines n reads.checkout.tenant_id st st'
  claim_payment_news-Refines counts h =
      let c = claim_payment_news_ok n reads st h in
      elim (Option-cases reads.existing) [
        | inr (e, known) ↦
            renewed-Refines e c.invoice_id known
              (c.last
                ∙ save_existing n reads c.middle c.invoice_id e (ap distinct c.payments ∙ d) known
                    (ap (find is_its) c.payments ∙ seen ∙ known) c.saves
                ∙ ap (put e.0 (renew_payment n c.invoice_id e.1 e.1)) c.payments)
              counts
        | inl fresh ↦
            let (wrote, free) = save_new n reads c.middle c.invoice_id fresh c.saves in
            made-Refines c.invoice_id fresh (ap (get n.payment_id) (sym c.payments) ∙ free)
              (c.last ∙ wrote ∙ ap (put n.payment_id (new_payment n reads c.invoice_id)) c.payments)
              counts
      ]

  -- The second part of the transaction, whose payment stands as it was read.
  pub write_payment-Refines :
      {a : PaymentAnswer} {st' : Accounts}
      → write_payment n reads st ≡ ok (a, st')
      → Refines n reads.checkout.tenant_id st st'
  unfolding write_payment
  write_payment-Refines {st' = st'} h =
      elim (BillingStateDecision-cases (decision n.result reads)) [
        | inl (why, decided) ↦
            claim_payment_news-Refines (process_news_applied n.result reads decided)
              (rw (decided, write_payment) at h)
        | inr (why, decided) ↦
            let same : st'.payments ≡ st.payments = ground (arith, decided, h) in
            record {
              processed =
                  ap (λ x. state_in (find is_its x)) same
                  ∙ ap state_in seen
                  ∙ process_news_rejected n.result reads decided
                  ∙ ap (λ o. process_news (state_in o) (news_of n.result)) (sym seen);
              others = λ t p g _. ap (λ x. state_in (find (is_payment t p g) x)) same;
              keys = ap distinct same ∙ d;
            }
      ]
