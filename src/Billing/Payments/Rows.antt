-- ===== src/Billing/Payments/Rows.antt =====
-- The rows that `applyWithCas` of src/billing/payments.service.ts writes for a payment: the
-- subscription, the invoice and the payment itself.
use next_stock_oficial.Prelude.{
  ℕ, ◌+◌, Bool, true, false, not, ◌&&◌, ◌||◌, Option, none, some, any, find, is_some, ◌==◌,
  if◌then◌else◌,
}
use next_stock_oficial.Prelude.Result.{Result, ok, err}
use next_stock_oficial.Prelude.Table.{get, put, matching}
use next_stock_oficial.Billing.StateOrder.{PaymentStatus}
use next_stock_oficial.Billing.Ledger.{BillingInvoice, BillingInvoiceStatus, BillingPayment}
use next_stock_oficial.Billing.Entitlement.{Subscription, SubscriptionStatus, first_of}
use next_stock_oficial.Billing.Subscriptions.{Accounts, BillingError, cas_lost, unique_violation}
use next_stock_oficial.Billing.Payments.{
  GatewayPaymentResult, PaymentReads, is_approved, preserves, protects,
}
use next_stock_oficial.Billing.Payments.Referral.{or_now}

-- a piece of news with its provider, the clock and the keys of new rows
pub record PaymentNews : Type 0 where
  pub provider : ℕ
  pub result : GatewayPaymentResult
  pub now : ℕ
  pub payment_id : ℕ
  pub invoice_id : ℕ

abbrev pub is_reversal : PaymentStatus → Bool
is_reversal PaymentStatus.refunded = true
is_reversal PaymentStatus.chargeback = true
is_reversal _ = false

-- `result.paidAt ?? result.providerOccurredAt ?? new Date()`
abbrev pub period_start : PaymentNews → ℕ
period_start n = or_now (first_of n.result.paid_at n.result.provider_occurred_at) n.now

-- `subscriptionState`
unfoldable pub subscription_state : PaymentNews → Subscription → Subscription
subscription_state n s =
    if is_approved n.result.normalized_status
    then record s {
      status = SubscriptionStatus.active;
      gateway_provider = some n.provider;
      current_period_started_at = some (period_start n);
      last_payment_at = some (period_start n);
      grace_ends_at = none;
    }
    else if is_reversal n.result.normalized_status
    then record s { status = SubscriptionStatus.suspended }
    else s

-- the last news of a payment of the current period
abbrev pub note_news : PaymentNews → Subscription → Subscription
note_news n s = record s {
  last_payment_state = some n.result.normalized_status;
  last_provider_event_at = n.result.provider_occurred_at;
}

-- an approved payment of the current period
abbrev pub activates : PaymentNews → PaymentReads → Bool
activates n reads =
    is_approved n.result.normalized_status
    && not (preserves n.result reads)
    && not (protects n.result reads)

-- the subscription after its claim and its activation
unfoldable pub paid_subscription :
    PaymentNews → PaymentReads → Option ℕ → Subscription → Subscription
unfolding subscription_state protects
paid_subscription n reads ends s =
    let is_kept = preserves n.result reads || protects n.result reads in
    let state = if is_kept then s else subscription_state n s in
    let noted = if protects n.result reads then state else note_news n state in
    let claimed = record noted { version = s.version + 1 } in
    if activates n reads
    then record claimed { plan_id = some reads.plan_id; current_period_ends_at = ends }
    else claimed

unfoldable pub invoice_status : PaymentStatus → BillingInvoiceStatus
invoice_status PaymentStatus.approved = BillingInvoiceStatus.paid
invoice_status PaymentStatus.refunded = BillingInvoiceStatus.refunded
invoice_status PaymentStatus.chargeback = BillingInvoiceStatus.chargeback
invoice_status PaymentStatus.canceled = BillingInvoiceStatus.void
invoice_status _ = BillingInvoiceStatus.pending

abbrev paid_time : PaymentNews → Option ℕ
paid_time n = if is_approved n.result.normalized_status then some (period_start n) else none

abbrev is_invoice : ℕ → ℕ → ℕ × BillingInvoice → Bool
is_invoice provider gateway_invoice_id e =
    e.1.provider == provider && e.1.gateway_invoice_id == gateway_invoice_id

-- `ON CONFLICT ... DO UPDATE`: an invoice keeps its period, its amount and the time it was paid
abbrev renew_invoice : PaymentNews → BillingInvoice → BillingInvoice
renew_invoice n i = record i {
  status = invoice_status n.result.normalized_status;
  paid_at = if is_approved n.result.normalized_status then paid_time n else i.paid_at;
  last_provider_event_at = n.result.provider_occurred_at;
  last_payment_state = n.result.normalized_status;
}

abbrev new_invoice : PaymentNews → PaymentReads → Option ℕ → BillingInvoice
new_invoice n reads ends = record {
  tenant_id = reads.checkout.tenant_id;
  subscription_id = reads.subscription_id;
  plan_id = reads.plan_id;
  provider = n.provider;
  gateway_invoice_id = n.result.gateway_payment_id;
  status = invoice_status n.result.normalized_status;
  period_started_at = period_start n;
  period_ends_at = ends;
  amount_cents = n.result.amount_cents;
  currency = n.result.currency;
  paid_at = paid_time n;
  last_provider_event_at = n.result.provider_occurred_at;
  last_payment_state = n.result.normalized_status;
}

-- another invoice of the subscription for a period that starts at the same time
abbrev is_same_period : BillingInvoice → ℕ × BillingInvoice → Bool
is_same_period i e =
    e.1.subscription_id == i.subscription_id && e.1.period_started_at == i.period_started_at

-- the invoice of the payment, made or renewed, with its key
unfoldable pub upsert_invoice :
    PaymentNews → PaymentReads → Option ℕ → Accounts → Result BillingError (ℕ × Accounts)
unfolding invoice_status
upsert_invoice n reads ends st =
    elim (find (is_invoice n.provider n.result.gateway_payment_id) st.invoices) [
      | some e ↦ ok (e.0, record st { invoices = put e.0 (renew_invoice n e.1) st.invoices })
      | none ↦
          let made = new_invoice n reads ends in
          if is_some (get n.invoice_id st.invoices) || any (is_same_period made) st.invoices
          then err unique_violation
          else ok (n.invoice_id, record st { invoices = put n.invoice_id made st.invoices })
    ]

-- the payment after an approval or a reversal
abbrev pub renew_payment : PaymentNews → ℕ → BillingPayment → BillingPayment → BillingPayment
renew_payment n invoice_id read p = record p {
  invoice_id = invoice_id;
  status = n.result.normalized_status;
  paid_at =
      if is_approved n.result.normalized_status
      then some (or_now (first_of n.result.paid_at read.paid_at) (period_start n))
      else read.paid_at;
  refunded_at =
      if is_reversal n.result.normalized_status
      then some (or_now n.result.provider_occurred_at n.now)
      else read.refunded_at;
  provider_occurred_at = n.result.provider_occurred_at;
  version = p.version + 1;
}

abbrev pub new_payment : PaymentNews → PaymentReads → ℕ → BillingPayment
new_payment n reads invoice_id = record {
  tenant_id = reads.checkout.tenant_id;
  subscription_id = reads.subscription_id;
  plan_id = reads.plan_id;
  checkout_session_id = some reads.checkout_id;
  invoice_id = invoice_id;
  provider = n.provider;
  gateway_payment_id = n.result.gateway_payment_id;
  status = n.result.normalized_status;
  amount_cents = n.result.amount_cents;
  currency = n.result.currency;
  paid_at = paid_time n;
  refunded_at =
      if is_reversal n.result.normalized_status
      then some (or_now n.result.provider_occurred_at n.now)
      else none;
  provider_occurred_at = n.result.provider_occurred_at;
  version = 1;
}

-- the unique key of the provider's payments, over all tenants
abbrev is_gateway_payment : ℕ → ℕ → ℕ × BillingPayment → Bool
is_gateway_payment provider gateway_payment_id e =
    e.1.provider == provider && e.1.gateway_payment_id == gateway_payment_id

abbrev pub is_read : ℕ → BillingPayment → BillingPayment → Bool
is_read tenant_id read p = p.tenant_id == tenant_id && p.version == read.version

-- the payment is updated under its version, or made
unfoldable pub save_payment :
    PaymentNews → PaymentReads → ℕ → Accounts → Result BillingError (ℕ × Accounts)
save_payment n reads invoice_id st = elim reads.existing [
  | some e ↦ elim (matching (is_read reads.checkout.tenant_id e.1) (get e.0 st.payments)) [
    | none ↦ err cas_lost
    | some p ↦
        ok (e.0, record st { payments = put e.0 (renew_payment n invoice_id e.1 p) st.payments })
  ]
  | none ↦
      if is_some (get n.payment_id st.payments)
        || is_some (find (is_gateway_payment n.provider n.result.gateway_payment_id) st.payments)
      then err unique_violation
      else ok (
        n.payment_id,
        record st { payments = put n.payment_id (new_payment n reads invoice_id) st.payments },
      )
]
