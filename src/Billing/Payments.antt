-- ===== src/Billing/Payments.antt =====
-- `processVerifiedPayment` of src/billing/payments.service.ts: what a payment's news from the
-- provider makes of the subscription and of its ledger. This file is what a transaction reads;
-- Payments/Apply is what it writes.
pub mod Dates
pub mod Current
pub mod Founded
pub mod Referral
pub mod Rows
pub mod Apply
pub mod Kept
pub mod States
pub mod Refines
pub mod Receives
pub mod PaidFor
pub mod Access
pub mod Contention
use next_stock_oficial.Prelude.{
  ℕ, Bool, true, false, not, ◌&&◌, ◌||◌, Option, none, some, List, [], ◌∷◌, find, eq_option, ltb,
  ◌==◌, if◌then◌else◌,
}
use next_stock_oficial.Prelude.Result.{Result, ok, err, ◌>>=◌, ◌>>◌, throw_if}
use next_stock_oficial.Prelude.Table.{Table, get}
use next_stock_oficial.Prelude.Text.{Text, text_eq}
use next_stock_oficial.Billing.StateOrder.{
  PaymentStatus, approved, PaymentState, BillingStateDecision, RejectReason, decide_billing_state,
  status_of, time_of,
}
use next_stock_oficial.Billing.Ledger.{BillingPayment}
use next_stock_oficial.Billing.Entitlement.{Subscription, is_canceled, first_of}
use next_stock_oficial.Billing.Subscriptions.{
  Accounts, BillingError, CheckoutSession, Plan, other_checkout, payment_differs, plan_missing,
  before_renewal,
}

-- GatewayPaymentResult, without the provider's own words
pub record GatewayPaymentResult : Type 0 where
  pub gateway_payment_id : ℕ
  pub external_reference : Option ℕ
  pub amount_cents : ℕ
  pub currency : Text
  pub paid_at : Option ℕ
  pub provider_occurred_at : Option ℕ
  pub normalized_status : PaymentStatus

-- what a transaction has read before it claims the subscription; the checkout is that of the
-- payment, under the plan that a payment which is known already was for
pub record PaymentReads : Type 0 where
  pub checkout_id : ℕ
  pub checkout : CheckoutSession
  pub plan_id : ℕ
  pub plan : Plan
  pub subscription_id : ℕ
  pub subscription : Subscription
  pub existing : Option (ℕ × BillingPayment)

pub data PaymentAnswer : Type 0 where
  missing_external_reference invalid_external_reference : PaymentAnswer
  checkout_not_found subscription_not_found : PaymentAnswer
  -- `{ processed: true, applied: false }`, with the reason
  not_applied : RejectReason → PaymentAnswer
  -- `{ processed: true, applied: true }`, with the payment
  applied : ℕ → PaymentAnswer

pub data PaymentLookup : Type 0 where
  answered : PaymentAnswer → PaymentLookup
  looked_up : PaymentReads → PaymentLookup

abbrev pub is_approved : PaymentStatus → Bool
is_approved approved = true
is_approved _ = false

-- `where: { tenantId, provider, gatewayPaymentId }`
abbrev pub is_payment : ℕ → ℕ → ℕ → ℕ × BillingPayment → Bool
is_payment tenant_id provider gateway_payment_id e =
    e.1.tenant_id == tenant_id
    && e.1.provider == provider
    && e.1.gateway_payment_id == gateway_payment_id

-- `existing?.status` and `existing?.providerOccurredAt`
abbrev pub state_of : BillingPayment → PaymentState
state_of p = record { status = p.status; occurred_at = p.provider_occurred_at }

abbrev pub state_in : Option (ℕ × BillingPayment) → Option PaymentState
state_in none = none
state_in (some e) = some (state_of e.1)

abbrev pub news_of : GatewayPaymentResult → PaymentState
news_of result = record {
  status = result.normalized_status;
  occurred_at = result.provider_occurred_at;
}

-- a payment that is known to another checkout
abbrev pub of_other_checkout : ℕ → Option (ℕ × BillingPayment) → Bool
of_other_checkout checkout_id none = false
of_other_checkout checkout_id (some e) = not (eq_option e.1.checkout_session_id (some checkout_id))

-- the amount and the currency that are expected
abbrev pub is_expected : GatewayPaymentResult → CheckoutSession → Option (ℕ × BillingPayment) → Bool
is_expected result c none =
    result.amount_cents == c.expected_amount_cents && text_eq result.currency c.currency
is_expected result c (some e) =
    result.amount_cents == e.1.amount_cents && text_eq result.currency e.1.currency

-- the plan that the payment is for
abbrev pub plan_paid_for : CheckoutSession → Option (ℕ × BillingPayment) → ℕ
plan_paid_for c none = c.plan_id
plan_paid_for c (some e) = e.1.plan_id

abbrev is_before : Option ℕ → Option ℕ → Bool
is_before none b = false
is_before (some a) none = false
is_before (some a) (some b) = ltb a b

-- `!a || !b || a < b`
abbrev may_be_before : Option ℕ → Option ℕ → Bool
may_be_before none b = true
may_be_before (some a) none = true
may_be_before (some a) (some b) = ltb a b

abbrev has_other_plan : ℕ → Option ℕ → Bool
has_other_plan plan_id none = false
has_other_plan plan_id (some current) = not (plan_id == current)

-- a payment that is not known, of the paid period, against the checkout of a new plan
abbrev pub is_early :
    GatewayPaymentResult → CheckoutSession → Subscription → Option (ℕ × BillingPayment) → Bool
is_early result c s (some e) = false
is_early result c s none =
    has_other_plan c.plan_id s.plan_id && may_be_before result.paid_at s.current_period_ends_at

abbrev pub find_payment : ℕ → ℕ → ℕ → Accounts → Option (ℕ × BillingPayment)
find_payment tenant_id provider gateway_payment_id st =
    find (is_payment tenant_id provider gateway_payment_id) st.payments

abbrev pub or_missing {ℓ} : {A : Type ℓ} → Option A → Result BillingError A
or_missing none = err plan_missing
or_missing (some a) = ok a

-- the checks of a payment of a checkout and its subscription
unfoldable pub check_payment :
    GatewayPaymentResult
    → ℕ × CheckoutSession
    → ℕ × Subscription
    → Option (ℕ × BillingPayment)
    → Accounts
    → Result BillingError PaymentReads
check_payment result c s existing st = do
  throw_if (of_other_checkout c.0 existing) other_checkout
  throw_if (not (is_expected result c.1 existing)) payment_differs
  plan ← or_missing (get (plan_paid_for c.1 existing) st.plans)
  throw_if (is_early result c.1 s.1 existing) before_renewal
  ok (record {
    checkout_id = c.0;
    checkout = c.1;
    plan_id = plan_paid_for c.1 existing;
    plan = plan;
    subscription_id = s.0;
    subscription = s.1;
    existing = existing;
  })

abbrev pub row_of : Option ℕ → Table Subscription → Option (ℕ × Subscription)
row_of none rows = none
row_of (some id) rows = elim (get id rows) [ none ↦ none | some s ↦ some (id, s) ]

abbrev pub is_referenced : ℕ → ℕ × CheckoutSession → Bool
is_referenced reference e = e.1.external_reference == reference

abbrev pub look_up : Result BillingError PaymentReads → Result BillingError PaymentLookup
look_up (ok reads) = ok (looked_up reads)
look_up (err e) = err e

-- what `applyWithCas` reads
unfoldable pub read_payment :
    ℕ → GatewayPaymentResult → ℕ → Accounts → Result BillingError PaymentLookup
unfolding check_payment
read_payment provider result reference st = elim (find (is_referenced reference) st.checkouts) [
  | none ↦ ok (answered checkout_not_found)
  | some c ↦
      if not (c.1.provider == provider)
      then ok (answered checkout_not_found)
      else elim (row_of c.1.subscription_id st.subscriptions) [
        | none ↦ ok (answered subscription_not_found)
        | some s ↦ look_up (
            check_payment result c s
              (find_payment c.1.tenant_id provider result.gateway_payment_id st) st)
      ]
]

-- `preserveCanceledSubscription`
abbrev pub preserves : GatewayPaymentResult → PaymentReads → Bool
preserves result reads =
    is_approved result.normalized_status
    && is_canceled reads.subscription.status
    && reads.subscription.cancel_at_period_end

abbrev differ : Option ℕ → Option ℕ → Bool
differ none b = false
differ (some a) none = false
differ (some a) (some b) = not (a == b)

abbrev paid_before : Option (ℕ × BillingPayment) → Option ℕ
paid_before none = none
paid_before (some e) = e.1.paid_at

-- `result.paidAt ?? existing?.paidAt ?? null`
abbrev pub payment_period_start : GatewayPaymentResult → PaymentReads → Option ℕ
payment_period_start result reads = first_of result.paid_at (paid_before reads.existing)

abbrev is_ambiguous : PaymentStatus → Option ℕ → Option ℕ → Bool
is_ambiguous status none start = false
is_ambiguous status (some last) (some start) = false
is_ambiguous status (some last) none = not (is_approved status)

-- a payment for a plan that its checkout is no longer for, and that the subscription does not have
abbrev of_former_plan : PaymentReads → Bool
of_former_plan reads =
    not (reads.plan_id == reads.checkout.plan_id)
    && not (eq_option reads.subscription.plan_id (some reads.plan_id))

-- `protectCurrentSubscription`: the news is not of the period that is paid for now
unfoldable pub protects : GatewayPaymentResult → PaymentReads → Bool
protects result reads =
    let start = payment_period_start result reads in
    differ reads.checkout.gateway_checkout_id reads.subscription.gateway_subscription_id
    || is_before start reads.subscription.last_payment_at
    || is_ambiguous result.normalized_status reads.subscription.last_payment_at start
    || of_former_plan reads

-- the decision of the state order about this news
abbrev pub decision : GatewayPaymentResult → PaymentReads → BillingStateDecision
decision result reads =
    decide_billing_state (status_of (state_in reads.existing)) (time_of (state_in reads.existing))
      result.normalized_status result.provider_occurred_at
