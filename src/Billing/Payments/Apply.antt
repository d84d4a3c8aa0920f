-- ===== src/Billing/Payments/Apply.antt =====
-- What `applyWithCas` of src/billing/payments.service.ts writes, in the order of the code, with what
-- the transaction has read. The version of the subscription guards the whole of it.
use next_stock_oficial.Prelude.{
  ℕ, Bool, true, false, ◌&&◌, Option, none, some, ◌∷◌, eq_option, ◌==◌, if◌then◌else◌,
}
use next_stock_oficial.Prelude.Result.{Result, ok, err, ◌>>=◌}
use next_stock_oficial.Prelude.Table.{get, put, matching, map_rows}
use next_stock_oficial.Billing.StateOrder.{PaymentStatus, apply, reject}
use next_stock_oficial.Billing.Ledger.{CheckoutSessionStatus}
use next_stock_oficial.Billing.Entitlement.{Subscription}
use next_stock_oficial.Billing.Subscriptions.{
  Accounts, BillingError, BillingEventType, BillingSubscriptionOperationState,
  SubscriptionOperation, processing, succeeded, cas_lost, is_plan_change, is_of,
}
use next_stock_oficial.Billing.Payments.{
  PaymentReads, PaymentAnswer, PaymentLookup, answered, looked_up, applied, not_applied,
  missing_external_reference, invalid_external_reference, protects, decision, read_payment,
}
use next_stock_oficial.Billing.Payments.Dates.{period_end}
use next_stock_oficial.Billing.Payments.Referral.{
  or_now, sync_partner_referral, convert_promotion_reservation,
}
use next_stock_oficial.Billing.Payments.Rows.{
  PaymentNews, period_start, activates, paid_subscription, upsert_invoice, save_payment,
}

-- `checkoutStatus`
unfoldable pub checkout_status : PaymentStatus → CheckoutSessionStatus → CheckoutSessionStatus
checkout_status PaymentStatus.approved current = CheckoutSessionStatus.completed
checkout_status PaymentStatus.canceled current = CheckoutSessionStatus.canceled
checkout_status PaymentStatus.rejected current = CheckoutSessionStatus.failed
checkout_status _ CheckoutSessionStatus.opened = CheckoutSessionStatus.pending
checkout_status _ current = current

abbrev completed_time : ℕ → CheckoutSessionStatus → Option ℕ → Option ℕ
completed_time now CheckoutSessionStatus.completed before = some (or_now before now)
completed_time now _ before = before

-- the checkout follows the payment
unfoldable pub settle_checkout : PaymentNews → PaymentReads → Accounts → Accounts
unfolding checkout_status
settle_checkout n reads st =
    elim (matching (λ c. c.tenant_id == reads.checkout.tenant_id)
      (get reads.checkout_id st.checkouts)) [
        | none ↦ st
        | some c ↦
            let status = checkout_status n.result.normalized_status reads.checkout.status in
            record st {
              checkouts =
                  put reads.checkout_id
                    (record c {
                      status = status;
                      completed_at = completed_time n.now status reads.checkout.completed_at;
                      last_provider_event_at = n.result.provider_occurred_at;
                      last_payment_state = some n.result.normalized_status;
                    })
                    st.checkouts;
            }
      ]

abbrev is_processing : BillingSubscriptionOperationState → Bool
is_processing processing = true
is_processing _ = false

-- the changes to the plan that is paid for, whose terms are confirmed
abbrev is_awaiting : PaymentReads → SubscriptionOperation → Bool
is_awaiting reads o =
    is_of reads.checkout.tenant_id reads.subscription_id o
    && eq_option o.target_plan_id (some reads.plan_id)
    && is_plan_change o.operation
    && is_processing o.state

unfoldable pub finish_plan_changes : PaymentNews → PaymentReads → Accounts → Accounts
finish_plan_changes n reads st = record st {
  operations =
      map_rows
        (λ id o.
          if is_awaiting reads o
          then record o { state = succeeded; completed_at = some n.now }
          else o)
        st.operations;
}

unfoldable pub event_type : PaymentStatus → BillingEventType
event_type PaymentStatus.approved = BillingEventType.payment_approved
event_type PaymentStatus.rejected = BillingEventType.payment_rejected
event_type PaymentStatus.refunded = BillingEventType.payment_refunded
event_type PaymentStatus.chargeback = BillingEventType.payment_chargeback
event_type _ = BillingEventType.payment_pending

abbrev pub add_event : PaymentReads → BillingEventType → Accounts → Accounts
add_event reads type st = record st {
  events =
      record {
        tenant_id = reads.checkout.tenant_id;
        subscription_id = reads.subscription_id;
        type = type;
      }
      ∷ st.events;
}

-- what follows the payment: the referral, the promotion, the checkout, the plan change, the events
unfoldable pub follow_payment : PaymentNews → PaymentReads → Accounts → Accounts
unfolding settle_checkout finish_plan_changes event_type protects sync_partner_referral
    convert_promotion_reservation
follow_payment n reads st =
    let tenant_id = reads.checkout.tenant_id in
    let status = n.result.normalized_status in
    let synced =
      if protects n.result reads
      then st
      else sync_partner_referral n.now tenant_id status reads.subscription_id st in
    let converted =
      if activates n reads
      then convert_promotion_reservation n.now tenant_id reads.checkout_id synced
      else synced in
    let settled = settle_checkout n reads converted in
    let changed = if activates n reads then finish_plan_changes n reads settled else settled in
    let told = add_event reads (event_type status) changed in
    if activates n reads then add_event reads BillingEventType.subscription_activated told else told

abbrev pub is_unclaimed : PaymentReads → Subscription → Bool
is_unclaimed reads s =
    s.tenant_id == reads.checkout.tenant_id && s.version == reads.subscription.version

-- the writes of a payment whose news counts
unfoldable pub claim_payment_news :
    PaymentNews → PaymentReads → Accounts → Result BillingError (PaymentAnswer × Accounts)
unfolding paid_subscription upsert_invoice save_payment follow_payment
claim_payment_news n reads st =
    elim (matching (is_unclaimed reads) (get reads.subscription_id st.subscriptions)) [
      | none ↦ err cas_lost
      | some s ↦ do
        ends ← period_end (period_start n) reads.plan.interval reads.plan.interval_count
        invoiced ← upsert_invoice n reads ends (record st {
          subscriptions =
              put reads.subscription_id (paid_subscription n reads ends s) st.subscriptions;
        })
        saved ← save_payment n reads invoiced.0 invoiced.1
        ok (applied saved.0, follow_payment n reads saved.1)
    ]

-- the second part of the transaction, with what it has read
unfoldable pub write_payment :
    PaymentNews → PaymentReads → Accounts → Result BillingError (PaymentAnswer × Accounts)
unfolding claim_payment_news
write_payment n reads st = elim (decision n.result reads) [
  | reject why ↦ ok (not_applied why, add_event reads BillingEventType.manual_reconciliation st)
  | apply why ↦ claim_payment_news n reads st
]

-- what is read is written, or answered
abbrev pub write_or_answer :
    PaymentNews → PaymentLookup → Accounts → Result BillingError (PaymentAnswer × Accounts)
write_or_answer n (answered a) st = ok (a, st)
write_or_answer n (looked_up reads) st = write_payment n reads st

unfoldable pub apply_with_cas :
    PaymentNews → ℕ → Accounts → Result BillingError (PaymentAnswer × Accounts)
unfolding read_payment write_payment
apply_with_cas n reference st = do
  found ← read_payment n.provider n.result reference st
  write_or_answer n found st

-- `processVerifiedPayment`. The signature of an external reference is checked by `is_valid`. The
-- transaction is run here alone; the code tries it again where its claim is lost.
unfoldable pub process_verified_payment :
    (ℕ → Bool) → PaymentNews → Accounts → Result BillingError (PaymentAnswer × Accounts)
unfolding apply_with_cas
process_verified_payment is_valid n st = elim n.result.external_reference [
  | none ↦ ok (missing_external_reference, st)
  | some reference ↦
      if is_valid reference
      then apply_with_cas n reference st
      else ok (invalid_external_reference, st)
]
