-- ===== src/Billing/StateOrder.antt =====
-- src/billing/billing-state-order.ts: which news of a payment counts. The provider reports a
-- payment's state many times and in any order.
pub mod Laws
use next_stock_oficial.Prelude.{
  ℕ, Bool, true, false, Option, none, some, List, [], ◌∷◌, ltb, ◌==◌, if◌then◌else◌,
}
use next_stock_oficial.Prelude.Int.{ℤ, pos, negsuc, ltb_ℤ, eq_ℤ}

-- the enumeration BillingPaymentStatus of the database schema
pub data PaymentStatus : Type 0 where
  pending approved rejected canceled refunded chargeback : PaymentStatus

pub data ApplyReason : Type 0 where
  initial newer monotonic tie_break : ApplyReason

pub data RejectReason : Type 0 where
  duplicate older regression tie_lost : RejectReason

pub data BillingStateDecision : Type 0 where
  apply : ApplyReason → BillingStateDecision
  reject : RejectReason → BillingStateDecision

unfoldable pub lifecycle : PaymentStatus → ℕ
lifecycle pending = 0
lifecycle rejected = 1
lifecycle canceled = 2
lifecycle approved = 3
lifecycle refunded = 4
lifecycle chargeback = 5

-- `a === b` on the strings of the enumeration
abbrev pub same_status : PaymentStatus → PaymentStatus → Bool
same_status pending pending = true
same_status approved approved = true
same_status rejected rejected = true
same_status canceled canceled = true
same_status refunded refunded = true
same_status chargeback chargeback = true
same_status _ _ = false

-- `Math.sign` of the difference of the times
abbrev sign_of_difference : ℕ → ℕ → ℤ
sign_of_difference incoming current =
    if ltb incoming current then negsuc 0 else if ltb current incoming then pos 1 else pos 0

unfoldable pub compare_dates : Option ℕ → Option ℕ → ℤ
compare_dates none current = pos 0
compare_dates (some incoming) none = pos 0
compare_dates (some incoming) (some current) = sign_of_difference incoming current

-- The decision about a payment that has the state `current`.
unfoldable pub decide_known :
    PaymentStatus → Option ℕ → PaymentStatus → Option ℕ → BillingStateDecision
unfolding compare_dates lifecycle
decide_known current current_at incoming incoming_at =
    let time = compare_dates incoming_at current_at in
    if ltb_ℤ time (pos 0)
    then reject older
    else if same_status current incoming
    then (if ltb_ℤ (pos 0) time then apply newer else reject duplicate)
    else if ltb (lifecycle incoming) (lifecycle current)
    then (if eq_ℤ time (pos 0) then reject tie_lost else reject regression)
    else if lifecycle incoming == lifecycle current
    then reject tie_lost
    else if eq_ℤ time (pos 0)
    then apply tie_break
    else if ltb_ℤ (pos 0) time
    then apply newer
    else apply monotonic

unfoldable pub decide_billing_state :
    Option PaymentStatus → Option ℕ → PaymentStatus → Option ℕ → BillingStateDecision
unfolding decide_known
decide_billing_state none current_at incoming incoming_at = apply initial
decide_billing_state (some current) current_at incoming incoming_at =
    decide_known current current_at incoming incoming_at

-- what the row of a payment keeps of the provider's news: `status` and `providerOccurredAt`
pub record PaymentState : Type 0 where
  pub status : PaymentStatus
  pub occurred_at : Option ℕ

-- `existing?.status ?? null` and `existing?.providerOccurredAt ?? null`
abbrev pub status_of : Option PaymentState → Option PaymentStatus
status_of none = none
status_of (some p) = some p.status

abbrev pub time_of : Option PaymentState → Option ℕ
time_of none = none
time_of (some p) = p.occurred_at

abbrev decided : BillingStateDecision → PaymentState → Option PaymentState → Option PaymentState
decided (apply _) news old = some news
decided (reject _) news old = old

-- how `processVerifiedPayment` of src/billing/payments.service.ts uses the decision
unfoldable pub process_news : Option PaymentState → PaymentState → Option PaymentState
unfolding decide_billing_state
process_news old news =
    decided (decide_billing_state (status_of old) (time_of old) news.status news.occurred_at) news
      old

unfoldable pub process_all : List PaymentState → Option PaymentState → Option PaymentState
unfolding process_news
process_all [] old = old
process_all (news ∷ rest) old = process_all rest (process_news old news)
