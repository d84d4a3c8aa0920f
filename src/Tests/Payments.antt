-- ===== src/Tests/Payments.antt =====
-- The theorems on the payments of a subscription, at the accounts of one tenant.
use next_stock_oficial.Prelude.{
  arith, ◌==◌, if◌then◌else◌, ℕ, ◌≤◌, ◌≡◌, refl, Bool, true, Option, none, some, [], ◌∷◌,
}
use next_stock_oficial.Prelude.Result.{Result, ok, err}
use next_stock_oficial.Prelude.Table.{get, put}
use next_stock_oficial.Billing.Plans.{monthly, yearly}
use next_stock_oficial.Billing.StateOrder.{PaymentStatus, decide_billing_state}
use next_stock_oficial.Billing.StateOrder.Laws.{level}
use next_stock_oficial.Billing.Entitlement.{Subscription}
use next_stock_oficial.Billing.Subscriptions.{Accounts, BillingError, cas_lost}
use next_stock_oficial.Billing.Payments.{PaymentReads, PaymentAnswer, applied}
use next_stock_oficial.Billing.Payments.Dates.{period_end, add_months}
use next_stock_oficial.Billing.Payments.Apply.{process_verified_payment, claim_payment_news}
use next_stock_oficial.Billing.Payments.Rows.{PaymentNews, period_start}
use next_stock_oficial.Billing.Payments.States.{payment_state}
use next_stock_oficial.Billing.Payments.Receives.{
  Settles, receive_all, process_verified_payment-Refines, receive_all-level,
}
use next_stock_oficial.Billing.Payments.Contention.{
  Answers, IsOwned, process_contended, process_contended-Answers,
}
use next_stock_oficial.Billing.Payments.Access.{write_payment-Pays}
use next_stock_oficial.Billing.Payments.PaidFor.{Pays}
use next_stock_oficial.Tests.Subscriptions.{accounts, brl, ouro_plan, paid_checkout, subscribed}

-- a month from the 31st of January of 2024, noon
leap_day : period_end 1706702400000 monthly 1 ≡ ok (some 1709208000000)
unfolding period_end add_months
leap_day = refl

-- a year from the 29th of February of 2024
next_year : period_end 1709208000000 yearly 1 ≡ ok (some 1740744000000)
unfolding period_end add_months
next_year = refl

abbrev approval : PaymentNews
approval = record {
  provider = 0;
  result = record {
    gateway_payment_id = 5;
    external_reference = some 77;
    amount_cents = 10000;
    currency = brl;
    paid_at = some 1706702400000;
    provider_occurred_at = some 1706702400000;
    normalized_status = PaymentStatus.approved;
  };
  now = 1706702500000;
  payment_id = 40;
  invoice_id = 50;
}

abbrev refund : PaymentNews
refund = record approval {
  result = record (approval.result) {
    provider_occurred_at = some 1706702600000;
    normalized_status = PaymentStatus.refunded;
  };
}

abbrev signed : ℕ → Bool
signed reference = true

abbrev approval_reads : PaymentReads
approval_reads = record {
  checkout_id = 30;
  checkout = paid_checkout;
  plan_id = 3;
  plan = ouro_plan;
  subscription_id = 10;
  subscription = subscribed;
  existing = none;
}

abbrev accounts_of : Result BillingError (PaymentAnswer × Accounts) → Accounts
accounts_of (ok r) = r.1
accounts_of (err e) = accounts

abbrev paid_accounts : Accounts
paid_accounts = accounts_of (process_verified_payment signed approval accounts)

process_verified_payment-Refines_example : Settles signed approval accounts paid_accounts
unfolding process_verified_payment get put period_end add_months decide_billing_state
process_verified_payment-Refines_example =
    process_verified_payment-Refines signed approval accounts {a = applied 40} refl refl

receive_all-level_example :
    level (payment_state 1 0 5 accounts)
    ≤ level (payment_state 1 0 5 (receive_all signed (refund ∷ approval ∷ []) accounts))
receive_all-level_example = receive_all-level signed (refund ∷ approval ∷ []) accounts refl 1 0 5

-- a late approval does not undo a refund
refund_stays :
    payment_state 1 0 5 (receive_all signed (refund ∷ approval ∷ []) accounts)
    ≡ some (record { status = PaymentStatus.refunded; occurred_at = some 1706702600000 })
unfolding receive_all process_verified_payment get put period_end add_months decide_billing_state
refund_stays = refl

write_payment-Pays_example :
    (s s' : Subscription) × (ends : Option ℕ) × (get 10 accounts.subscriptions ≡ some s)
    × (s.version ≡ 4)
    × (get 10 paid_accounts.subscriptions ≡ some s')
    × (period_end (period_start approval) monthly 1 ≡ ok ends)
    × Pays approval approval_reads ends s s'
    × ((m : PaymentNews) (same : PaymentReads)
        → same.subscription_id ≡ 10
        → same.subscription.version ≡ 4
        → claim_payment_news m same paid_accounts ≡ err cas_lost)
unfolding process_verified_payment get put period_end add_months decide_billing_state
write_payment-Pays_example = write_payment-Pays approval approval_reads accounts {id = 40} refl

-- the first attempt loses its claim to another one, the second is alone
abbrev contended : ℕ → Accounts × Accounts
contended i = if i == 0 then (accounts, paid_accounts) else (paid_accounts, paid_accounts)

paid_accounts-IsOwned : IsOwned 77 paid_accounts
unfolding process_verified_payment get put period_end add_months decide_billing_state
paid_accounts-IsOwned c s found row = ground (arith, found, row)

process_contended-Answers_example :
    Answers approval 77 contended (process_contended approval 77 contended) 1
unfolding process_verified_payment get put period_end add_months decide_billing_state
process_contended-Answers_example =
    process_contended-Answers approval 77 contended 1 paid_accounts (omega arith) refl refl
      paid_accounts-IsOwned
