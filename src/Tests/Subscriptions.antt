-- ===== src/Tests/Subscriptions.antt =====
-- The theorems on cancellations and plan changes, at the subscription of one tenant.
use next_stock_oficial.Prelude.{
  ℕ, ◌+◌, ◌≡◌, ◌≢◌, refl, Bool, true, false, none, some, [], ◌∷◌, arith,
}
use next_stock_oficial.Prelude.Result.{ok, err}
use next_stock_oficial.Prelude.Table.{get, put}
use next_stock_oficial.Prelude.Text.{Text}
use next_stock_oficial.Billing.Plans.{PlanSlug, monthly, check_plan_change_eligibility, recurrence}
use next_stock_oficial.Billing.Ledger.{CheckoutSessionStatus}
use next_stock_oficial.Billing.Entitlement.{Subscription, SubscriptionStatus, is_canceled}
use next_stock_oficial.Billing.Subscriptions.{
  Accounts, BillingError, CheckoutSession, Plan, SubscriptionOperation, processing, succeeded,
  in_progress, plan_change_pending, not_eligible, has_paid_access_remaining,
  has_pending_plan_change, find_operation, newest_row, create_operation, put_operation,
}
use next_stock_oficial.Billing.Subscriptions.Cancel.{
  CancelRequest, CancelReads, GatewayCall, call, call_of, read_cancel, start_cancel,
}
use next_stock_oficial.Billing.Subscriptions.Finish.{finish_cancel}
use next_stock_oficial.Billing.Subscriptions.Exclusion.{start_cancel_excluded}
use next_stock_oficial.Billing.Subscriptions.Access.{KeepsPaid, finish_cancel_access}
use next_stock_oficial.Billing.Subscriptions.PlanChange.{
  PlanChangeRequest, PlanChangeReads, may_claim, check_plan_change, claim_plan_change,
}
use next_stock_oficial.Billing.Subscriptions.Confirm.{
  ConfirmReads, SubscriptionTerms, confirm_plan_change,
}
use next_stock_oficial.Billing.Subscriptions.Upgrades.{IsUpgrade, check_plan_change-IsUpgrade}
use next_stock_oficial.Billing.Subscriptions.Confirms.{Confirms, confirm_plan_change_once}

abbrev pub brl : Text
brl = b'B' ∷ b'R' ∷ b'L' ∷ []

abbrev pub ouro_plan : Plan
ouro_plan = record {
  slug = PlanSlug.ouro;
  price_cents = 10000;
  currency = brl;
  interval = monthly;
  interval_count = 1;
  is_active = true;
  deleted_at = none;
}

abbrev esmeralda_plan : Plan
esmeralda_plan = record ouro_plan { slug = PlanSlug.esmeralda; price_cents = 20000 }

abbrev pub subscribed : Subscription
subscribed = record {
  tenant_id = 1;
  created_at = 50;
  plan_id = some 3;
  status = SubscriptionStatus.active;
  trial_ends_at = none;
  current_period_started_at = none;
  current_period_ends_at = some 900000;
  grace_ends_at = none;
  last_payment_at = none;
  last_payment_state = none;
  last_provider_event_at = none;
  gateway_provider = some 0;
  gateway_subscription_id = some 12;
  cancel_at_period_end = false;
  canceled_at = none;
  version = 4;
}

abbrev pub paid_checkout : CheckoutSession
paid_checkout = record {
  tenant_id = 1;
  plan_id = 3;
  subscription_id = some 10;
  gateway_checkout_id = some 12;
  expected_amount_cents = 10000;
  currency = brl;
  has_promotion_reservation = false;
  created_at = 50;
  provider = 0;
  external_reference = 77;
  status = CheckoutSessionStatus.completed;
  completed_at = some 60;
  last_provider_event_at = none;
  last_payment_state = none;
}

abbrev pub accounts : Accounts
accounts = record {
  plans = (3, ouro_plan) ∷ (4, esmeralda_plan) ∷ [];
  subscriptions = (10, subscribed) ∷ [];
  checkouts = (30, paid_checkout) ∷ [];
  operations = [];
  payments = [];
  invoices = [];
  referrals = [];
  referral_events = [];
  reservations = [];
  campaigns = [];
  events = [];
}

abbrev cancel_at : ℕ → ℕ → CancelRequest
cancel_at now token = record { tenant_id = 1; now = now; token = token; new_id = token }

abbrev registered : ℕ → Bool
registered p = true

abbrev reads : CancelReads
reads = elim (read_cancel 1 accounts) [
  | ok r ↦ r
  | err e ↦ record {
    id = 0;
    subscription = subscribed;
    name = next_stock_oficial.Billing.Subscriptions.cancel_any;
    existing = none;
  }
]

abbrev started : Accounts
started = elim (start_cancel registered (cancel_at 100 70) reads accounts) [
  | ok s ↦ s.1
  | err e ↦ accounts
]

abbrev first_call : GatewayCall
first_call = call_of reads 70

has_started :
    start_cancel registered (cancel_at 100 70) reads accounts ≡ ok (call first_call, started)
unfolding start_cancel read_cancel get put
has_started = refl

abbrev finished_accounts : Accounts
finished_accounts = (finish_cancel (cancel_at 200 70) first_call true started).0

finish_cancel_access_example :
    (s' : Subscription) × (get 10 finished_accounts.subscriptions ≡ some s')
    × (is_canceled s'.status ≡ true)
    × (s'.version ≡ 4 + 1)
    × ((o : SubscriptionOperation) × (get 70 finished_accounts.operations ≡ some o)
        × (o.state ≡ succeeded))
    × KeepsPaid 200 subscribed s'
unfolding start_cancel read_cancel get put finish_cancel
finish_cancel_access_example =
    finish_cancel_access (cancel_at 200 70) first_call subscribed started refl refl refl

abbrev held_row : SubscriptionOperation
held_row = record {
  tenant_id = 1;
  subscription_id = 10;
  target_plan_id = none;
  operation = next_stock_oficial.Billing.Subscriptions.cancel_of 1 12;
  state = processing;
  claim_token = some 70;
  lease_expires_at = 60100;
  completed_at = none;
}

start_cancel_excluded_example :
    start_cancel registered (cancel_at 500 71) reads started ≢ ok (call first_call, started)
unfolding start_cancel read_cancel get put find_operation
start_cancel_excluded_example =
    start_cancel_excluded (cancel_at 500 71) reads started 70 held_row refl (omega arith) registered
      refl tt

abbrev upgrade : PlanChangeRequest
upgrade = record {
  tenant_id = 1;
  plan_slug = PlanSlug.esmeralda;
  idempotency_key = 5;
  now = 100;
  new_id = 80;
}

abbrev upgrade_reads : PlanChangeReads
upgrade_reads = record {
  id = 10;
  subscription = subscribed;
  provider = 0;
  remote = 12;
  target_id = 4;
  target = esmeralda_plan;
  months = 1;
}

may_upgrade : check_plan_change false upgrade accounts ≡ ok (may_claim upgrade_reads)
unfolding check_plan_change get check_plan_change_eligibility recurrence
may_upgrade = refl

check_plan_change-IsUpgrade_example : IsUpgrade upgrade accounts upgrade_reads
check_plan_change-IsUpgrade_example = check_plan_change-IsUpgrade false upgrade accounts may_upgrade

abbrev claimed_accounts : Accounts
claimed_accounts = elim (claim_plan_change registered upgrade upgrade_reads accounts) [
  | ok st ↦ st
  | err e ↦ accounts
]

-- the tenant cannot cancel now
cannot_cancel : read_cancel 1 claimed_accounts ≡ err plan_change_pending
unfolding read_cancel claim_plan_change get put
cannot_cancel = refl

abbrev confirm_reads : ConfirmReads
confirm_reads = record {
  id = 10;
  subscription = subscribed;
  operation_id = 80;
  target_id = 4;
  target = esmeralda_plan;
}

abbrev new_terms : SubscriptionTerms
new_terms = record {
  is_authorized = true;
  amount_cents = 20000;
  currency = brl;
  frequency = 1;
  in_months = true;
}

abbrev same_text : Text → Text
same_text s = s

abbrev confirmed_accounts : Accounts
confirmed_accounts =
    elim (confirm_plan_change same_text 12 confirm_reads new_terms claimed_accounts) [
      | ok s ↦ s.1
      | err e ↦ claimed_accounts
    ]

-- nor after the confirmation
still_cannot_cancel : read_cancel 1 confirmed_accounts ≡ err plan_change_pending
unfolding read_cancel confirm_plan_change claim_plan_change get put recurrence
still_cannot_cancel = refl

confirm_plan_change_once_example :
    Confirms same_text 12 confirm_reads new_terms claimed_accounts confirmed_accounts
    × ((terms' : SubscriptionTerms)
        → confirm_plan_change same_text 12 confirm_reads terms' confirmed_accounts
          ≡ ok (false, confirmed_accounts))
unfolding confirm_plan_change claim_plan_change get put recurrence
confirm_plan_change_once_example =
    confirm_plan_change_once same_text 12 confirm_reads new_terms claimed_accounts refl
