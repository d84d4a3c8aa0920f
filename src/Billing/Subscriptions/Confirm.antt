-- ===== src/Billing/Subscriptions/Confirm.antt =====
-- `confirmPlanChangeFromWebhook` of src/billing/subscriptions.service.ts: what the provider's terms
-- make of a plan change that is claimed.
use next_stock_oficial.Prelude.{
  ℕ, Bool, true, false, ◌&&◌, Option, none, some, [], ◌∷◌, find, eq_option, ltb, ◌==◌,
  if◌then◌else◌,
}
use next_stock_oficial.Prelude.Result.{Result, ok, err}
use next_stock_oficial.Prelude.Table.{Table, get, put, matching}
use next_stock_oficial.Prelude.Text.{Text, text_eq}
use next_stock_oficial.Billing.Plans.{recurrence}
use next_stock_oficial.Billing.Entitlement.{Subscription}
use next_stock_oficial.Billing.Subscriptions.{
  Accounts, BillingError, CheckoutSession, Plan, SubscriptionOperation, processing, plan_changed,
  no_recurrence, is_pending_plan_change,
}
use next_stock_oficial.Billing.Subscriptions.PlanChange.{is_checkout_of, is_unknown}

-- the terms that the provider has for a subscription
pub record SubscriptionTerms : Type 0 where
  pub is_authorized : Bool
  pub amount_cents : ℕ
  pub currency : Text
  pub frequency : ℕ
  pub in_months : Bool

abbrev is_remote : ℕ → ℕ → ℕ × Subscription → Bool
is_remote provider remote e =
    eq_option e.1.gateway_provider (some provider)
    && eq_option e.1.gateway_subscription_id (some remote)

-- a plan change of the subscription whose outcome is not known
abbrev pub is_unknown_change : ℕ → ℕ → ℕ × SubscriptionOperation → Bool
is_unknown_change tenant_id subscription_id e =
    is_pending_plan_change tenant_id subscription_id e && is_unknown e.1.state

-- the terms are those of the target plan
abbrev pub terms_match : (Text → Text) → Plan → ℕ → SubscriptionTerms → Bool
terms_match to_upper target months terms =
    terms.is_authorized
    && terms.amount_cents == target.price_cents
    && text_eq terms.currency (to_upper target.currency)
    && terms.frequency == months
    && terms.in_months

abbrev pub newest_checkout :
    Option (ℕ × CheckoutSession) → ℕ × CheckoutSession → ℕ × CheckoutSession
newest_checkout none e = e
newest_checkout (some f) e = if ltb e.1.created_at f.1.created_at then f else e

-- the newest checkout of the remote subscription
unfoldable pub find_checkout : ℕ → ℕ → ℕ → Table CheckoutSession → Option (ℕ × CheckoutSession)
find_checkout tenant_id subscription_id remote [] = none
find_checkout tenant_id subscription_id remote (e ∷ rows) =
    let rest = find_checkout tenant_id subscription_id remote rows in
    if is_checkout_of tenant_id subscription_id remote e
    then some (newest_checkout rest e)
    else rest

-- what a confirmation writes
abbrev pub confirmed :
    ℕ
    → Subscription
    → ℕ
    → SubscriptionOperation
    → ℕ
    → Plan
    → ℕ × CheckoutSession
    → Accounts
    → Accounts
confirmed subscription_id s operation_id o target_id target c st = record st {
  operations = put operation_id (record o { state = processing }) st.operations;
  checkouts =
      put c.0
        (record c.1 {
          plan_id = target_id;
          expected_amount_cents = target.price_cents;
          currency = target.currency;
        })
        st.checkouts;
  events =
      record { tenant_id = s.tenant_id; subscription_id = subscription_id; type = plan_changed }
      ∷ st.events;
}

-- The transaction of the confirmation: the plan that is paid for stays until the next payment.
unfoldable pub apply_plan_change : ℕ → Subscription → ℕ → ℕ → ℕ → Plan → Accounts → Bool × Accounts
unfolding find_checkout
apply_plan_change subscription_id s remote operation_id target_id target st =
    elim (find_checkout s.tenant_id subscription_id remote st.checkouts) [
      | none ↦ (false, st)
      | some c ↦ elim (matching (λ o. is_unknown o.state) (get operation_id st.operations)) [
        | none ↦ (false, st)
        | some o ↦ (true, confirmed subscription_id s operation_id o target_id target c st)
      ]
    ]

-- what `confirmPlanChangeFromWebhook` reads before it asks the provider for the terms
pub record ConfirmReads : Type 0 where
  pub id : ℕ
  pub subscription : Subscription
  pub operation_id : ℕ
  pub target_id : ℕ
  pub target : Plan

-- the plan that an operation is about
unfoldable pub read_target :
    ℕ → Subscription → ℕ → SubscriptionOperation → Accounts → Option ConfirmReads
read_target id s operation_id o st = elim o.target_plan_id [
  | none ↦ none
  | some target_id ↦ elim (get target_id st.plans) [
    | none ↦ none
    | some target ↦ some (record {
      id = id;
      subscription = s;
      operation_id = operation_id;
      target_id = target_id;
      target = target;
    })
  ]
]

unfoldable pub read_confirm : ℕ → ℕ → Accounts → Option ConfirmReads
unfolding read_target
read_confirm provider remote st = elim (find (is_remote provider remote) st.subscriptions) [
  | none ↦ none
  | some e ↦ elim (find (is_unknown_change e.1.tenant_id e.0) st.operations) [
    | none ↦ none
    | some o ↦ read_target e.0 e.1 o.0 o.1 st
  ]
]

-- with the terms that the provider has given, on the tables as they stand by then
unfoldable pub confirm_plan_change :
    (Text → Text)
    → ℕ
    → ConfirmReads
    → SubscriptionTerms
    → Accounts
    → Result BillingError (Bool × Accounts)
unfolding apply_plan_change
confirm_plan_change to_upper remote reads terms st =
    elim (recurrence reads.target.interval reads.target.interval_count) [
      | none ↦ err no_recurrence
      | some months ↦
          if terms_match to_upper reads.target months terms
          then ok (
              apply_plan_change reads.id reads.subscription remote reads.operation_id
                reads.target_id reads.target st)
          else ok (false, st)
    ]
