-- ===== src/Billing/Subscriptions/PlanChange.antt =====
-- `requestPlanChange` of src/billing/subscriptions.service.ts: what is checked and claimed before the
-- provider is asked for the new terms.
use next_stock_oficial.Prelude.{
  ℕ, ◌+◌, Bool, true, false, not, ◌&&◌, Option, none, some, find, is_none, eq_option, ◌==◌,
  if◌then◌else◌,
}
use next_stock_oficial.Prelude.Result.{Result, ok, err, ◌>>=◌, ◌>>◌, throw_if}
use next_stock_oficial.Prelude.Table.{get, put, matching}
use next_stock_oficial.Billing.Plans.{
  PlanSlug, Eligibility, eligible, slug_eq, check_plan_change_eligibility, recurrence,
}
use next_stock_oficial.Billing.Entitlement.{Subscription, is_active}
use next_stock_oficial.Billing.Subscriptions.{
  Accounts, BillingError, CheckoutSession, Plan, SubscriptionOperation,
  BillingSubscriptionOperationState, unknown, failed_final, failed_retryable, plan_change,
  not_found, plan_change_pending, same_plan, not_eligible, not_active, checkout_missing,
  promotional_plan, checkout_open, request_finished, no_recurrence, gateway_unavailable,
  subscription_changed, is_pending, has_pending_plan_change, find_operation, create_operation,
  newest_row,
}

-- a request: its tenant, the plan's slug, its idempotency key, the clock and the key of a new row
pub record PlanChangeRequest : Type 0 where
  pub tenant_id : ℕ
  pub plan_slug : PlanSlug
  pub idempotency_key : ℕ
  pub now : ℕ
  pub new_id : ℕ

-- `plan.findFirst({ where: { slug, isActive: true, deletedAt: null } })`
abbrev pub is_offered : PlanSlug → ℕ × Plan → Bool
is_offered slug e = slug_eq e.1.slug slug && e.1.is_active && is_none e.1.deleted_at

abbrev slug_of : Option Plan → Option PlanSlug
slug_of none = none
slug_of (some p) = some p.slug

-- the slug of the plan that a subscription has
abbrev pub current_slug : Subscription → Accounts → Option PlanSlug
current_slug s st = elim s.plan_id [ none ↦ none | some id ↦ slug_of (get id st.plans) ]

-- `where: { tenantId, subscriptionId, gatewayCheckoutId }`
abbrev pub is_checkout_of : ℕ → ℕ → ℕ → ℕ × CheckoutSession → Bool
is_checkout_of tenant_id subscription_id remote e =
    e.1.tenant_id == tenant_id
    && eq_option e.1.subscription_id (some subscription_id)
    && eq_option e.1.gateway_checkout_id (some remote)

abbrev pub is_eligible : Eligibility → Bool
is_eligible eligible = true
is_eligible _ = false

-- what the checks have found
pub record PlanChangeReads : Type 0 where
  pub id : ℕ
  pub subscription : Subscription
  pub provider : ℕ
  pub remote : ℕ
  pub target_id : ℕ
  pub target : Plan
  pub months : ℕ

-- the remote subscription of an active one that is not being canceled
unfoldable pub active_remote : Subscription → Result BillingError (ℕ × ℕ)
active_remote s = elim s.gateway_provider [
  | none ↦ err not_active
  | some provider ↦ elim s.gateway_subscription_id [
    | none ↦ err not_active
    | some remote ↦
        if is_active s.status && not s.cancel_at_period_end
        then ok (provider, remote)
        else err not_active
  ]
]

-- the checkout that pays for the subscription, without a promotion
unfoldable pub require_checkout : ℕ → ℕ → ℕ → Accounts → Result BillingError (Unit {0})
require_checkout tenant_id subscription_id remote st =
    elim (find (is_checkout_of tenant_id subscription_id remote) st.checkouts) [
      | none ↦ err checkout_missing
      | some e ↦ throw_if e.1.has_promotion_reservation promotional_plan
    ]

abbrev pub or_throw {ℓ} : {A : Type ℓ} → Option A → BillingError → Result BillingError A
or_throw none e = err e
or_throw (some a) e = ok a

-- the name that this request claims
abbrev pub request_name : PlanChangeRequest → ℕ → ℕ → SubscriptionOperation
request_name r subscription_id target_id = record {
  tenant_id = r.tenant_id;
  subscription_id = subscription_id;
  target_plan_id = some target_id;
  operation = plan_change target_id r.idempotency_key;
  state = unknown;
  claim_token = none;
  lease_expires_at = r.now;
  completed_at = none;
}

-- What `requestPlanChange` answers before it claims: the request is pending already, or it may be
-- claimed.
pub data PlanChangeCheck : Type 0 where
  already_pending : PlanChangeCheck
  may_claim : PlanChangeReads → PlanChangeCheck

-- an operation of the same name, or another plan change that is pending
unfoldable pub check_operations :
    PlanChangeRequest → PlanChangeReads → Accounts → Result BillingError PlanChangeCheck
unfolding find_operation
check_operations r reads st =
    elim (find_operation r.tenant_id reads.id (plan_change reads.target_id r.idempotency_key) st) [
      | some e ↦ if is_pending e.1.state then ok already_pending else err request_finished
      | none ↦
          if has_pending_plan_change r.tenant_id reads.id st
          then err plan_change_pending
          else ok (may_claim reads)
    ]

-- the months between two payments of the target plan
unfoldable pub with_months : Plan → PlanChangeCheck → Result BillingError PlanChangeCheck
with_months target already_pending = ok already_pending
with_months target (may_claim reads) = do
  months ← or_throw (recurrence target.interval target.interval_count) no_recurrence
  ok (may_claim (record reads { months = months }))

-- The checks of `requestPlanChange`, on one state of the tables. Whether a checkout intent is open
-- and whether the gateway is registered are arguments. The usage of the last cycle is not known:
-- the code passes `null`. The months of the recurrence are computed after the operations are looked
-- at, so an unsuitable plan is refused only then.
unfoldable pub check_plan_change :
    Bool → PlanChangeRequest → Accounts → Result BillingError PlanChangeCheck
unfolding newest_row active_remote require_checkout check_operations with_months
check_plan_change checkout_is_open r st = do
  found ← or_throw (newest_row r.tenant_id st.subscriptions) not_found
  target ← or_throw (find (is_offered r.plan_slug) st.plans) not_found
  throw_if (eq_option found.1.plan_id (some target.0)) same_plan
  let verdict = check_plan_change_eligibility (current_slug found.1 st) target.1.slug none
  throw_if (not (is_eligible verdict)) (not_eligible verdict)
  remote ← active_remote found.1
  require_checkout r.tenant_id found.0 remote.1 st
  throw_if checkout_is_open checkout_open
  check ←
      check_operations r
        (record {
          id = found.0;
          subscription = found.1;
          provider = remote.0;
          remote = remote.1;
          target_id = target.0;
          target = target.1;
          months = 0;
        })
        st
  with_months target.1 check

-- the conditions of the claim, with what was read
abbrev pub still_active : PlanChangeRequest → PlanChangeReads → Subscription → Bool
still_active r reads s =
    s.tenant_id == r.tenant_id
    && s.version == reads.subscription.version
    && is_active s.status
    && not s.cancel_at_period_end
    && eq_option s.gateway_provider (some reads.provider)
    && eq_option s.gateway_subscription_id (some reads.remote)

-- The transaction that claims the change: a version of the subscription, and the operation.
unfoldable pub claim_plan_change :
    (ℕ → Bool) → PlanChangeRequest → PlanChangeReads → Accounts → Result BillingError Accounts
unfolding create_operation
claim_plan_change has_gateway r reads st =
    if not (has_gateway reads.provider)
    then err gateway_unavailable
    else elim (matching (still_active r reads) (get reads.id st.subscriptions)) [
      | none ↦ err subscription_changed
      | some s ↦
          elim (create_operation r.new_id (request_name r reads.id reads.target_id) (record st {
            subscriptions = put reads.id (record s { version = s.version + 1 }) st.subscriptions;
          })) [ err e ↦ err plan_change_pending | ok st' ↦ ok st' ]
    ]

-- the `catch` around the call of the provider, which says in what state it has failed
pub data CheckoutState : Type 0 where
  final retryable unclear : CheckoutState

abbrev state_after : CheckoutState → BillingSubscriptionOperationState
state_after final = failed_final
state_after retryable = failed_retryable
state_after unclear = unknown

abbrev pub is_unknown : BillingSubscriptionOperationState → Bool
is_unknown unknown = true
is_unknown _ = false

unfoldable pub plan_change_failed : ℕ → CheckoutState → Accounts → Accounts
plan_change_failed id failure st =
    elim (matching (λ o. is_unknown o.state) (get id st.operations)) [
      | none ↦ st
      | some o ↦ record st {
        operations =
            put id (record o { state = state_after failure; claim_token = none }) st.operations;
      }
    ]
