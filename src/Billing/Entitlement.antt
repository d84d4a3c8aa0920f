-- ===== src/Billing/Entitlement.antt =====
-- src/billing/billing-entitlement.service.ts: who may use the product now. Whether a user works in
-- the developers' workspace (`canAccessDev` of src/auth/super-admin.util.ts) and the environment
-- variable BILLING_ENFORCEMENT_ENABLED are arguments.
pub mod Laws
use next_stock_oficial.Prelude.{
  ℕ, Bool, true, false, ◌&&◌, ◌||◌, not, Option, none, some, List, [], ◌∷◌, is_none, ltb, ◌==◌,
  if◌then◌else◌,
}
use next_stock_oficial.Billing.StateOrder.{PaymentStatus}

-- the enumeration SubscriptionStatus of the database schema
pub data SubscriptionStatus : Type 0 where
  pending trialing payment_pending active past_due canceled expired suspended : SubscriptionStatus

pub record Subscription : Type 0 where
  pub tenant_id : ℕ
  pub created_at : ℕ
  pub plan_id : Option ℕ
  pub status : SubscriptionStatus
  pub trial_ends_at : Option ℕ
  pub current_period_started_at : Option ℕ
  pub current_period_ends_at : Option ℕ
  pub grace_ends_at : Option ℕ
  pub last_payment_at : Option ℕ
  pub last_payment_state : Option PaymentStatus
  pub last_provider_event_at : Option ℕ
  pub gateway_provider : Option ℕ
  pub gateway_subscription_id : Option ℕ
  pub cancel_at_period_end : Bool
  pub canceled_at : Option ℕ
  pub version : ℕ

pub data Reason : Type 0 where
  no_authenticated_tenant no_subscription dev_workspace_exempt : Reason
  rollout_enforcement_disabled trial_active subscription_active : Reason
  subscription_canceled_period_active trial_expired subscription_past_due : Reason
  -- `SUBSCRIPTION_${status}`
  subscription_in : SubscriptionStatus → Reason

-- BillingEntitlement, without the address to go to, which is always the same
pub record Entitlement : Type 0 where
  pub allowed : Bool
  pub reason : Reason
  pub subscription : Option Subscription

abbrev pub is_trialing : SubscriptionStatus → Bool
is_trialing trialing = true
is_trialing _ = false

abbrev pub is_active : SubscriptionStatus → Bool
is_active active = true
is_active _ = false

abbrev pub is_canceled : SubscriptionStatus → Bool
is_canceled canceled = true
is_canceled _ = false

abbrev pub is_past_due : SubscriptionStatus → Bool
is_past_due past_due = true
is_past_due _ = false

-- `date && date > now`
abbrev pub after_now : ℕ → Option ℕ → Bool
after_now now none = false
after_now now (some date) = ltb now date

abbrev allow : Reason → Option Subscription → Entitlement
allow reason s = record { allowed = true; reason = reason; subscription = s }

abbrev deny : Reason → Option Subscription → Entitlement
deny reason s = record { allowed = false; reason = reason; subscription = s }

unfoldable pub evaluate_subscription : Subscription → ℕ → Entitlement
evaluate_subscription s now =
    if is_trialing s.status && after_now now s.trial_ends_at
    then allow trial_active (some s)
    else if is_active s.status
        && (is_none s.current_period_ends_at || after_now now s.current_period_ends_at)
    then allow subscription_active (some s)
    else if is_canceled s.status
        && (s.cancel_at_period_end && after_now now s.current_period_ends_at)
    then allow subscription_canceled_period_active (some s)
    else if is_trialing s.status
    then deny trial_expired (some s)
    else if is_past_due s.status
    then deny subscription_past_due (some s)
    else deny (subscription_in s.status) (some s)

unfoldable pub evaluate : Bool → Option Subscription → ℕ → Entitlement
unfolding evaluate_subscription
evaluate enforced none now =
    if enforced then deny no_subscription none else allow rollout_enforcement_disabled none
evaluate enforced (some s) now = evaluate_subscription s now

abbrev later_of : Subscription → Option Subscription → Option Subscription
later_of s none = some s
later_of s (some t) = if ltb s.created_at t.created_at then some t else some s

-- `findFirst({ where: { tenantId }, orderBy: { createdAt: 'desc' } })`
unfoldable pub newest : ℕ → List Subscription → Option Subscription
newest tenant_id [] = none
newest tenant_id (s ∷ subscriptions) =
    let rest = newest tenant_id subscriptions in
    if s.tenant_id == tenant_id then later_of s rest else rest

unfoldable pub for_tenant : Bool → List Subscription → ℕ → ℕ → Entitlement
unfolding evaluate newest
for_tenant enforced subscriptions tenant_id now =
    evaluate enforced (newest tenant_id subscriptions) now

-- AuthenticatedUser, as far as it is read
pub record User : Type 0 where
  pub can_access_dev : Bool
  pub tenant_id : Option ℕ
  pub primary_tenant_id : Option ℕ

-- `a ?? b`
abbrev pub first_of : Option ℕ → Option ℕ → Option ℕ
first_of none b = b
first_of (some a) b = some a

unfoldable pub for_user : Bool → List Subscription → Option User → ℕ → Entitlement
unfolding for_tenant
for_user enforced subscriptions none now = deny no_authenticated_tenant none
for_user enforced subscriptions (some user) now =
    if user.can_access_dev
    then allow dev_workspace_exempt none
    else elim (first_of user.tenant_id user.primary_tenant_id) [
      | none ↦ deny no_subscription none
      | some tenant_id ↦ for_tenant enforced subscriptions tenant_id now
    ]
