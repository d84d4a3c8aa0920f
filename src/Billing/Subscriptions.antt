-- ===== src/Billing/Subscriptions.antt =====
-- src/billing/subscriptions.service.ts: the rows that cancellations and plan changes share. An
-- operation is claimed in the table before the provider is called, and settled after it.
pub mod Cancel
pub mod Finish
pub mod Claims
pub mod Exclusion
pub mod Access
pub mod PlanChange
pub mod Confirm
pub mod Newest
pub mod Upgrades
pub mod ClaimChange
pub mod Pending
pub mod Confirms
use next_stock_oficial.Prelude.{
  ℕ, ◌+◌, Bool, true, false, not, ◌&&◌, ◌||◌, Option, none, some, List, [], ◌∷◌, any, find, is_some,
  eq_option, ltb, ◌==◌, if◌then◌else◌,
}
use next_stock_oficial.Prelude.Result.{Result, ok, err}
use next_stock_oficial.Prelude.Table.{Table, get, put}
use next_stock_oficial.Prelude.Text.{Text}
use next_stock_oficial.Billing.Plans.{PlanSlug, PlanInterval, Eligibility}
use next_stock_oficial.Billing.StateOrder.{PaymentStatus}
use next_stock_oficial.Billing.Ledger.{
  BillingInvoice, BillingPayment, CheckoutSessionStatus, PartnerReferral, PromotionCampaign,
  PromotionReservation, ReferralPaymentEvent,
}
use next_stock_oficial.Billing.Entitlement.{
  Subscription, SubscriptionStatus, is_active, is_canceled, after_now,
}

pub data BillingSubscriptionOperationState : Type 0 where
  claimed processing unknown succeeded : BillingSubscriptionOperationState
  failed_retryable failed_final : BillingSubscriptionOperationState

-- The column `operation` by what it is made of: 'CANCEL', 'CANCEL:' with the hash of a provider and
-- of its subscription, or 'PLAN_CHANGE:' with a plan and the hash of an idempotency key.
pub data OperationName : Type 0 where
  cancel_any : OperationName
  cancel_of : ℕ → ℕ → OperationName
  plan_change : ℕ → ℕ → OperationName

abbrev pub name_eq : OperationName → OperationName → Bool
name_eq cancel_any cancel_any = true
name_eq (cancel_of p s) (cancel_of q t) = p == q && s == t
name_eq (plan_change p k) (plan_change q l) = p == q && k == l
name_eq _ _ = false

pub record SubscriptionOperation : Type 0 where
  pub tenant_id : ℕ
  pub subscription_id : ℕ
  pub target_plan_id : Option ℕ
  pub operation : OperationName
  pub state : BillingSubscriptionOperationState
  pub claim_token : Option ℕ
  pub lease_expires_at : ℕ
  pub completed_at : Option ℕ

pub data BillingEventType : Type 0 where
  subscription_canceled plan_changed subscription_activated : BillingEventType
  payment_pending payment_approved payment_rejected : BillingEventType
  payment_refunded payment_chargeback manual_reconciliation : BillingEventType

pub record BillingEvent : Type 0 where
  pub tenant_id : ℕ
  pub subscription_id : ℕ
  pub type : BillingEventType

pub record Plan : Type 0 where
  pub slug : PlanSlug
  pub price_cents : ℕ
  pub currency : Text
  pub interval : PlanInterval
  pub interval_count : ℕ
  pub is_active : Bool
  pub deleted_at : Option ℕ

pub record CheckoutSession : Type 0 where
  pub tenant_id : ℕ
  pub plan_id : ℕ
  pub subscription_id : Option ℕ
  pub gateway_checkout_id : Option ℕ
  pub expected_amount_cents : ℕ
  pub currency : Text
  pub has_promotion_reservation : Bool
  pub created_at : ℕ
  pub provider : ℕ
  pub external_reference : ℕ
  pub status : CheckoutSessionStatus
  pub completed_at : Option ℕ
  pub last_provider_event_at : Option ℕ
  pub last_payment_state : Option PaymentStatus

pub record Accounts : Type 0 where
  pub plans : Table Plan
  pub subscriptions : Table Subscription
  pub checkouts : Table CheckoutSession
  pub operations : Table SubscriptionOperation
  pub payments : Table BillingPayment
  pub invoices : Table BillingInvoice
  pub referrals : Table PartnerReferral
  pub referral_events : List ReferralPaymentEvent
  pub reservations : Table PromotionReservation
  pub campaigns : Table PromotionCampaign
  pub events : List BillingEvent

pub data BillingError : Type 0 where
  -- NotFoundException, of the subscription or the plan
  not_found : BillingError
  -- ConflictException('Há uma mudança de plano aguardando confirmação do Mercado Pago.')
  plan_change_pending : BillingError
  -- ConflictException('A assinatura foi alterada por outra operação.')
  subscription_changed : BillingError
  -- ConflictException('Gateway da assinatura não está disponível.')
  gateway_unavailable : BillingError
  -- ConflictException('Cancelamento anterior requer reconciliação ...')
  earlier_cancellation : BillingError
  -- ConflictException('Cancelamento já está em processamento; ...')
  in_progress : BillingError
  -- ConflictException('Claim de cancelamento expirou ou foi substituído.')
  claim_lost : BillingError
  -- ConflictException('A assinatura remota foi alterada durante o cancelamento.')
  remote_changed : BillingError
  -- ConflictException('Este já é o plano atual.')
  same_plan : BillingError
  -- ConflictException of a plan change, with the code of its eligibility
  not_eligible : Eligibility → BillingError
  -- ConflictException('A mudança de plano requer uma assinatura ativa, sem cancelamento pendente.')
  not_active : BillingError
  -- ConflictException('Checkout da assinatura atual não encontrado.')
  checkout_missing : BillingError
  -- ConflictException('Mudança de plano promocional indisponível ...')
  promotional_plan : BillingError
  -- ConflictException('Há um checkout em andamento para esta assinatura.')
  checkout_open : BillingError
  -- ConflictException('Esta solicitação já foi finalizada; ...')
  request_finished : BillingError
  -- ConflictException('Plano sem recorrência elegível para assinatura.')
  no_recurrence : BillingError
  -- ConflictException('Pagamento vinculado a outro checkout.')
  other_checkout : BillingError
  -- ConflictException('Pagamento diverge do valor ou moeda esperados.')
  payment_differs : BillingError
  -- ConflictException('Plano do pagamento anterior não encontrado.')
  plan_missing : BillingError
  -- ConflictException('Pagamento anterior à renovação requer reconciliação ...')
  before_renewal : BillingError
  -- ConflictException('Período do plano inválido.')
  invalid_period : BillingError
  -- BillingCasLostError
  cas_lost : BillingError
  -- ConflictException('Billing CAS contention limit exceeded.')
  contention : BillingError
  -- the error of the gateway
  gateway_failed : BillingError
  -- a unique index, code P2002
  unique_violation : BillingError

-- the states of `billing_one_pending_subscription_mutation`
abbrev pub is_pending : BillingSubscriptionOperationState → Bool
is_pending claimed = true
is_pending processing = true
is_pending unknown = true
is_pending _ = false

abbrev pub is_succeeded : BillingSubscriptionOperationState → Bool
is_succeeded succeeded = true
is_succeeded _ = false

abbrev pub is_plan_change : OperationName → Bool
is_plan_change (plan_change p k) = true
is_plan_change _ = false

abbrev pub is_of : ℕ → ℕ → SubscriptionOperation → Bool
is_of tenant_id subscription_id o = o.tenant_id == tenant_id && o.subscription_id == subscription_id

-- `where: { tenantId, subscriptionId, operation }`, the unique key
abbrev pub is_named : ℕ → ℕ → OperationName → ℕ × SubscriptionOperation → Bool
is_named tenant_id subscription_id name e =
    is_of tenant_id subscription_id e.1 && name_eq e.1.operation name

unfoldable pub find_operation :
    ℕ → ℕ → OperationName → Accounts → Option (ℕ × SubscriptionOperation)
find_operation tenant_id subscription_id name st =
    find (is_named tenant_id subscription_id name) st.operations

-- `operation: { startsWith: 'PLAN_CHANGE:' }` in one of the pending states
abbrev pub is_pending_plan_change : ℕ → ℕ → ℕ × SubscriptionOperation → Bool
is_pending_plan_change tenant_id subscription_id e =
    is_of tenant_id subscription_id e.1 && is_plan_change e.1.operation && is_pending e.1.state

abbrev pub has_pending_plan_change : ℕ → ℕ → Accounts → Bool
has_pending_plan_change tenant_id subscription_id st =
    any (is_pending_plan_change tenant_id subscription_id) st.operations

-- The partial unique index: another operation of the subscription is pending. All operations are
-- cancellations or plan changes.
abbrev pub is_other_pending : ℕ → SubscriptionOperation → ℕ × SubscriptionOperation → Bool
is_other_pending id o e =
    not (e.0 == id) && is_of o.tenant_id o.subscription_id e.1 && is_pending e.1.state

-- a write of a row under the partial index
unfoldable pub put_operation : ℕ → SubscriptionOperation → Accounts → Result BillingError Accounts
put_operation id o st =
    if is_pending o.state && any (is_other_pending id o) st.operations
    then err unique_violation
    else ok (record st { operations = put id o st.operations })

-- `billingSubscriptionOperation.create`, with a new key
unfoldable pub create_operation :
    ℕ → SubscriptionOperation → Accounts → Result BillingError Accounts
unfolding put_operation find_operation
create_operation id o st =
    if is_some (get id st.operations)
      || is_some (find_operation o.tenant_id o.subscription_id o.operation st)
    then err unique_violation
    else put_operation id o st

abbrev later_row : ℕ × Subscription → Option (ℕ × Subscription) → Option (ℕ × Subscription)
later_row e none = some e
later_row e (some f) = if ltb e.1.created_at f.1.created_at then some f else some e

-- `subscription.findFirst({ where: { tenantId }, orderBy: { createdAt: 'desc' } })`
unfoldable pub newest_row : ℕ → Table Subscription → Option (ℕ × Subscription)
newest_row tenant_id [] = none
newest_row tenant_id (e ∷ rows) =
    let rest = newest_row tenant_id rows in
    if e.1.tenant_id == tenant_id then later_row e rest else rest

abbrev pub has_paid_access_remaining : ℕ → Subscription → Bool
has_paid_access_remaining now s = is_active s.status && after_now now s.current_period_ends_at

-- the `data` of the update that cancels
abbrev pub mark_canceled : ℕ → Bool → Subscription → Subscription
mark_canceled now retain s = record s {
  status = SubscriptionStatus.canceled;
  cancel_at_period_end = retain;
  canceled_at = some now;
  version = s.version + 1;
}

-- the same remote subscription
abbrev pub same_remote : Subscription → Subscription → Bool
same_remote s t =
    eq_option t.gateway_subscription_id s.gateway_subscription_id
    && eq_option t.gateway_provider s.gateway_provider

-- an operation that is done
abbrev pub mark_succeeded : ℕ → SubscriptionOperation → SubscriptionOperation
mark_succeeded now o = record o { state = succeeded; claim_token = none; completed_at = some now }

abbrev pub canceled_event : ℕ → ℕ → BillingEvent
canceled_event tenant_id subscription_id = record {
  tenant_id = tenant_id;
  subscription_id = subscription_id;
  type = subscription_canceled;
}
