-- ===== src/Billing/Subscriptions/Pending.antt =====
-- A plan change that is claimed, beside a cancellation and another plan change: `requestPlanChange`,
-- `confirmPlanChangeFromWebhook` and `cancelForTenant` of src/billing/subscriptions.service.ts.
use next_stock_oficial.Prelude.{ℕ, ◌≡◌, ◌≢◌, Bool, true, some}
use next_stock_oficial.Prelude.Result.{ok, err}
use next_stock_oficial.Prelude.Table.{get}
use next_stock_oficial.Prelude.Text.{Text}
use next_stock_oficial.Billing.Entitlement.{Subscription}
use next_stock_oficial.Billing.Subscriptions.{
  Accounts, SubscriptionOperation, claimed, processing, unknown, plan_change_pending, is_of,
  is_plan_change, is_pending, newest_row,
}
use next_stock_oficial.Billing.Subscriptions.Cancel.{read_cancel}
use next_stock_oficial.Billing.Subscriptions.PlanChange.{
  PlanChangeRequest, PlanChangeReads, claim_plan_change,
}
use next_stock_oficial.Billing.Subscriptions.Confirm.{
  ConfirmReads, SubscriptionTerms, confirm_plan_change,
}

-- the operation of a subscription under a key, which is not finished
record IsBusy (tenant_id id k : ℕ) (st : Accounts) : Type 0 where
  operation : SubscriptionOperation
  there : get k st.operations ≡ some operation
  its : is_of tenant_id id operation ≡ true
  change : is_plan_change operation.operation ≡ true
  busy : is_pending operation.state ≡ true

-- what a claim excludes
pub record IsExclusive (r : PlanChangeRequest) (reads : PlanChangeReads) (st st' : Accounts)
    : Type 0 where
  pub alone :
      (k : ℕ) (o : SubscriptionOperation)
      → get k st.operations ≡ some o
      → o.tenant_id ≡ r.tenant_id
      → o.subscription_id ≡ reads.id
      → (o.state ≢ claimed) × (o.state ≢ processing) × (o.state ≢ unknown)
  pub no_second :
      (has_gateway : ℕ → Bool) (r' : PlanChangeRequest) (reads' : PlanChangeReads)
      {later : Accounts}
      → r'.tenant_id ≡ r.tenant_id
      → reads'.id ≡ reads.id
      → claim_plan_change has_gateway r' reads' st' ≢ ok later
  pub no_cancel :
      {s : Subscription}
      → newest_row r.tenant_id st.subscriptions ≡ some (reads.id, s)
      → read_cancel r.tenant_id st' ≡ err plan_change_pending
  pub until_done :
      {s : Subscription} (to_upper : Text → Text) (remote : ℕ) (confirm : ConfirmReads)
      (terms : SubscriptionTerms) {later : Accounts}
      → newest_row r.tenant_id st.subscriptions ≡ some (reads.id, s)
      → confirm.operation_id ≡ r.new_id
      → confirm_plan_change to_upper remote confirm terms st' ≡ ok (true, later)
      → read_cancel r.tenant_id later ≡ err plan_change_pending
