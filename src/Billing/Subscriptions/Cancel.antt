-- ===== src/Billing/Subscriptions/Cancel.antt =====
-- `cancelForTenant` of src/billing/subscriptions.service.ts: what it reads, and what it claims before
-- it calls the provider.
use next_stock_oficial.Prelude.{
  ℕ, ◌+◌, Bool, true, false, not, ◌&&◌, Option, none, some, ◌∷◌, is_none, eq_option, ltb, leb, ◌==◌,
  if◌then◌else◌,
}
use next_stock_oficial.Prelude.Result.{Result, ok, err, ◌>>=◌}
use next_stock_oficial.Prelude.Table.{get, put, matching}
use next_stock_oficial.Billing.Entitlement.{Subscription, is_canceled}
use next_stock_oficial.Billing.Subscriptions.{
  Accounts, BillingError, SubscriptionOperation, BillingSubscriptionOperationState, OperationName,
  cancel_any, cancel_of, claimed, processing, succeeded, failed_final, not_found,
  plan_change_pending, subscription_changed, gateway_unavailable, earlier_cancellation, in_progress,
  claim_lost, is_succeeded, find_operation, has_pending_plan_change, put_operation,
  create_operation, newest_row, has_paid_access_remaining, mark_canceled, same_remote,
  mark_succeeded, canceled_event,
}

-- what one call is given: its tenant, its clock, a fresh token and the key of a new row
pub record CancelRequest : Type 0 where
  pub tenant_id : ℕ
  pub now : ℕ
  pub token : ℕ
  pub new_id : ℕ

-- what is read before anything is written
pub record CancelReads : Type 0 where
  pub id : ℕ
  pub subscription : Subscription
  pub name : OperationName
  pub existing : Option (ℕ × SubscriptionOperation)

-- `gatewaySubscriptionId ? 'CANCEL:' + hash(provider:id) : 'CANCEL'`; a provider that is null is
-- printed as such, and stands for zero
abbrev provider_number : Option ℕ → ℕ
provider_number none = 0
provider_number (some p) = p + 1

abbrev pub operation_key : Subscription → OperationName
operation_key s = elim s.gateway_subscription_id [
  | none ↦ cancel_any
  | some remote ↦ cancel_of (provider_number s.gateway_provider) remote
]

unfoldable pub read_cancel : ℕ → Accounts → Result BillingError CancelReads
unfolding newest_row find_operation
read_cancel tenant_id st = elim (newest_row tenant_id st.subscriptions) [
  | none ↦ err not_found
  | some e ↦
      if has_pending_plan_change tenant_id e.0 st
      then err plan_change_pending
      else ok (record {
        id = e.0;
        subscription = e.1;
        name = operation_key e.1;
        existing = find_operation tenant_id e.0 (operation_key e.1) st;
      })
]

-- the call of the provider that is to be made
pub record GatewayCall : Type 0 where
  pub id : ℕ
  pub subscription : Subscription
  pub operation_id : ℕ

pub data Started : Type 0 where
  finished : Started
  call : GatewayCall → Started

-- `updateMany({ where: { id, state: { not: SUCCEEDED } } })`, of a subscription that is canceled
unfoldable pub settle_existing : ℕ → Option (ℕ × SubscriptionOperation) → Accounts → Accounts
settle_existing now none st = st
settle_existing now (some e) st =
    elim (matching (λ o. not (is_succeeded o.state)) (get e.0 st.operations)) [
      | none ↦ st
      | some o ↦ record st { operations = put e.0 (mark_succeeded now o) st.operations }
    ]

-- `where: { id, tenantId, version, status: { not: canceled } }` with what was read
abbrev pub unchanged : ℕ → Subscription → Subscription → Bool
unchanged tenant_id read s =
    s.tenant_id == tenant_id && s.version == read.version && not (is_canceled s.status)

abbrev canceled_row : Option Subscription → Bool
canceled_row none = false
canceled_row (some s) = is_canceled s.status

-- the cancellation of a subscription that no provider knows
unfoldable pub cancel_locally :
    CancelRequest → CancelReads → Accounts → Result BillingError (Started × Accounts)
cancel_locally r reads st =
    elim (matching (unchanged r.tenant_id reads.subscription) (get reads.id st.subscriptions)) [
      | none ↦
          if canceled_row (get reads.id st.subscriptions)
          then ok (finished, st)
          else err subscription_changed
      | some s ↦ ok (
        finished,
        record st {
          subscriptions =
              put reads.id
                (mark_canceled r.now (has_paid_access_remaining r.now reads.subscription) s)
                st.subscriptions;
          events = canceled_event r.tenant_id reads.id ∷ st.events;
        },
      )
    ]

-- where the operation of this remote subscription has succeeded already
unfoldable pub reconcile_succeeded : CancelRequest → CancelReads → Accounts → Accounts
reconcile_succeeded r reads st =
    elim (matching
      (λ s. unchanged r.tenant_id reads.subscription s && same_remote reads.subscription s)
      (get reads.id st.subscriptions)) [
        | none ↦ st
        | some s ↦ record st {
          subscriptions =
              put reads.id
                (mark_canceled r.now (has_paid_access_remaining r.now reads.subscription) s)
                st.subscriptions;
          events = canceled_event r.tenant_id reads.id ∷ st.events;
        }
      ]

-- the states from which a claim may be taken again
abbrev pub is_reclaimable : BillingSubscriptionOperationState → Bool
is_reclaimable succeeded = false
is_reclaimable failed_final = false
is_reclaimable _ = true

abbrev pub lease : ℕ → ℕ
lease now = now + 60000

-- `updateMany` of an operation whose lease is over; `o` is what was read
unfoldable pub reclaim :
    CancelRequest → ℕ → SubscriptionOperation → Accounts → Result BillingError Accounts
unfolding put_operation
reclaim r id o st =
    elim (matching
      (λ p.
        eq_option p.claim_token o.claim_token
        && is_reclaimable p.state
        && leb p.lease_expires_at r.now)
      (get id st.operations)) [
        | none ↦ err claim_lost
        | some p ↦
            put_operation id
              (record p {
                state = claimed;
                claim_token = some r.token;
                lease_expires_at = lease r.now;
              })
              st
      ]

abbrev pub new_operation : CancelRequest → CancelReads → SubscriptionOperation
new_operation r reads = record {
  tenant_id = r.tenant_id;
  subscription_id = reads.id;
  target_plan_id = none;
  operation = reads.name;
  state = claimed;
  claim_token = some r.token;
  lease_expires_at = lease r.now;
  completed_at = none;
}

-- `where: { id, claimToken, state: CLAIMED }`, to PROCESSING
unfoldable pub begin_processing : CancelRequest → ℕ → Accounts → Result BillingError Accounts
unfolding put_operation
begin_processing r id st =
    elim (matching
      (λ o. eq_option o.claim_token (some r.token) && (elim o.state [ claimed ↦ true | _ ↦ false ]))
      (get id st.operations)) [
        | none ↦ err claim_lost
        | some o ↦ put_operation id (record o { state = processing }) st
      ]

abbrev pub call_of : CancelReads → ℕ → GatewayCall
call_of reads id = record { id = reads.id; subscription = reads.subscription; operation_id = id }

-- the last step before the call of the provider
unfoldable pub proceed :
    CancelRequest → CancelReads → ℕ → Accounts → Result BillingError (Started × Accounts)
unfolding begin_processing
proceed r reads id st = do begun ← begin_processing r id st; ok (call (call_of reads id), begun)

-- the operation is there: it is taken over, or it shows that the provider has been called
unfoldable pub take_over :
    CancelRequest
    → CancelReads
    → ℕ × SubscriptionOperation
    → Accounts
    → Result BillingError (Started × Accounts)
unfolding reclaim proceed reconcile_succeeded
take_over r reads e st =
    if is_succeeded e.1.state
    then ok (finished, reconcile_succeeded r reads st)
    else if ltb r.now e.1.lease_expires_at
    then err in_progress
    else do taken ← reclaim r e.0 e.1 st; proceed r reads e.0 taken

-- after a violation of a unique index
unfoldable pub after_conflict :
    CancelRequest → CancelReads → Accounts → Result BillingError (Started × Accounts)
unfolding take_over find_operation
after_conflict r reads st =
    if has_pending_plan_change r.tenant_id reads.id st
    then err plan_change_pending
    else elim (find_operation r.tenant_id reads.id reads.name st) [
      | none ↦ err not_found
      | some e ↦ take_over r reads e st
    ]

-- the claim of the operation, up to the call of the provider
unfoldable pub claim_operation :
    CancelRequest → CancelReads → Accounts → Result BillingError (Started × Accounts)
unfolding take_over after_conflict create_operation proceed
claim_operation r reads st = elim reads.existing [
  | some e ↦ take_over r reads e st
  | none ↦ elim (create_operation r.new_id (new_operation r reads) st) [
    | err e ↦ after_conflict r reads st
    | ok made ↦ proceed r reads r.new_id made
  ]
]

abbrev unfinished : Option (ℕ × SubscriptionOperation) → Bool
unfinished none = false
unfinished (some e) = not (is_succeeded e.1.state)

-- from the first write to the call of the provider, with what was read
unfoldable pub start_cancel :
    (ℕ → Bool) → CancelRequest → CancelReads → Accounts → Result BillingError (Started × Accounts)
unfolding settle_existing cancel_locally claim_operation find_operation
start_cancel has_gateway r reads st =
    if is_canceled reads.subscription.status
    then ok (finished, settle_existing r.now reads.existing st)
    else if is_none reads.subscription.gateway_subscription_id
    then cancel_locally r reads st
    else if not (elim reads.subscription.gateway_provider [ none ↦ false | some p ↦ has_gateway p ])
    then err gateway_unavailable
    else if unfinished (find_operation r.tenant_id reads.id cancel_any st)
    then err earlier_cancellation
    else claim_operation r reads st
