-- ===== src/Billing/Subscriptions/Finish.antt =====
-- What `cancelForTenant` of src/billing/subscriptions.service.ts does with the answer of the provider.
use next_stock_oficial.Prelude.{
  ℕ, Bool, true, false, not, ◌&&◌, none, some, ◌∷◌, eq_option, ◌==◌, if◌then◌else◌,
}
use next_stock_oficial.Prelude.Result.{Result, ok, err}
use next_stock_oficial.Prelude.Table.{get, put, matching}
use next_stock_oficial.Billing.Entitlement.{is_canceled}
use next_stock_oficial.Billing.Subscriptions.{
  Accounts, BillingError, SubscriptionOperation, processing, unknown, not_found, claim_lost,
  remote_changed, gateway_failed, has_paid_access_remaining, mark_canceled, same_remote,
  mark_succeeded, canceled_event,
}
use next_stock_oficial.Billing.Subscriptions.Cancel.{CancelRequest, GatewayCall}

-- `where: { id, claimToken, state: PROCESSING }`
abbrev pub is_held : ℕ → SubscriptionOperation → Bool
is_held token o =
    eq_option o.claim_token (some token) && (elim o.state [ processing ↦ true | _ ↦ false ])

-- the transaction after the provider has canceled
unfoldable pub complete_cancel :
    CancelRequest → GatewayCall → Accounts → Result BillingError Accounts
complete_cancel r c st = elim (get c.id st.subscriptions) [
  | none ↦ err not_found
  | some current ↦
      let own = matching (is_held r.token) (get c.operation_id st.operations) in
      if not (current.tenant_id == r.tenant_id && same_remote c.subscription current)
      then err remote_changed
      else if is_canceled current.status
      then elim own [
        | none ↦ ok st
        | some o ↦
            ok
              (record st { operations = put c.operation_id (mark_succeeded r.now o) st.operations })
      ]
      else elim own [
        | none ↦ err claim_lost
        | some o ↦ ok (record st {
          subscriptions =
              put c.id (mark_canceled r.now (has_paid_access_remaining r.now current) current)
                st.subscriptions;
          operations = put c.operation_id (mark_succeeded r.now o) st.operations;
          events = canceled_event r.tenant_id c.id ∷ st.events;
        })
      ]
]

-- the `catch`: what the provider has done is not known
unfoldable pub mark_unknown : CancelRequest → GatewayCall → Accounts → Accounts
mark_unknown r c st = elim (matching (is_held r.token) (get c.operation_id st.operations)) [
  | none ↦ st
  | some o ↦ record st {
    operations = put c.operation_id (record o { state = unknown }) st.operations;
  }
]

-- what follows the call of the provider, which has succeeded or not
unfoldable pub finish_cancel :
    CancelRequest → GatewayCall → Bool → Accounts → Accounts × Result BillingError (Unit {0})
unfolding complete_cancel mark_unknown
finish_cancel r c answered st =
    if answered
    then elim (complete_cancel r c st) [
      | ok st' ↦ (st', ok tt)
      | err e ↦ (mark_unknown r c st, err e)
    ]
    else (mark_unknown r c st, err gateway_failed)
