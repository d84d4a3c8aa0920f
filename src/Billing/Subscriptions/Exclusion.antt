-- ===== src/Billing/Subscriptions/Exclusion.antt =====
-- Several workers that cancel one subscription, by `cancelForTenant` of
-- src/billing/subscriptions.service.ts.
use next_stock_oficial.Prelude.{
  ℕ, ◌<◌, ◌≡◌, ◌≢◌, refl, ◌∙◌, ap, subst, Bool, true, false, ◌&&◌, Option, none, some, ltb, ◌==◌,
  arith, inl, inr, Bool-cases, Option-cases,
}
use next_stock_oficial.Prelude.Result.{ok, err, Result-cases}
use next_stock_oficial.Prelude.Table.{get}
use next_stock_oficial.Billing.Entitlement.{is_canceled}
use next_stock_oficial.Billing.Subscriptions.{
  Accounts, SubscriptionOperation, is_succeeded, same_remote, find_operation,
  has_pending_plan_change, create_operation, claim_lost,
}
use next_stock_oficial.Billing.Subscriptions.Cancel.{
  CancelRequest, CancelReads, GatewayCall, call, new_operation, reclaim, take_over, after_conflict,
  claim_operation, start_cancel,
}
use next_stock_oficial.Billing.Subscriptions.Finish.{
  is_held, complete_cancel, mark_unknown, finish_cancel,
}
use next_stock_oficial.Billing.Subscriptions.Claims.{start_cancel_claims}

-- what was read of the operation, at any earlier time: nothing, or its row as it stood then
abbrev ReadsOf : ℕ → Option (ℕ × SubscriptionOperation) → Type 0
ReadsOf id none = Unit
ReadsOf id (some e) = e.0 ≡ id

module _ (r : CancelRequest) (reads : CancelReads) (st : Accounts) (id : ℕ)
    (o : SubscriptionOperation) (there : get id st.operations ≡ some o)
    (leased : r.now < o.lease_expires_at) where
  reclaim_leased : (read : SubscriptionOperation) → reclaim r id read st ≡ err claim_lost
  unfolding reclaim
  reclaim_leased read = ground (arith, there, leased)

  take_over_leased :
      (e : ℕ × SubscriptionOperation) {c : GatewayCall} {st' : Accounts}
      → e.0 ≡ id
      → take_over r reads e st ≢ ok (call c, st')
  unfolding take_over
  take_over_leased e is h = elim (Bool-cases (is_succeeded e.1.state)) [
    | inl done ↦ ground (arith, done, h)
    | inr more ↦ elim (Bool-cases (ltb r.now e.1.lease_expires_at)) [
      | inl early ↦ ground (arith, more, early, h)
      | inr over ↦
          let lost = ap (λ k. reclaim r k e.1 st) is ∙ reclaim_leased e.1 in
          ground (arith, more, over, lost, h)
    ]
  ]

  after_conflict_leased :
      {c : GatewayCall} {st' : Accounts}
      → find_operation r.tenant_id reads.id reads.name st ≡ some (id, o)
      → after_conflict r reads st ≢ ok (call c, st')
  unfolding after_conflict
  after_conflict_leased found h =
      elim (Bool-cases (has_pending_plan_change r.tenant_id reads.id st)) [
        | inl pending ↦ ground (arith, pending, h)
        | inr free ↦ take_over_leased (id, o) refl (rw (free, found, after_conflict) at h)
      ]

  taken_name :
      {made : Accounts}
      → find_operation r.tenant_id reads.id reads.name st ≡ some (id, o)
      → create_operation r.new_id (new_operation r reads) st ≢ ok made
  unfolding create_operation
  taken_name found h = ground (arith, found, h)

  claim_operation_leased :
      {c : GatewayCall} {st' : Accounts}
      → find_operation r.tenant_id reads.id reads.name st ≡ some (id, o)
      → ReadsOf id reads.existing
      → claim_operation r reads st ≢ ok (call c, st')
  unfolding claim_operation
  claim_operation_leased found read h = elim (Option-cases reads.existing) [
    | inr (e, was) ↦
        take_over_leased e (subst (ReadsOf id) was read) (rw (was, claim_operation) at h)
    | inl fresh ↦ elim (Result-cases (create_operation r.new_id (new_operation r reads) st)) [
      | inr (e, clash) ↦ after_conflict_leased found (rw (fresh, clash, claim_operation) at h)
      | inl (made, created) ↦ absurd (taken_name found created)
    ]
  ]

  -- While the lease of an operation runs, no worker that cancels the same subscription goes on to
  -- call the provider, whenever it has read: before the operation was there, or any state of its
  -- row since then.
  pub start_cancel_excluded :
      (has_gateway : ℕ → Bool) {c : GatewayCall} {st' : Accounts}
      → find_operation r.tenant_id reads.id reads.name st ≡ some (id, o)
      → ReadsOf id reads.existing
      → start_cancel has_gateway r reads st ≢ ok (call c, st')
  start_cancel_excluded has_gateway found read h =
      claim_operation_leased found read (start_cancel_claims has_gateway r reads st h)

module _ (r : CancelRequest) (c : GatewayCall) (st : Accounts) (o : SubscriptionOperation)
    (row : get c.operation_id st.operations ≡ some o) (lost : is_held r.token o ≡ false) where
  mark_unknown_stale : mark_unknown r c st ≡ st
  unfolding mark_unknown
  mark_unknown_stale = ground (arith, row, lost)

  complete_cancel_stale : {st' : Accounts} → complete_cancel r c st ≡ ok st' → st' ≡ st
  unfolding complete_cancel
  complete_cancel_stale h = elim (Option-cases (get c.id st.subscriptions)) [
    | inl missing ↦ absurd (ground (arith, missing, h))
    | inr (s, found) ↦
        elim (Bool-cases (s.tenant_id == r.tenant_id && same_remote c.subscription s)) [
          | inr other ↦ absurd (ground (arith, found, other, h))
          | inl own ↦ elim (Bool-cases (is_canceled s.status)) [
            | inl gone ↦ ground (arith, found, own, gone, row, lost, h)
            | inr alive ↦ absurd (ground (arith, found, own, alive, row, lost, h))
          ]
        ]
  ]

  -- A worker whose operation is under another token by now, or no longer being processed, changes
  -- nothing, whatever the provider has answered.
  pub finish_cancel_stale : (answered : Bool) → (finish_cancel r c answered st).0 ≡ st
  unfolding finish_cancel
  finish_cancel_stale false = mark_unknown_stale
  finish_cancel_stale true = elim (Result-cases (complete_cancel r c st)) [
    | inl (st', went) ↦ rw went (complete_cancel_stale went)
    | inr (e, failed) ↦ rw failed mark_unknown_stale
  ]
