-- ===== src/Billing/Subscriptions/Claims.antt =====
-- What a worker holds that cancels a subscription, when it goes on to call the provider:
-- `cancelForTenant` of src/billing/subscriptions.service.ts.
use next_stock_oficial.Prelude.{
  ℕ, ◌≡◌, ◌≢◌, refl, ◌∙◌, sym, ap, subst₂, Bool, ◌&&◌, some, is_none, eq_option, ltb, leb, arith,
  inl, inr, Bool-cases, Option-cases,
}
use next_stock_oficial.Prelude.Result.{ok, >>=-eq-ok, Result-cases, ok-injective}
use next_stock_oficial.Prelude.Table.{get, put, matching-cases, get-put_self}
use next_stock_oficial.Billing.Entitlement.{is_canceled}
use next_stock_oficial.Billing.Subscriptions.{
  Accounts, SubscriptionOperation, claimed, processing, is_succeeded, find_operation,
  has_pending_plan_change, put_operation, create_operation,
}
use next_stock_oficial.Billing.Subscriptions.Cancel.{
  CancelRequest, CancelReads, GatewayCall, Started, call, call_of, new_operation, lease, reclaim,
  begin_processing, proceed, cancel_locally, unchanged, take_over, after_conflict, claim_operation,
  start_cancel, is_reclaimable,
}

-- the row that an operation is written to
put_operation_ok :
    (id : ℕ) (o : SubscriptionOperation) (st : Accounts) {st' : Accounts}
    → put_operation id o st ≡ ok st'
    → record st { operations = put id o st.operations } ≡ st'
unfolding put_operation
put_operation_ok id o st h = ground (arith, h)

-- An operation that is being processed under a token, and whose lease runs.
pub record IsHeldBy (token now : ℕ) (o : SubscriptionOperation) : Type 0 where
  pub state : o.state ≡ processing
  pub held : o.claim_token ≡ some token
  pub leased : o.lease_expires_at ≡ lease now

-- a claim as it stands before it is processed
record IsClaimed (token now : ℕ) (o : SubscriptionOperation) : Type 0 where
  state : o.state ≡ claimed
  held : o.claim_token ≡ some token
  leased : o.lease_expires_at ≡ lease now

begin_processing_holds :
    (r : CancelRequest) (id : ℕ) (o : SubscriptionOperation) (st : Accounts) {st' : Accounts}
    → get id st.operations ≡ some o
    → IsClaimed r.token r.now o
    → begin_processing r id st ≡ ok st'
    → (p : SubscriptionOperation) × (get id st'.operations ≡ some p) × IsHeldBy r.token r.now p
unfolding begin_processing
begin_processing_holds r id o st {st'} row c h =
    let begun = record o { state = processing } in
    let wrote : put_operation id begun st ≡ ok st' = ground (arith, row, c.state, c.held, h) in
    (
      begun,
      ap (λ x. get id x.operations) (sym (put_operation_ok id begun st wrote))
          ∙ get-put_self id begun st.operations,
      record { state = refl; held = c.held; leased = c.leased },
    )

reclaim_claims :
    (r : CancelRequest) (id : ℕ) (read : SubscriptionOperation) (st : Accounts) {st' : Accounts}
    → reclaim r id read st ≡ ok st'
    → (o : SubscriptionOperation) × (get id st'.operations ≡ some o) × IsClaimed r.token r.now o
unfolding reclaim
reclaim_claims r id read st {st'} h =
    elim (matching-cases
      (λ p.
        eq_option p.claim_token read.claim_token
        && is_reclaimable p.state
        && leb p.lease_expires_at r.now)
      (get id st.operations)) [
        | inl lost ↦ absurd (ground (arith, lost, h))
        | inr (p, row, _, matched) ↦
            let new = record p {
              state = claimed;
              claim_token = some r.token;
              lease_expires_at = lease r.now;
            } in
            let wrote : put_operation id new st ≡ ok st' = ground (arith, matched, h) in
            (
              new,
              ap (λ x. get id x.operations) (sym (put_operation_ok id new st wrote))
                  ∙ get-put_self id new st.operations,
              record { state = refl; held = refl; leased = refl },
            )
      ]

call_injective : {c d : GatewayCall} → ◌≡◌ {A = Started} (call c) (call d) → c ≡ d
call_injective h = cc

get-create_operation :
    (id : ℕ) (o : SubscriptionOperation) (st : Accounts) {st' : Accounts}
    → create_operation id o st ≡ ok st'
    → get id st'.operations ≡ some o
unfolding create_operation
get-create_operation id o st {st'} h =
    let wrote : put_operation id o st ≡ ok st' = ground (arith, h) in
    ap (λ x. get id x.operations) (sym (put_operation_ok id o st wrote))
    ∙ get-put_self id o st.operations

cancel_locally_finishes :
    (r : CancelRequest) (reads : CancelReads) (st : Accounts) {c : GatewayCall} {st' : Accounts}
    → cancel_locally r reads st ≢ ok (call c, st')
unfolding cancel_locally
cancel_locally_finishes r reads st h =
    elim (matching-cases (unchanged r.tenant_id reads.subscription)
      (get reads.id st.subscriptions)) [
        | inl lost ↦ ground (arith, lost, h)
        | inr (s, _, _, matched) ↦ ground (arith, matched, h)
      ]

-- Only a claim leads to a call.
pub start_cancel_claims :
    (has_gateway : ℕ → Bool) (r : CancelRequest) (reads : CancelReads) (st : Accounts)
    {c : GatewayCall} {st' : Accounts}
    → start_cancel has_gateway r reads st ≡ ok (call c, st')
    → claim_operation r reads st ≡ ok (call c, st')
unfolding start_cancel
start_cancel_claims has_gateway r reads st h =
    let s = reads.subscription in
    elim (Bool-cases (is_canceled s.status)) [
      | inl done ↦ absurd (ground (arith, done, h))
      | inr alive ↦ elim (Bool-cases (is_none s.gateway_subscription_id)) [
        | inl local ↦
            absurd (cancel_locally_finishes r reads st (rw (alive, local, start_cancel) at h))
        | inr remote ↦ ground (arith, alive, remote, h)
      ]
    ]

-- What a worker that goes on to call the provider holds.
pub record Holds (r : CancelRequest) (reads : CancelReads) (c : GatewayCall) (st : Accounts)
    : Type 0 where
  pub subscription : c.subscription ≡ reads.subscription
  pub id : c.id ≡ reads.id
  pub row : SubscriptionOperation
  pub there : get c.operation_id st.operations ≡ some row
  pub held : IsHeldBy r.token r.now row

module _ (r : CancelRequest) (reads : CancelReads) where
  -- the last step before the call
  begun-Holds :
      (id : ℕ) (o : SubscriptionOperation) (st : Accounts) {c : GatewayCall} {st' : Accounts}
      → get id st.operations ≡ some o
      → IsClaimed r.token r.now o
      → proceed r reads id st ≡ ok (call c, st')
      → Holds r reads c st'
  unfolding proceed
  begun-Holds id o st {c} {st'} row claim h =
      let (begun, h1, h2) = >>=-eq-ok (begin_processing r id st) _ h in
      let (p, there, held) = begin_processing_holds r id o st row claim h1 in
      let e = ok-injective h2 in
      let is : call_of reads id ≡ c = call_injective (ap (λ x. x.0) e) in
      subst₂ (Holds r reads) is (ap (λ x. x.1) e)
        record { subscription = refl; id = refl; row = p; there = there; held = held }

  take_over-Holds :
      (e : ℕ × SubscriptionOperation) (st : Accounts) {c : GatewayCall} {st' : Accounts}
      → take_over r reads e st ≡ ok (call c, st')
      → Holds r reads c st'
  unfolding take_over
  take_over-Holds e st {c} {st'} h = elim (Bool-cases (is_succeeded e.1.state)) [
    | inl done ↦ absurd (ground (arith, done, h))
    | inr more ↦ elim (Bool-cases (ltb r.now e.1.lease_expires_at)) [
      | inl early ↦ absurd (ground (arith, more, early, h))
      | inr over ↦
          let (taken, h1, h2) =
            >>=-eq-ok (reclaim r e.0 e.1 st) _ (rw (more, over, take_over) at h) in
          let (o, row, claim) = reclaim_claims r e.0 e.1 st h1 in
          begun-Holds e.0 o taken row claim h2
    ]
  ]

  after_conflict-Holds :
      (st : Accounts) {c : GatewayCall} {st' : Accounts}
      → after_conflict r reads st ≡ ok (call c, st')
      → Holds r reads c st'
  unfolding after_conflict
  after_conflict-Holds st h = elim (Bool-cases (has_pending_plan_change r.tenant_id reads.id st)) [
    | inl pending ↦ absurd (ground (arith, pending, h))
    | inr free ↦ elim (Option-cases (find_operation r.tenant_id reads.id reads.name st)) [
      | inl missing ↦ absurd (ground (arith, free, missing, h))
      | inr (e, found) ↦ take_over-Holds e st (rw (free, found, after_conflict) at h)
    ]
  ]

  claim_operation-Holds :
      (st : Accounts) {c : GatewayCall} {st' : Accounts}
      → claim_operation r reads st ≡ ok (call c, st')
      → Holds r reads c st'
  unfolding claim_operation
  claim_operation-Holds st h = elim (Option-cases reads.existing) [
    | inr (e, there) ↦ take_over-Holds e st (rw (there, claim_operation) at h)
    | inl fresh ↦ elim (Result-cases (create_operation r.new_id (new_operation r reads) st)) [
      | inr (e, clash) ↦ after_conflict-Holds st (rw (fresh, clash, claim_operation) at h)
      | inl (made, created) ↦
          begun-Holds r.new_id (new_operation r reads) made
            (get-create_operation r.new_id (new_operation r reads) st created)
            record { state = refl; held = refl; leased = refl }
            (rw (fresh, created, claim_operation) at h)
    ]
  ]

  -- A worker that goes on to call the provider holds the claim: the row of its operation is being
  -- processed under its own token, and its lease is a minute long.
  pub start_cancel-Holds :
      (has_gateway : ℕ → Bool) (st : Accounts) {c : GatewayCall} {st' : Accounts}
      → start_cancel has_gateway r reads st ≡ ok (call c, st')
      → Holds r reads c st'
  start_cancel-Holds has_gateway st h =
      claim_operation-Holds st (start_cancel_claims has_gateway r reads st h)
