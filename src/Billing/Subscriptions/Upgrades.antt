-- ===== src/Billing/Subscriptions/Upgrades.antt =====
-- What a plan change may be: `requestPlanChange` of src/billing/subscriptions.service.ts.
use next_stock_oficial.Prelude.{
  ℕ, ◌≤◌, ◌≡◌, ◌⊎◌, refl, ◌∙◌, sym, ap, subst, Bool, true, false, not, Option, none, some, find,
  eq_option, arith, inl, inr, Bool-cases, Option-cases,
}
use next_stock_oficial.Prelude.Result.{ok, >>=-eq-ok, ok-injective, throw_if, throw_if_ok}
use next_stock_oficial.Billing.Plans.{
  Eligibility, eligible, server_usage_limit_cents, check_plan_change_eligibility, recurrence,
}
use next_stock_oficial.Billing.Plans.Laws.{eligible_MayChange}
use next_stock_oficial.Billing.Entitlement.{Subscription, is_active}
use next_stock_oficial.Billing.Subscriptions.{
  Accounts, BillingError, Plan, plan_change, not_found, no_recurrence, same_plan, not_eligible,
  checkout_open, has_pending_plan_change, find_operation, newest_row,
}
use next_stock_oficial.Billing.Subscriptions.PlanChange.{
  PlanChangeRequest, PlanChangeReads, PlanChangeCheck, may_claim, already_pending, current_slug,
  is_offered, active_remote, require_checkout, check_operations, check_plan_change, with_months,
  or_throw, is_eligible,
}

or_throw_ok {ℓ} :
    {A : Type ℓ} (o : Option A) (e : BillingError) {a : A} → or_throw o e ≡ ok a → o ≡ some a
or_throw_ok none e h = cc
or_throw_ok (some b) e h = ap some (ok-injective h)

is_eligible_true : (e : Eligibility) → not (is_eligible e) ≡ false → e ≡ eligible
is_eligible_true e h = ground (arith, h)

-- The conditions that a plan change which may be claimed has met.
pub record IsUpgrade (r : PlanChangeRequest) (st : Accounts) (reads : PlanChangeReads)
    : Type 0 where
  pub newest : newest_row r.tenant_id st.subscriptions ≡ some (reads.id, reads.subscription)
  pub offered : find (is_offered r.plan_slug) st.plans ≡ some (reads.target_id, reads.target)
  pub current_limit : ℕ
  pub target_limit : ℕ
  pub is_current :
      server_usage_limit_cents (current_slug reads.subscription st) ≡ some current_limit
  pub is_target : server_usage_limit_cents (some reads.target.slug) ≡ some target_limit
  pub no_lower : current_limit ≤ target_limit
  pub active : is_active reads.subscription.status ≡ true
  pub staying : reads.subscription.cancel_at_period_end ≡ false
  pub none_pending : has_pending_plan_change r.tenant_id reads.id st ≡ false

active_remote_ok :
    (s : Subscription) {r : ℕ × ℕ}
    → active_remote s ≡ ok r
    → (is_active s.status ≡ true) × (s.cancel_at_period_end ≡ false)
unfolding active_remote
active_remote_ok s h = elim (Option-cases s.gateway_provider) [
  | inl unpaid ↦ absurd (ground (arith, unpaid, h))
  | inr (p, has) ↦ elim (Option-cases s.gateway_subscription_id) [
    | inl unpaid ↦ absurd (ground (arith, has, unpaid, h))
    | inr (q, known) ↦ (ground (arith, has, known, h), ground (arith, has, known, h))
  ]
]

check_operations_ok :
    (r : PlanChangeRequest) (reads : PlanChangeReads) (st : Accounts) {out : PlanChangeReads}
    → check_operations r reads st ≡ ok (may_claim out)
    → (out ≡ reads) × (has_pending_plan_change r.tenant_id reads.id st ≡ false)
unfolding check_operations
check_operations_ok r reads st h =
    elim (Option-cases
      (find_operation r.tenant_id reads.id (plan_change reads.target_id r.idempotency_key) st)) [
        | inr (e, found) ↦ absurd (ground (arith, found, h))
        | inl fresh ↦ elim (Bool-cases (has_pending_plan_change r.tenant_id reads.id st)) [
          | inl busy ↦ absurd (ground (arith, fresh, busy, h))
          | inr free ↦ (ground (arith, fresh, free, h), free)
        ]
      ]

with_months_ok :
    (target : Plan) (check : PlanChangeCheck) {out : PlanChangeReads}
    → with_months target check ≡ ok (may_claim out)
    → (reads : PlanChangeReads) × (check ≡ may_claim reads)
      × (out ≡ record reads { months = out.months })
unfolding with_months
with_months_ok target already_pending h = cc
with_months_ok target (may_claim reads) {out} h =
    let (months, _, k) =
      >>=-eq-ok (or_throw (recurrence target.interval target.interval_count) no_recurrence) _ h in
    (reads, refl, months_of months (ok-injective k))
  where
    months_of :
        (months : ℕ)
        → ◌≡◌ {A = PlanChangeCheck} (may_claim (record reads { months = months })) (may_claim out)
        → out ≡ record reads { months = out.months }
    months_of months e = ground (arith, e)

abbrev at_months : ℕ → PlanChangeReads → PlanChangeReads
at_months months reads = record reads { months = months }

room_up : (m n : ℕ) {B : Type 0} → (B → ⊥) → (m ≤ n) ⊎ B → m ≤ n
room_up m n no_b (inl le) = le
room_up m n no_b (inr b) = absurd (no_b b)

-- A plan change that may be claimed is of the tenant's newest subscription, which is active and is
-- not being canceled, to a plan that is offered; no other change of it is pending. It is never a
-- downgrade: both plans have a usage limit, and the new one is no lower.
pub check_plan_change-IsUpgrade :
    (checkout_is_open : Bool) (r : PlanChangeRequest) (st : Accounts) {reads : PlanChangeReads}
    → check_plan_change checkout_is_open r st ≡ ok (may_claim reads)
    → IsUpgrade r st reads
unfolding check_plan_change
check_plan_change-IsUpgrade checkout_is_open r st {reads} h =
    let (found, h1, k1) =
      >>=-eq-ok (or_throw (newest_row r.tenant_id st.subscriptions) not_found) _ h in
    let (target, h2, k2) =
      >>=-eq-ok (or_throw (find (is_offered r.plan_slug) st.plans) not_found) _ k1 in
    let (_, h3, k3) =
      >>=-eq-ok (throw_if (eq_option found.1.plan_id (some target.0)) same_plan) _ k2 in
    let verdict = check_plan_change_eligibility (current_slug found.1 st) target.1.slug none in
    let (_, h4, k4) =
      >>=-eq-ok (throw_if (not (is_eligible verdict)) (not_eligible verdict)) _ k3 in
    let (remote, h5, k5) = >>=-eq-ok (active_remote found.1) _ k4 in
    let (_, h6, k6) = >>=-eq-ok (require_checkout r.tenant_id found.0 remote.1 st) _ k5 in
    let (_, h7, k7) = >>=-eq-ok (throw_if checkout_is_open checkout_open) _ k6 in
    let first : PlanChangeReads = record {
      id = found.0;
      subscription = found.1;
      provider = remote.0;
      remote = remote.1;
      target_id = target.0;
      target = target.1;
      months = 0;
    } in
    let (check, h8, k8) = >>=-eq-ok (check_operations r first st) _ k7 in
    let (in_reads, is, out) = with_months_ok target.1 check k8 in
    let (same, free) = check_operations_ok r first st (h8 ∙ ap ok is) in
    let may =
      eligible_MayChange (current_slug found.1 st) target.1.slug none
        (is_eligible_true verdict (throw_if_ok _ _ h4)) in
    let (active, staying) = active_remote_ok found.1 h5 in
    subst (IsUpgrade r st) (ap (at_months reads.months) (sym same) ∙ sym out) record {
      newest = or_throw_ok _ not_found h1;
      offered = or_throw_ok _ not_found h2;
      current_limit = may.current_limit;
      target_limit = may.target_limit;
      is_current = may.is_current;
      is_target = may.is_target;
      no_lower = room_up may.current_limit may.target_limit (λ b. b) may.room;
      active = active;
      staying = staying;
      none_pending = free;
    }
