-- ===== src/Billing/Subscriptions/Access.antt =====
-- What `cancelForTenant` of src/billing/subscriptions.service.ts makes of a subscription, and of the
-- access that it gives.
use next_stock_oficial.Prelude.{
  ℕ, ◌+◌, ◌≡◌, ◌≢◌, ◌<◌, ◌≤◌, ltb, none, refl, ◌∙◌, sym, ap, true, false, ◌&&◌, some, ◌==◌, arith,
  inl, inr, Bool-cases,
}
use next_stock_oficial.Prelude.Result.{ok, Result-cases}
use next_stock_oficial.Prelude.Table.{get, put, matching-cases, get-put_self}
use next_stock_oficial.Billing.Entitlement.{
  Subscription, SubscriptionStatus, is_active, is_canceled, evaluate_subscription,
}
use next_stock_oficial.Billing.Entitlement.Laws.{access_ends, open_at, evaluate-access_ends}
use next_stock_oficial.Billing.Subscriptions.{
  Accounts, SubscriptionOperation, succeeded, has_paid_access_remaining, mark_canceled,
  mark_succeeded, same_remote,
}
use next_stock_oficial.Billing.Subscriptions.Cancel.{CancelRequest, GatewayCall}
use next_stock_oficial.Billing.Subscriptions.Finish.{is_held, complete_cancel, finish_cancel}

-- what is left of the access of a subscription that is canceled
open_at-mark_canceled :
    (now : ℕ) (s : Subscription) (t : ℕ)
    → open_at t (access_ends (mark_canceled now (has_paid_access_remaining now s) s))
      ≡ has_paid_access_remaining now s && open_at t (access_ends s)
open_at-mark_canceled now s t = ground arith

mark_canceled_allowed :
    (now : ℕ) (s : Subscription) (t : ℕ)
    → (evaluate_subscription (mark_canceled now (has_paid_access_remaining now s) s) t).allowed
      ≡ has_paid_access_remaining now s && (evaluate_subscription s t).allowed
mark_canceled_allowed now s t =
    evaluate-access_ends (mark_canceled now (has_paid_access_remaining now s) s) t
    ∙ open_at-mark_canceled now s t
    ∙ ap (λ b. has_paid_access_remaining now s && b) (sym (evaluate-access_ends s t))

-- what the transaction leaves, where the subscription was not canceled before
complete_cancel_ok :
    (r : CancelRequest) (c : GatewayCall) (s : Subscription) (st : Accounts) {st' : Accounts}
    → get c.id st.subscriptions ≡ some s
    → is_canceled s.status ≡ false
    → complete_cancel r c st ≡ ok st'
    → (same_remote c.subscription s ≡ true)
      × (st'.subscriptions
          ≡ put c.id (mark_canceled r.now (has_paid_access_remaining r.now s) s) st.subscriptions)
      × ((o : SubscriptionOperation) × (get c.operation_id st.operations ≡ some o)
          × (is_held r.token o ≡ true)
          × (st'.operations ≡ put c.operation_id (mark_succeeded r.now o) st.operations))
unfolding complete_cancel
complete_cancel_ok r c s st {st'} row alive h =
    elim (Bool-cases (s.tenant_id == r.tenant_id && same_remote c.subscription s)) [
      | inr other ↦ absurd (ground (arith, row, other, h))
      | inl own ↦ elim (matching-cases (is_held r.token) (get c.operation_id st.operations)) [
        | inl lost ↦ absurd (ground (arith, row, own, alive, lost, h))
        | inr (o, there, held, matched) ↦ (
          ground (arith, own),
          ground (arith, row, own, alive, matched, h),
          (o, there, held, ground (arith, row, own, alive, matched, h)),
        )
      ]
    ]

-- The access after a cancellation at the time `now`: what is paid for stays, and nothing else.
pub record KeepsPaid (now : ℕ) (s s' : Subscription) : Type 0 where
  pub paid :
      (end : ℕ)
      → s.status ≡ SubscriptionStatus.active
      → s.current_period_ends_at ≡ some end
      → now < end
      → (t : ℕ) → (evaluate_subscription s' t).allowed ≡ ltb t end
  pub over :
      (end : ℕ)
      → s.current_period_ends_at ≡ some end
      → end ≤ now
      → (t : ℕ) → (evaluate_subscription s' t).allowed ≡ false
  pub endless :
      s.current_period_ends_at ≡ none → (t : ℕ) → (evaluate_subscription s' t).allowed ≡ false
  pub inactive :
      s.status ≢ SubscriptionStatus.active → (t : ℕ) → (evaluate_subscription s' t).allowed ≡ false

is_active_true : (x : SubscriptionStatus) → is_active x ≡ true → x ≡ SubscriptionStatus.active
is_active_true x h = ground (arith, h)

is_active_false : (x : SubscriptionStatus) → x ≢ SubscriptionStatus.active → is_active x ≡ false
is_active_false x h = elim (Bool-cases (is_active x)) [
  | inl yes_active ↦ absurd (h (is_active_true x yes_active))
  | inr other ↦ other
]

mark_canceled-KeepsPaid :
    (now : ℕ) (s : Subscription)
    → KeepsPaid now s (mark_canceled now (has_paid_access_remaining now s) s)
unfolding evaluate_subscription
mark_canceled-KeepsPaid now s =
    let lost : has_paid_access_remaining now s ≡ false
        → (t : ℕ)
        → (evaluate_subscription (mark_canceled now (has_paid_access_remaining now s) s) t).allowed
          ≡ false =
      λ none_left t.
        mark_canceled_allowed now s t
        ∙ ap (λ b. b && (evaluate_subscription s t).allowed) none_left in
    record {
      paid = λ end active period later t. ground (arith, active, period, later);
      over = λ end period late. lost (ground (arith, period, late));
      endless = λ period. lost (ground (arith, period));
      inactive = λ other. lost (ground (arith, is_active_false s.status other));
    }

-- A cancellation that the provider has answered, and that goes through for a subscription that was
-- not canceled before, leaves it canceled under the next version, with its operation done. It
-- keeps exactly the access that is paid for: where the subscription was active with a period that
-- ends later, its tenant is let in until then, and else at no time.
pub finish_cancel_access :
    (r : CancelRequest) (c : GatewayCall) (s : Subscription) (st : Accounts) {st' : Accounts}
    → get c.id st.subscriptions ≡ some s
    → is_canceled s.status ≡ false
    → finish_cancel r c true st ≡ (st', ok tt)
    → (s' : Subscription) × (get c.id st'.subscriptions ≡ some s')
      × (is_canceled s'.status ≡ true)
      × (s'.version ≡ s.version + 1)
      × ((o : SubscriptionOperation) × (get c.operation_id st'.operations ≡ some o)
          × (o.state ≡ succeeded))
      × KeepsPaid r.now s s'
unfolding finish_cancel
finish_cancel_access r c s st {st'} row alive h = elim (Result-cases (complete_cancel r c st)) [
  | inr (e, failed) ↦ absurd (ground (arith, failed, ap (λ x. x.1) h))
  | inl (done, went) ↦
      let is : done ≡ st' = ground (arith, went, ap (λ x. x.0) h) in
      let (_, wrote, (o, _, _, settled)) = complete_cancel_ok r c s st row alive went in
      (
        mark_canceled r.now (has_paid_access_remaining r.now s) s,
        ap (λ x. get c.id x.subscriptions) (sym is)
            ∙ ap (get c.id) wrote
            ∙ get-put_self c.id (mark_canceled r.now (has_paid_access_remaining r.now s) s)
                st.subscriptions,
        refl,
        refl,
        (
          mark_succeeded r.now o,
          ap (λ x. get c.operation_id x.operations) (sym is)
              ∙ ap (get c.operation_id) settled
              ∙ get-put_self c.operation_id (mark_succeeded r.now o) st.operations,
          refl,
        ),
        mark_canceled-KeepsPaid r.now s,
      )
]
