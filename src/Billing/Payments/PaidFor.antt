-- ===== src/Billing/Payments/PaidFor.antt =====
-- What the columns of a subscription are after the news of a payment, and the access that they give:
-- the update of `applyWithCas` of src/billing/payments.service.ts.
use next_stock_oficial.Prelude.{
  ℕ, ◌+◌, ◌≡◌, ◌∙◌, ap, Bool, true, false, not, ◌&&◌, ◌||◌, Option, some, is_none, arith, inl, inr,
  ◌⊎◌, Bool-cases,
}
use next_stock_oficial.Billing.Entitlement.{
  Subscription, SubscriptionStatus, evaluate_subscription, is_active, after_now, is_canceled,
}
use next_stock_oficial.Billing.Payments.{PaymentReads, protects}
use next_stock_oficial.Billing.Payments.Current.{IsCurrent, protects-IsCurrent, IsCurrent-protects}
use next_stock_oficial.Billing.StateOrder.{PaymentStatus}
use next_stock_oficial.Billing.Payments.Rows.{
  PaymentNews, activates, is_reversal, subscription_state, paid_subscription,
}

-- a payment of the current period that has been taken back
abbrev pub revokes : PaymentNews → PaymentReads → Bool
revokes n reads = is_reversal n.result.normalized_status && not (protects n.result reads)

-- the plan stays, and the tenant is let in when it was before
pub record KeepsAccess (s s' : Subscription) : Type 0 where
  pub plan : s'.plan_id ≡ s.plan_id
  pub access : (t : ℕ) → (evaluate_subscription s' t).allowed ≡ (evaluate_subscription s t).allowed

-- What news that counts makes of the subscription of a payment, whose row was `s`.
pub record Pays (n : PaymentNews) (reads : PaymentReads) (ends : Option ℕ) (s s' : Subscription)
    : Type 0 where
  pub raised : s'.version ≡ s.version + 1
  pub paid :
      n.result.normalized_status ≡ PaymentStatus.approved
      → IsCurrent n.result reads
      → (reads.subscription.status ≡ SubscriptionStatus.canceled
          → reads.subscription.cancel_at_period_end ≡ false)
      → (s'.plan_id ≡ some reads.plan_id)
        × ((t : ℕ) → (evaluate_subscription s' t).allowed ≡ (is_none ends || after_now t ends))
  pub revoked :
      (n.result.normalized_status ≡ PaymentStatus.refunded)
        ⊎ (n.result.normalized_status ≡ PaymentStatus.chargeback)
      → IsCurrent n.result reads
      → (t : ℕ) → (evaluate_subscription s' t).allowed ≡ false
  pub not_current : (IsCurrent n.result reads → ⊥) → KeepsAccess s s'
  pub preserved :
      n.result.normalized_status ≡ PaymentStatus.approved
      → reads.subscription.status ≡ SubscriptionStatus.canceled
      → reads.subscription.cancel_at_period_end ≡ true
      → KeepsAccess s s'
  pub unpaid :
      (n.result.normalized_status ≡ PaymentStatus.pending)
        ⊎ ((n.result.normalized_status ≡ PaymentStatus.rejected)
            ⊎ (n.result.normalized_status ≡ PaymentStatus.canceled))
      → KeepsAccess s s'

-- the columns that the access depends on
record SameAccess (s s' : Subscription) : Type 0 where
  status : s'.status ≡ s.status
  trial : s'.trial_ends_at ≡ s.trial_ends_at
  period : s'.current_period_ends_at ≡ s.current_period_ends_at
  at_end : s'.cancel_at_period_end ≡ s.cancel_at_period_end

SameAccess-allowed :
    {s s' : Subscription}
    → SameAccess s s'
    → (t : ℕ) → (evaluate_subscription s' t).allowed ≡ (evaluate_subscription s t).allowed
unfolding evaluate_subscription
SameAccess-allowed same t = ground (arith, same.status, same.trial, same.period, same.at_end)

paid_subscription-SameAccess :
    (n : PaymentNews) (reads : PaymentReads) (ends : Option ℕ) (s : Subscription)
    → (activates n reads || revokes n reads) ≡ false
    → SameAccess s (paid_subscription n reads ends s)
unfolding paid_subscription subscription_state
paid_subscription-SameAccess n reads ends s neither = record {
  status = ground (arith, neither);
  trial = ground (arith, neither);
  period = ground (arith, neither);
  at_end = ground (arith, neither);
}

paid_subscription_active :
    (n : PaymentNews) (reads : PaymentReads) (ends : Option ℕ) (s : Subscription)
    → activates n reads ≡ true
    → (is_active (paid_subscription n reads ends s).status ≡ true)
      × ((paid_subscription n reads ends s).plan_id ≡ some reads.plan_id)
      × ((paid_subscription n reads ends s).current_period_ends_at ≡ ends)
unfolding paid_subscription subscription_state
paid_subscription_active n reads ends s active =
    (ground (arith, active), ground (arith, active), ground (arith, active))

active_allowed :
    (s : Subscription) (t : ℕ)
    → is_active s.status ≡ true
    → (evaluate_subscription s t).allowed
      ≡ (is_none s.current_period_ends_at || after_now t s.current_period_ends_at)
unfolding evaluate_subscription
active_allowed s t active = ground (arith, active)

paid_subscription_revoked :
    (n : PaymentNews) (reads : PaymentReads) (ends : Option ℕ) (s : Subscription)
    → revokes n reads ≡ true
    → (paid_subscription n reads ends s).status ≡ SubscriptionStatus.suspended
unfolding paid_subscription subscription_state
paid_subscription_revoked n reads ends s reversed = ground (arith, reversed)

suspended_allowed :
    (s : Subscription) (t : ℕ)
    → s.status ≡ SubscriptionStatus.suspended
    → (evaluate_subscription s t).allowed ≡ false
unfolding evaluate_subscription
suspended_allowed s t is = ground (arith, is)

module _ (n : PaymentNews) (reads : PaymentReads) (ends : Option ℕ) (s : Subscription) where
  paid_subscription-KeepsAccess :
      (activates n reads || revokes n reads) ≡ false
      → KeepsAccess s (paid_subscription n reads ends s)
  unfolding paid_subscription subscription_state
  paid_subscription-KeepsAccess neither = record {
    plan = ground (arith, neither);
    access = SameAccess-allowed (paid_subscription-SameAccess n reads ends s neither);
  }

  activates-true :
      n.result.normalized_status ≡ PaymentStatus.approved
      → IsCurrent n.result reads
      → (reads.subscription.status ≡ SubscriptionStatus.canceled
          → reads.subscription.cancel_at_period_end ≡ false)
      → activates n reads ≡ true
  activates-true good is going =
      let current = IsCurrent-protects n.result reads is in
      elim (Bool-cases (is_canceled reads.subscription.status)) [
        | inr running ↦ ground (arith, good, current, running)
        | inl over ↦ ground (arith, good, current, over, going (ground (arith, over)))
      ]

  protected : (IsCurrent n.result reads → ⊥) → protects n.result reads ≡ true
  protected former = elim (Bool-cases (protects n.result reads)) [
    | inl is ↦ is
    | inr not_so ↦ absurd (former (protects-IsCurrent n.result reads not_so))
  ]

  pub paid_subscription-Pays : Pays n reads ends s (paid_subscription n reads ends s)
  unfolding paid_subscription subscription_state
  paid_subscription-Pays = record {
    raised = ground arith;
    paid = λ good is going.
        let (active, plan, period) =
          paid_subscription_active n reads ends s (activates-true good is going) in
        (
          plan,
          λ t.
              active_allowed (paid_subscription n reads ends s) t active
              ∙ ap (λ e. is_none e || after_now t e) period,
        );
    revoked = λ reversed is t. suspended_allowed (paid_subscription n reads ends s) t (
        paid_subscription_revoked n reads ends s
          (ground (arith, reversed, IsCurrent-protects n.result reads is)));
    not_current = λ former. paid_subscription-KeepsAccess (ground (arith, protected former));
    preserved =
        λ good over at_end. paid_subscription-KeepsAccess (ground (arith, good, over, at_end));
    unpaid = λ other. paid_subscription-KeepsAccess (ground (arith, other));
  }
