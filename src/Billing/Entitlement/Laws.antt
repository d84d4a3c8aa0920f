-- ===== src/Billing/Entitlement/Laws.antt =====
-- What an entitlement promises.
use next_stock_oficial.Prelude.{
  ℕ, ◌≤◌, ◌≡◌, refl, sym, ◌∙◌, Bool, true, Option, none, some, List, ltb, if◌then◌else◌, arith,
  Bool-cases, Option-cases, inl, inr,
}
use next_stock_oficial.Billing.Entitlement.{
  SubscriptionStatus, trialing, active, canceled, Subscription, User, evaluate_subscription,
  evaluate, newest, for_tenant, for_user, first_of,
}

abbrev end_of : Option ℕ → ℕ
end_of none = 0
end_of (some date) = date

abbrev ends_in : SubscriptionStatus → Option ℕ → Option ℕ → Bool → Option ℕ
ends_in trialing trial period at_end = some (end_of trial)
ends_in active trial period at_end = period
ends_in canceled trial period at_end = some (if at_end then end_of period else 0)
ends_in _ trial period at_end = some 0

-- the time at which a subscription's access ends; `none` where it does not
abbrev pub access_ends : Subscription → Option ℕ
access_ends s = ends_in s.status s.trial_ends_at s.current_period_ends_at s.cancel_at_period_end

-- the time `now` is before the end
abbrev pub open_at : ℕ → Option ℕ → Bool
open_at now none = true
open_at now (some end) = ltb now end

-- A subscription lets its tenant in exactly until its access ends: a trial at the end of the
-- trial, an active one at the end of its period or never where it has none, a canceled one at the
-- end of its period where it was canceled for then. No other status lets anybody in.
pub evaluate-access_ends :
    (s : Subscription) (now : ℕ)
    → (evaluate_subscription s now).allowed ≡ open_at now (access_ends s)
unfolding evaluate_subscription
evaluate-access_ends s now = ground arith

open_expires :
    (now later : ℕ) (end : Option ℕ)
    → now ≤ later
    → open_at later end ≡ true
    → open_at now end ≡ true
open_expires now later none h o = refl
open_expires now later (some end) h o = ground (arith, h, o)

evaluate_expires :
    (enforced : Bool) (s : Option Subscription) (now later : ℕ)
    → now ≤ later
    → (evaluate enforced s later).allowed ≡ true
    → (evaluate enforced s now).allowed ≡ true
unfolding evaluate
evaluate_expires enforced none now later h allowed = ground (arith, allowed)
evaluate_expires enforced (some s) now later h allowed =
    let at_later = sym (evaluate-access_ends s later) ∙ allowed in
    evaluate-access_ends s now ∙ open_expires now later (access_ends s) h at_later

for_tenant_expires :
    (enforced : Bool) (subscriptions : List Subscription) (tenant_id now later : ℕ)
    → now ≤ later
    → (for_tenant enforced subscriptions tenant_id later).allowed ≡ true
    → (for_tenant enforced subscriptions tenant_id now).allowed ≡ true
unfolding for_tenant
for_tenant_expires enforced subscriptions tenant_id now later h allowed =
    evaluate_expires enforced (newest tenant_id subscriptions) now later h allowed

-- Access only expires: with the same subscriptions, a user who is let in at some time is let in at
-- every earlier time.
pub for_user_expires :
    (enforced : Bool) (subscriptions : List Subscription) (user : Option User) (now later : ℕ)
    → now ≤ later
    → (for_user enforced subscriptions user later).allowed ≡ true
    → (for_user enforced subscriptions user now).allowed ≡ true
unfolding for_user
for_user_expires enforced subscriptions none now later h allowed = cc
for_user_expires enforced subscriptions (some user) now later h allowed =
    elim (Bool-cases user.can_access_dev) [
      | inl dev ↦ ground (arith, dev)
      | inr plain ↦ elim (Option-cases (first_of user.tenant_id user.primary_tenant_id)) [
        | inl unknown ↦ ground (arith, plain, unknown, allowed)
        | inr (t, known) ↦
            let at_later : (for_tenant enforced subscriptions t later).allowed ≡ true =
              ground (arith, plain, known, allowed) in
            ground (
              arith,
              plain,
              known,
              for_tenant_expires enforced subscriptions t now later h at_later,
            )
      ]
    ]
