-- ===== src/Tests/Billing.antt =====
-- The theorems on billing at concrete payments and subscriptions.
use mathlib.Core.List.{Permᴰ}
use next_stock_oficial.Prelude.{List, ℕ, ◌≡◌, refl, none, some, [], ◌∷◌, true, false, Option, arith}
use next_stock_oficial.Billing.StateOrder.{PaymentState, pending, approved, refunded, process_all}
use next_stock_oficial.Billing.StateOrder.Laws.{process_all-Perm}
use next_stock_oficial.Billing.Entitlement.{
  Subscription, SubscriptionStatus, User, evaluate_subscription, for_user,
}
use next_stock_oficial.Billing.Entitlement.Laws.{
  access_ends, open_at, evaluate-access_ends, for_user_expires,
}
use next_stock_oficial.Prelude.Table.{get, put}
use next_stock_oficial.Billing.Webhook.{
  Notification, Inbox, Claim, payment_event, receive, handle_claimed, WebhookEvent, claimed_row,
  new_event,
}
use next_stock_oficial.Billing.Webhook.Once.{IsOnce}
use next_stock_oficial.Billing.Webhook.Steps.{Step, receives, works, steps, steps-IsOnce}

abbrev approved_at : Option ℕ → PaymentState
approved_at t = record { status = approved; occurred_at = t }

abbrev pending_at : Option ℕ → PaymentState
pending_at t = record { status = pending; occurred_at = t }

abbrev refunded_at : Option ℕ → PaymentState
refunded_at t = record { status = refunded; occurred_at = t }

process_all-Perm_example :
    process_all (refunded_at none ∷ approved_at none ∷ []) none
    ≡ process_all (approved_at none ∷ refunded_at none ∷ []) none
process_all-Perm_example =
    process_all-Perm (refunded_at none ∷ approved_at none ∷ [])
      (approved_at none ∷ refunded_at none ∷ []) none (Permᴰ.swap refl refl) (refl, (refl, tt))

-- With times, the order of the news matters: an approval of time 10 that comes after the news
-- `pending` of time 20 is dropped, and before it, it stays.
approval_first :
    process_all (approved_at (some 10) ∷ pending_at (some 20) ∷ []) none
    ≡ some (approved_at (some 10))
unfolding process_all
approval_first = refl

approval_last :
    process_all (pending_at (some 20) ∷ approved_at (some 10) ∷ []) none
    ≡ some (pending_at (some 20))
unfolding process_all
approval_last = refl

abbrev leaving : Subscription
leaving = record {
  tenant_id = 1;
  created_at = 50;
  status = SubscriptionStatus.canceled;
  plan_id = some 3;
  trial_ends_at = none;
  current_period_started_at = none;
  current_period_ends_at = some 900;
  grace_ends_at = none;
  last_payment_at = none;
  last_payment_state = none;
  last_provider_event_at = none;
  gateway_provider = some 0;
  gateway_subscription_id = some 12;
  cancel_at_period_end = true;
  canceled_at = some 60;
  version = 4;
}

abbrev owner : User
owner = record { can_access_dev = false; tenant_id = none; primary_tenant_id = some 1 }

evaluate-access_ends_example :
    (evaluate_subscription leaving 899).allowed ≡ open_at 899 (access_ends leaving)
evaluate-access_ends_example = evaluate-access_ends leaving 899

for_user_expires_example : (for_user true (leaving ∷ []) (some owner) 100).allowed ≡ true
unfolding for_user
for_user_expires_example =
    for_user_expires true (leaving ∷ []) (some owner) 100 899 (omega arith) refl

abbrev note : Notification
note = record {
  signature_valid = true;
  live_mode_off = false;
  identity_key = b'i' ∷ [];
  payload_hash = b'h' ∷ [];
}

abbrev no_events : Inbox
no_events = record { events = []; applied = [] }

no_events-IsOnce : IsOnce no_events
no_events-IsOnce = record { at = λ id. omega arith }

abbrev first_claim : Claim
first_claim = record { id = 40; claim_token = 7 }

-- delivered, left by its worker, delivered again after the lease, and worked on by both
abbrev deliveries : List Step
deliveries =
    receives 1000 7 40 note
    ∷ receives 70000 8 41 note
    ∷ works 70001 first_claim (payment_event (some true) [])
    ∷ works 70002 (record first_claim { claim_token = 8 }) (payment_event (some true) [])
    ∷ []

steps-IsOnce_example : IsOnce (steps true true deliveries no_events)
steps-IsOnce_example = steps-IsOnce true true deliveries no_events no_events-IsOnce

applied_once : (steps true true deliveries no_events).applied ≡ 40 ∷ []
unfolding steps receive handle_claimed get put
applied_once = refl

abbrev taken_over : Inbox
taken_over = steps true true (receives 1000 7 40 note ∷ receives 70000 8 41 note ∷ []) no_events

abbrev second_row : WebhookEvent
second_row = claimed_row 70000 8 (claimed_row 1000 7 (new_event note))

second_row_found : get 40 taken_over.events ≡ some second_row
unfolding steps receive get put
second_row_found = refl
