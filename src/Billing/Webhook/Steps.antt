-- ===== src/Billing/Webhook/Steps.antt =====
-- Deliveries of the provider and workers on one inbox: their steps, in any order.
use next_stock_oficial.Prelude.{
  ℕ, ◌≡◌, sym, subst, Bool, false, ◌&&◌, Option, none, some, List, [], ◌∷◌, arith, inl, inr,
  eq_option, if◌then◌else◌,
}
use next_stock_oficial.Prelude.Result.{Result, ok, err, Result-cases}
use next_stock_oficial.Prelude.Table.{get}
use next_stock_oficial.Prelude.Text.{Text}
use next_stock_oficial.Billing.Webhook.{
  WebhookStatus, processed, ignored, failed_final, failed_retryable, WebhookEvent, Inbox, Claim,
  holds, finish, apply_payment, Work, resource_missing, subscription_event, other_event,
  payment_unknown, payment_event, handle_claimed, WebhookError, Notification, receive,
  is_processing,
}
use next_stock_oficial.Billing.Webhook.Once.{IsOnce, handle_claimed-IsOnce, receive-IsOnce}

pub data Step : Type 0 where
  receives : (now token new_id : ℕ) → Notification → Step
  works : (now : ℕ) → Claim → Work → Step

abbrev received_inbox : Inbox → Result WebhookError (Option Claim × Inbox) → Inbox
received_inbox st (ok r) = r.1
received_inbox st (err e) = st

module _ (enabled production : Bool) where
  unfoldable pub step : Step → Inbox → Inbox
  step (receives now token new_id n) st =
      received_inbox st (receive enabled production now token new_id n st)
  step (works now c w) st = handle_claimed now c w st

  unfoldable pub steps : List Step → Inbox → Inbox
  unfolding step
  steps [] st = st
  steps (s ∷ ss) st = steps ss (step s st)

  step-IsOnce : (s : Step) (st : Inbox) → IsOnce st → IsOnce (step s st)
  unfolding step
  step-IsOnce (works now c w) st v = handle_claimed-IsOnce now c w st v
  step-IsOnce (receives now token new_id n) st v =
      elim (Result-cases (receive enabled production now token new_id n st)) [
        | inr (e, failed) ↦ subst (λ x. IsOnce (received_inbox st x)) (sym failed) v
        | inl (r, done) ↦
            subst (λ x. IsOnce (received_inbox st x)) (sym done)
              (receive-IsOnce enabled production now token new_id n st v done)
      ]

  -- Over any deliveries of the provider and any work on claims, fresh or stale, in any order, the
  -- payment of a notification is processed at most once, and only where its event is settled.
  pub steps-IsOnce : (ss : List Step) (st : Inbox) → IsOnce st → IsOnce (steps ss st)
  unfolding steps
  steps-IsOnce [] st v = v
  steps-IsOnce (s ∷ ss) st v = steps-IsOnce ss (step s st) (step-IsOnce s st v)

finish_lost :
    (now : ℕ) (c : Claim) (status : WebhookStatus) (code : Text) (e : WebhookEvent) (st : Inbox)
    → get c.id st.events ≡ some e
    → holds c e ≡ false
    → finish now c status code st ≡ st
unfolding finish
finish_lost now c status code e st found lost = ground (arith, found, lost)

apply_payment_lost :
    (now : ℕ) (c : Claim) (done : Bool) (e : WebhookEvent) (st : Inbox)
    → get c.id st.events ≡ some e
    → holds c e ≡ false
    → (apply_payment now c done st).1 ≡ st
unfolding apply_payment
apply_payment_lost now c done e st found lost = ground (arith, found, lost)

not_held :
    (c : Claim) (e : WebhookEvent)
    → is_processing e.status && eq_option e.claim_token (some c.claim_token) ≡ false
    → holds c e ≡ false
not_held c e h = h

-- A worker whose event is under another token by now, or no longer being processed, changes
-- nothing, whatever the event is about and whatever the services answer.
pub handle_claimed_stale :
    (now : ℕ) (c : Claim) (w : Work) (e : WebhookEvent) (st : Inbox)
    → get c.id st.events ≡ some e
    → is_processing e.status && eq_option e.claim_token (some c.claim_token) ≡ false
    → handle_claimed now c w st ≡ st
unfolding handle_claimed
handle_claimed_stale now c resource_missing e st found lost =
    finish_lost now c failed_final [] e st found (not_held c e lost)
handle_claimed_stale now c (subscription_event none code) e st found lost =
    finish_lost now c failed_retryable code e st found (not_held c e lost)
handle_claimed_stale now c (subscription_event (some b) code) e st found lost =
    finish_lost now c (if b then processed else ignored) [] e st found (not_held c e lost)
handle_claimed_stale now c other_event e st found lost =
    finish_lost now c ignored [] e st found (not_held c e lost)
handle_claimed_stale now c (payment_unknown code) e st found lost =
    finish_lost now c failed_retryable code e st found (not_held c e lost)
handle_claimed_stale now c (payment_event none code) e st found lost =
    finish_lost now c failed_retryable code e st found (not_held c e lost)
handle_claimed_stale now c (payment_event (some done) code) e st found lost =
    apply_payment_lost now c done e st found (not_held c e lost)
