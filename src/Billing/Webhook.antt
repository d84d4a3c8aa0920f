-- ===== src/Billing/Webhook.antt =====
-- src/billing/webhook.service.ts: the inbox of the payment provider's notifications. The identity
-- key and the hash of a payload, which are SHA-256 of its text, are arguments; so is what the
-- provider, the subscriptions and the payments answer.
pub mod Once
pub mod Steps
use next_stock_oficial.Prelude.{
  ℕ, ◌+◌, Bool, true, false, ◌&&◌, ◌||◌, not, Option, none, some, List, [], ◌∷◌, ◌++◌, find,
  is_some, eq_option, leb, ◌==◌, if◌then◌else◌,
}
use next_stock_oficial.Prelude.Result.{Result, ok, err, ◌>>=◌}
use next_stock_oficial.Prelude.Table.{Table, get, put, matching}
use next_stock_oficial.Prelude.Text.{Text, trim, text_eq, starts_with}

-- GatewayWebhookProcessingStatus
pub data WebhookStatus : Type 0 where
  received processing processed ignored failed failed_retryable failed_final : WebhookStatus

-- a row of `gatewayWebhookEvent`
pub record WebhookEvent : Type 0 where
  pub identity_key : Text
  pub payload_hash : Text
  pub status : WebhookStatus
  pub claim_token : Option ℕ
  pub lease_expires_at : Option ℕ
  pub attempt_count : ℕ
  pub processed_at : Option ℕ
  pub failure_code : Option Text

-- the inbox, and the events whose verified payment `PaymentsService` has processed, by commit
pub record Inbox : Type 0 where
  pub events : Table WebhookEvent
  pub applied : List ℕ

abbrev pub is_processing : WebhookStatus → Bool
is_processing processing = true
is_processing _ = false

abbrev pub is_waiting : WebhookStatus → Bool
is_waiting received = true
is_waiting failed = true
is_waiting failed_retryable = true
is_waiting _ = false

-- `leaseExpiresAt: { lte: now }`
abbrev pub lapsed : ℕ → Option ℕ → Bool
lapsed now none = false
lapsed now (some at) = leb at now

abbrev pub is_claimable : ℕ → WebhookEvent → Bool
is_claimable now e = is_waiting e.status || is_processing e.status && lapsed now e.lease_expires_at

abbrev pub claimed_row : ℕ → ℕ → WebhookEvent → WebhookEvent
claimed_row now token e = record e {
  status = processing;
  claim_token = some token;
  lease_expires_at = some (now + 60000);
  attempt_count = e.attempt_count + 1;
  failure_code = none;
}

pub record Claim : Type 0 where
  pub id : ℕ
  pub claim_token : ℕ

-- `claim`, with the token that `randomUUID` gives
unfoldable pub claim : ℕ → ℕ → ℕ → Inbox → Option Claim × Inbox
claim now token id st = elim (matching (is_claimable now) (get id st.events)) [
  | none ↦ (none, st)
  | some e ↦ (
    some (record { id = id; claim_token = token }),
    record st { events = put id (claimed_row now token e) st.events },
  )
]

abbrev pub holds : Claim → WebhookEvent → Bool
holds c e = is_processing e.status && eq_option e.claim_token (some c.claim_token)

-- the states in which `finish` sets the time
abbrev pub is_settled : WebhookStatus → Bool
is_settled processed = true
is_settled ignored = true
is_settled failed_final = true
is_settled _ = false

abbrev pub finished_row : ℕ → WebhookStatus → Text → WebhookEvent → WebhookEvent
finished_row now status code e = record e {
  status = status;
  processed_at = if is_settled status then some now else none;
  lease_expires_at = none;
  failure_code = some code;
}

unfoldable pub finish : ℕ → Claim → WebhookStatus → Text → Inbox → Inbox
finish now c status code st = elim (matching (holds c) (get c.id st.events)) [
  | none ↦ st
  | some e ↦ record st { events = put c.id (finished_row now status code e) st.events }
]

abbrev pub applied_row : ℕ → Bool → WebhookEvent → WebhookEvent
applied_row now done e = record e {
  status = if done then processed else ignored;
  processed_at = some now;
  lease_expires_at = none;
  failure_code = none;
}

-- The transaction that processes a verified payment: it asks for the claim, and its last update
-- asks again. The reply is `none` for a stale claim.
unfoldable pub apply_payment : ℕ → Claim → Bool → Inbox → Option Bool × Inbox
apply_payment now c done st = elim (matching (holds c) (get c.id st.events)) [
  | none ↦ (none, st)
  | some e ↦ (
    some done,
    record {
      events = put c.id (applied_row now done e) st.events;
      applied = st.applied ++ (c.id ∷ []);
    },
  )
]

-- What a claimed event is about, with the answers of the services that are asked: `none` is an
-- exception, with its code beside it.
pub data Work : Type 0 where
  resource_missing : Work
  subscription_event : (confirmed : Option Bool) → (code : Text) → Work
  other_event : Work
  payment_unknown : (code : Text) → Work
  payment_event : (done : Option Bool) → (code : Text) → Work

-- `handleMercadoPago` from its claim on; the codes of the fixed outcomes are left out
unfoldable pub handle_claimed : ℕ → Claim → Work → Inbox → Inbox
unfolding finish apply_payment
handle_claimed now c resource_missing st = finish now c failed_final [] st
handle_claimed now c (subscription_event none code) st = finish now c failed_retryable code st
handle_claimed now c (subscription_event (some confirmed) code) st =
    finish now c (if confirmed then processed else ignored) [] st
handle_claimed now c other_event st = finish now c ignored [] st
handle_claimed now c (payment_unknown code) st = finish now c failed_retryable code st
handle_claimed now c (payment_event none code) st = finish now c failed_retryable code st
handle_claimed now c (payment_event (some done) code) st = (apply_payment now c done st).1

pub data WebhookError : Type 0 where
  unauthorized identity_conflict row_missing : WebhookError

-- what a delivery of the provider carries, as far as it is read
pub record Notification : Type 0 where
  pub signature_valid : Bool
  pub live_mode_off : Bool
  pub identity_key : Text
  pub payload_hash : Text

abbrev pub has_identity : Text → ℕ × WebhookEvent → Bool
has_identity key e = text_eq e.1.identity_key key

abbrev pub new_event : Notification → WebhookEvent
new_event n = record {
  identity_key = n.identity_key;
  payload_hash = n.payload_hash;
  status = received;
  claim_token = none;
  lease_expires_at = none;
  attempt_count = 0;
  processed_at = none;
  failure_code = none;
}

-- `persist`: a row under a new key, or the row that has the identity already
unfoldable pub persist : ℕ → Notification → Inbox → Result WebhookError (ℕ × WebhookEvent × Inbox)
persist new_id n st = elim (find (has_identity n.identity_key) st.events) [
  | some e ↦ ok (e.0, e.1, st)
  | none ↦
      if is_some (get new_id st.events)
      then err row_missing
      else ok (new_id, new_event n, record st { events = put new_id (new_event n) st.events })
]

-- `handleMercadoPago` up to its claim; `enabled` is BILLING_WEBHOOK_ENABLED, `production` the mode.
-- The reply is `none` for a simulation and for a duplicate.
unfoldable pub receive :
    Bool → Bool → ℕ → ℕ → ℕ → Notification → Inbox → Result WebhookError (Option Claim × Inbox)
unfolding persist claim
receive enabled production now token new_id n st =
    if not n.signature_valid || not enabled
    then err unauthorized
    else if production && n.live_mode_off
    then ok (none, st)
    else do
      r ← persist new_id n st
      (if text_eq r.1.payload_hash n.payload_hash
          then ok (claim now token r.0 r.2)
          else err identity_conflict)
