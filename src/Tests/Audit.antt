-- ===== src/Tests/Audit.antt =====
-- The theorems on the audit outbox at one sale's event.
use next_stock_oficial.Prelude.{
  ℕ, length, ◌≤◌, ◌+◌, ◌≡◌, refl, Bool, false, Option, none, some, List, [], ◌∷◌, arith,
}
use next_stock_oficial.Prelude.Result.{ok, err}
use next_stock_oficial.Prelude.Table.{get, put}
use next_stock_oficial.Prelude.Text.{Text}
use next_stock_oficial.Audit.Outbox.{
  AuditData, TransactionalAuditInput, OutboxEvent, Outbox, AuditOutcome, AuditOutboxStatus,
  processing, enqueue, audit_data, new_event, audit_text,
}
use next_stock_oficial.Audit.Outbox.Worker.{deliver_after_read, Claim, claim, deliver, fail, leased}
use next_stock_oficial.Audit.Outbox.Steps.{Step, enqueues, claims, delivers, steps}
use next_stock_oficial.Audit.Outbox.Faithful.{IsFaithful}
use next_stock_oficial.Audit.Outbox.Trail.{steps-IsFaithful}
use next_stock_oficial.Audit.Outbox.Settled.{Settled, steps-Settled}
use next_stock_oficial.Audit.Outbox.Progress.{deliver_stale, claim-fail}
use next_stock_oficial.Audit.Outbox.Repeats.{enqueue_twice}

abbrev as_is : Option Text → Option Text
as_is s = s

-- a hash that keeps the operation's id
abbrev by_operation : AuditData → Text
by_operation d = d.operation_id

abbrev sold : TransactionalAuditInput
sold = record {
  tenant_id = some 1;
  branch_id = some 2;
  actor_profile_id = some 5;
  actor_role = none;
  request_id = none;
  operation_id = b'o' ∷ b'p' ∷ [];
  event_type = b's' ∷ [];
  action = b'a' ∷ [];
  outcome = AuditOutcome.success;
  severity = none;
  context_kind = none;
  target_type = none;
  target_id = some (b' ' ∷ b'9' ∷ []);
  reason_code = none;
  ip = none;
  user_agent = none;
  metadata = none;
  before_state = none;
  after_state = none;
}

abbrev empty : Outbox
empty = record { events = []; trail = [] }

empty-IsFaithful : IsFaithful empty
unfolding get
empty-IsFaithful = record { keys = refl; at = λ id. refl }

abbrev nobody : ℕ → Bool
nobody id = false

abbrev ticket : Claim
ticket = record { id = 30; claim_token = 77 }

-- the event is enqueued, claimed, fails once, is claimed again, and is delivered
abbrev life : List Step
life =
    enqueues 1000 30 sold
    ∷ claims nobody (λ id. 77) 20 1000
    ∷ delivers (some (b'E' ∷ [])) ticket 1500
    ∷ claims nobody (λ id. 78) 20 2500
    ∷ delivers none ticket 2600
    ∷ delivers none (record ticket { claim_token = 78 }) 2700
    ∷ []

abbrev lived : Outbox
lived = steps as_is as_is by_operation 30000 8 life empty

trail_of_life : get 30 lived.trail ≡ some (audit_data as_is as_is 1 sold)
unfolding steps enqueue claim deliver get put audit_text
trail_of_life = refl

steps-IsFaithful_example : IsFaithful lived
steps-IsFaithful_example =
    steps-IsFaithful as_is as_is by_operation 30000 8 life empty empty-IsFaithful

abbrev done : OutboxEvent
done = record (new_event by_operation 1000 (audit_data as_is as_is 1 sold)) {
  status = AuditOutboxStatus.delivered;
  attempt_count = 2;
  claim_token = some 78;
  available_at = 2500;
  delivered_at = some 2700;
}

done-Settled : Settled 30 done lived
unfolding steps enqueue claim deliver get put audit_text
done-Settled = record { row = refl; status = refl }

steps-Settled_example : Settled 30 done (steps as_is as_is by_operation 30000 8 life lived)
steps-Settled_example =
    steps-Settled as_is as_is by_operation 30000 8 life 30 done lived steps-IsFaithful_example
      done-Settled

deliver_stale_example :
    (deliver 8 none ticket 2800 lived ≡ (false, lived))
    × (deliver_after_read ticket 2800 done lived ≡ err [])
deliver_stale_example = deliver_stale 8 none ticket 2800 done done lived done-Settled.row refl

-- the event under its first claim
abbrev first_steps : List Step
first_steps = enqueues 1000 30 sold ∷ claims nobody (λ id. 77) 20 1000 ∷ []

abbrev under_claim : Outbox
under_claim = steps as_is as_is by_operation 30000 8 first_steps empty

abbrev claimed : OutboxEvent
claimed = leased 30000 1000 77 (new_event by_operation 1000 (audit_data as_is as_is 1 sold))

under_claim-IsFaithful : IsFaithful under_claim
under_claim-IsFaithful =
    steps-IsFaithful as_is as_is by_operation 30000 8 first_steps empty empty-IsFaithful

claimed_row : get 30 under_claim.events ≡ some claimed
unfolding steps enqueue claim get put audit_text
claimed_row = refl

one_event : length under_claim.events ≤ 20
unfolding steps enqueue claim get put audit_text
one_event = omega arith

claim-fail_example :
    (e' : OutboxEvent) × (get 30
        (claim 30000 nobody (λ id. 78) 20 400000 (fail 8 ticket 1500 [] under_claim)).events
      ≡ some e')
    × (e'.status ≡ processing)
    × (e'.claim_token ≡ some 78)
    × (e'.attempt_count ≡ claimed.attempt_count + 1)
claim-fail_example =
    claim-fail 30000 8 ticket 1500 400000 20 [] nobody (λ id. 78) claimed under_claim
      under_claim-IsFaithful claimed_row refl (omega arith) (omega arith) one_event refl

abbrev enqueued_once : Outbox
enqueued_once = steps as_is as_is by_operation 30000 8 (enqueues 1000 30 sold ∷ []) empty

enqueued_eq : enqueue as_is as_is by_operation 1000 30 sold empty ≡ ok (30, enqueued_once)
unfolding steps enqueue get put
enqueued_eq = refl

enqueue_twice_example :
    enqueue as_is as_is by_operation 1005 31 sold enqueued_once ≡ ok (30, enqueued_once)
enqueue_twice_example =
    enqueue_twice as_is as_is by_operation 1000 30 1005 31 sold empty enqueued_eq
