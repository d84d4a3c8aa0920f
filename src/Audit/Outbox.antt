-- ===== src/Audit/Outbox.antt =====
-- src/audit/audit-outbox.service.ts: the rows of the outbox, and `enqueue`, which a business
-- transaction calls. The hash (SHA-256 of the data as JSON), the fingerprint of addresses and the
-- sanitizer of free values are arguments.
pub mod Worker
pub mod Candidates
pub mod Faithful
pub mod Deliveries
pub mod Trail
pub mod Steps
pub mod Settled
pub mod Progress
pub mod Repeats
use next_stock_oficial.Prelude.{
  ℕ, ◌+◌, Bool, true, false, ◌&&◌, ◌||◌, not, Option, none, some, List, [], ◌∷◌, map, find, is_some,
  or_default, ◌==◌, if◌then◌else◌,
}
use next_stock_oficial.Prelude.Result.{Result, ok, err, ◌>>=◌, ◌>>◌, throw_if}
use next_stock_oficial.Prelude.Table.{Table, get, put}
use next_stock_oficial.Prelude.Text.{Text, trim, is_empty, slice_to, text_eq}

pub data AuditOutcome : Type 0 where
  success denied failed : AuditOutcome

pub data AuditSeverity : Type 0 where
  low medium high critical : AuditSeverity

pub data AuditContextKind : Type 0 where
  normal dev_workspace dev_support system : AuditContextKind

-- TransactionalAuditInput
pub record TransactionalAuditInput : Type 0 where
  pub tenant_id : Option ℕ
  pub branch_id : Option ℕ
  pub actor_profile_id : Option ℕ
  pub actor_role : Option Text
  pub request_id : Option Text
  pub operation_id : Text
  pub event_type : Text
  pub action : Text
  pub outcome : AuditOutcome
  pub severity : Option AuditSeverity
  pub context_kind : Option AuditContextKind
  pub target_type : Option Text
  pub target_id : Option Text
  pub reason_code : Option Text
  pub ip : Option Text
  pub user_agent : Option Text
  pub metadata : Option Text
  pub before_state : Option Text
  pub after_state : Option Text

-- the data of an event, in the outbox and in the audit trail
pub record AuditData : Type 0 where
  pub tenant_id : ℕ
  pub branch_id : Option ℕ
  pub actor_profile_id : Option ℕ
  pub actor_role : Option Text
  pub request_id : Option Text
  pub operation_id : Text
  pub event_type : Text
  pub action : Text
  pub outcome : AuditOutcome
  pub severity : AuditSeverity
  pub context_kind : AuditContextKind
  pub target_type : Option Text
  pub target_id : Option Text
  pub reason_code : Option Text
  pub ip_hash : Option Text
  pub user_agent_hash : Option Text
  pub metadata : Option Text
  pub before_state : Option Text
  pub after_state : Option Text

pub data AuditOutboxStatus : Type 0 where
  pending processing delivered failed_retryable failed_final : AuditOutboxStatus

-- a row of `audit_outbox_events`
pub record OutboxEvent : Type 0 where
  pub content : AuditData
  pub payload_hash : Text
  pub status : AuditOutboxStatus
  pub attempt_count : ℕ
  pub claim_token : Option ℕ
  pub lease_expires_at : Option ℕ
  pub available_at : ℕ
  pub created_at : ℕ
  pub delivered_at : Option ℕ
  pub last_error : Option Text

-- the outbox, and the audit trail `securityAuditEvent` by the events' ids in the outbox
pub record Outbox : Type 0 where
  pub events : Table OutboxEvent
  pub trail : Table AuditData

pub data EnqueueError : Type 0 where
  scope_required identity_conflict duplicate_id : EnqueueError

abbrev blank_line : ℕ → ℕ
blank_line c = if c == 13 || c == 10 then 32 else c

abbrev none_if_empty : Text → Option Text
none_if_empty s = if is_empty s then none else some s

-- `text`: one line of at most `max` characters
unfoldable pub audit_text : ℕ → Option Text → Option Text
unfolding trim
audit_text max none = none
audit_text max (some s) = none_if_empty (slice_to max (trim (map blank_line s)))

-- 'unknown'
abbrev unknown : Text
unknown = b'u' ∷ b'n' ∷ b'k' ∷ b'n' ∷ b'o' ∷ b'w' ∷ b'n' ∷ []

-- the unique index on `(tenant_id, operation_id)`
abbrev pub has_identity : AuditData → ℕ × OutboxEvent → Bool
has_identity d e =
    e.1.content.tenant_id == d.tenant_id && text_eq e.1.content.operation_id d.operation_id

module _ (fingerprint sanitize : Option Text → Option Text) where
  -- `data`
  unfoldable pub audit_data : ℕ → TransactionalAuditInput → AuditData
  unfolding audit_text
  audit_data tenant_id input = record {
    tenant_id = tenant_id;
    branch_id = input.branch_id;
    actor_profile_id = input.actor_profile_id;
    actor_role = audit_text 40 input.actor_role;
    request_id = audit_text 128 input.request_id;
    operation_id = or_default (audit_text 200 (some input.operation_id)) [];
    event_type = or_default (audit_text 120 (some input.event_type)) unknown;
    action = or_default (audit_text 120 (some input.action)) unknown;
    outcome = input.outcome;
    severity = or_default input.severity AuditSeverity.low;
    context_kind = or_default input.context_kind AuditContextKind.normal;
    target_type = audit_text 80 input.target_type;
    target_id = audit_text 160 input.target_id;
    reason_code = audit_text 120 input.reason_code;
    ip_hash = fingerprint input.ip;
    user_agent_hash = fingerprint input.user_agent;
    metadata = sanitize input.metadata;
    before_state = sanitize input.before_state;
    after_state = sanitize input.after_state;
  }

module _ (hash : AuditData → Text) where
  -- the row that `enqueue` inserts, with the defaults of its columns
  abbrev pub new_event : ℕ → AuditData → OutboxEvent
  new_event now d = record {
    content = d;
    payload_hash = hash d;
    status = AuditOutboxStatus.pending;
    attempt_count = 0;
    claim_token = none;
    lease_expires_at = none;
    available_at = now;
    created_at = now;
    delivered_at = none;
    last_error = none;
  }

  -- INSERT ... ON CONFLICT DO NOTHING under the key `new_id`, the read of the row and the test of
  -- its hash; the reply is the row's id
  unfoldable pub insert_event : ℕ → ℕ → AuditData → Outbox → Result EnqueueError (ℕ × Outbox)
  insert_event now new_id d st = elim (find (has_identity d) st.events) [
    | some e ↦ if text_eq e.1.payload_hash (hash d) then ok (e.0, st) else err identity_conflict
    | none ↦
        if is_some (get new_id st.events)
        then err duplicate_id
        else ok (new_id, record st { events = put new_id (new_event now d) st.events })
  ]

module _ (fingerprint sanitize : Option Text → Option Text) (hash : AuditData → Text) where
  unfoldable pub enqueue :
      ℕ → ℕ → TransactionalAuditInput → Outbox → Result EnqueueError (ℕ × Outbox)
  unfolding insert_event audit_data
  enqueue now new_id input st = elim input.tenant_id [
    | none ↦ err scope_required
    | some tenant_id ↦
        if is_empty input.operation_id
        then err scope_required
        else insert_event hash now new_id (audit_data fingerprint sanitize tenant_id input) st
  ]
