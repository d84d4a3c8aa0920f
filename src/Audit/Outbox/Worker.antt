-- ===== src/Audit/Outbox/Worker.antt =====
-- The worker of src/audit/audit-outbox.service.ts: `claim` takes due events under a lease,
-- `deliver` writes one into the audit trail, and `fail` schedules the next attempt.
use next_stock_oficial.Prelude.{
  ℕ, ◌+◌, ◌-◌, ◌*◌, ◌^◌, min, Bool, true, false, ◌&&◌, ◌||◌, not, Option, none, some, [], select,
  eq_option, is_some, ltb, leb, ◌==◌, if◌then◌else◌,
}
use next_stock_oficial.Prelude.Result.{Result, ok, err, ◌>>=◌}
use next_stock_oficial.Prelude.Table.{Table, get, put, matching, map_rows}
use next_stock_oficial.Prelude.Table.Distinct.{is_among}
use next_stock_oficial.Prelude.Sort.{sort_by, first_rows}
use next_stock_oficial.Prelude.Text.{Text}
use next_stock_oficial.Audit.Outbox.{
  AuditOutboxStatus, pending, processing, delivered, failed_retryable, failed_final, OutboxEvent,
  Outbox,
}

abbrev pub is_waiting : AuditOutboxStatus → Bool
is_waiting pending = true
is_waiting failed_retryable = true
is_waiting _ = false

abbrev pub is_processing : AuditOutboxStatus → Bool
is_processing processing = true
is_processing _ = false

-- `lease_expires_at <= now`, which no row without a lease satisfies
abbrev pub lapsed : ℕ → Option ℕ → Bool
lapsed now none = false
lapsed now (some at) = leb at now

-- the test of the candidates
abbrev pub is_due : ℕ → OutboxEvent → Bool
is_due now e =
    is_waiting e.status && leb e.available_at now
    || is_processing e.status && lapsed now e.lease_expires_at

-- ORDER BY available_at, created_at, id
abbrev pub comes_before : ℕ × OutboxEvent → ℕ × OutboxEvent → Bool
comes_before a b =
    ltb a.1.available_at b.1.available_at
    || a.1.available_at == b.1.available_at
      && (ltb a.1.created_at b.1.created_at || a.1.created_at == b.1.created_at && leb a.0 b.0)

-- the candidates; `locked` tells the rows that other transactions hold (SKIP LOCKED)
unfoldable pub candidates : (ℕ → Bool) → ℕ → ℕ → Outbox → Table OutboxEvent
unfolding sort_by
candidates locked limit now st =
    first_rows limit
      (sort_by comes_before (select (λ e. is_due now e.1 && not (locked e.0)) st.events))

-- an event under the lease `token`
abbrev pub leased : ℕ → ℕ → ℕ → OutboxEvent → OutboxEvent
leased lease_ms now token e = record e {
  status = processing;
  claim_token = some token;
  lease_expires_at = some (now + lease_ms);
  attempt_count = e.attempt_count + 1;
  last_error = none;
}

-- the update of the rows that are chosen
abbrev pub lease_row : ℕ → (ℕ → ℕ) → ℕ → Table OutboxEvent → ℕ → OutboxEvent → OutboxEvent
lease_row lease_ms token now chosen id e =
    if is_among chosen id then leased lease_ms now (token id) e else e

-- `token` gives each row its new `gen_random_uuid()`; the reply is `candidates`, with the tokens.
unfoldable pub claim : ℕ → (ℕ → Bool) → (ℕ → ℕ) → ℕ → ℕ → Outbox → Outbox
unfolding candidates map_rows
claim lease_ms locked token limit now st =
    let chosen = candidates locked limit now st in
    record st { events = map_rows (lease_row lease_ms token now chosen) st.events }

-- the claim that a worker holds: the event's id and its token
pub record Claim : Type 0 where
  pub id : ℕ
  pub claim_token : ℕ

abbrev pub holds : Claim → OutboxEvent → Bool
holds c e = is_processing e.status && eq_option e.claim_token (some c.claim_token)

-- `leaseExpiresAt: { gt: now }`
abbrev pub running : ℕ → Option ℕ → Bool
running now none = false
running now (some at) = ltb now at

-- The transaction after it has read `event`: the upsert into the trail, which leaves a row that is
-- there, and the final update, which must still find the claim. Another worker may have claimed
-- the event in between.
unfoldable pub deliver_after_read : Claim → ℕ → OutboxEvent → Outbox → Result Text Outbox
deliver_after_read c now event st =
    elim (matching (λ e. holds c e && e.content.tenant_id == event.content.tenant_id)
      (get c.id st.events)) [
        -- AUDIT_OUTBOX_CLAIM_LOST; `fail` finds no row then, and stores no text
        | none ↦ err []
        | some e ↦ ok (record {
          events =
              put c.id
                (record e { status = delivered; delivered_at = some now; lease_expires_at = none })
                st.events;
          trail = if is_some (get c.id st.trail) then st.trail else put c.id event.content st.trail;
        })
      ]

-- The whole transaction; `fault` is an error of the database inside it.
unfoldable pub deliver_tx : Option Text → Claim → ℕ → Outbox → Result Text (Bool × Outbox)
unfolding deliver_after_read
deliver_tx fault c now st =
    elim (matching (λ e. holds c e && running now e.lease_expires_at) (get c.id st.events)) [
      | none ↦ ok (false, st)
      | some event ↦ elim fault [
        | some e ↦ err e
        | none ↦ do st' ← deliver_after_read c now event st; ok (true, st')
      ]
    ]

-- `Math.min(300_000, 1_000 * 2 ** Math.max(0, attemptCount - 1))`
unfoldable pub retry_delay : ℕ → ℕ
retry_delay attempt_count = min 300000 (1000 * 2 ^ (attempt_count - 1))

abbrev pub failed_status : ℕ → ℕ → AuditOutboxStatus
failed_status max_attempts attempt_count =
    if leb max_attempts attempt_count then failed_final else failed_retryable

-- the row after an attempt that failed
abbrev pub failed_row : ℕ → ℕ → Text → OutboxEvent → OutboxEvent
failed_row max_attempts now code e = record e {
  status = failed_status max_attempts e.attempt_count;
  available_at = now + retry_delay e.attempt_count;
  lease_expires_at = none;
  last_error = some code;
}

-- The row is read first, by the claim's token alone; the update asks for the status too.
unfoldable pub fail : ℕ → Claim → ℕ → Text → Outbox → Outbox
unfolding retry_delay
fail max_attempts c now code st = elim (matching (holds c) (get c.id st.events)) [
  | none ↦ st
  | some e ↦ record st { events = put c.id (failed_row max_attempts now code e) st.events }
]

-- the `catch` of `deliver`: a transaction that throws is rolled back, and `fail` runs
abbrev pub handled : ℕ → Claim → ℕ → Outbox → Result Text (Bool × Outbox) → Bool × Outbox
handled max_attempts c now st (ok r) = r
handled max_attempts c now st (err code) = (false, fail max_attempts c now code st)

-- the reply, and the state
unfoldable pub deliver : ℕ → Option Text → Claim → ℕ → Outbox → Bool × Outbox
unfolding deliver_tx fail
deliver max_attempts fault c now st = handled max_attempts c now st (deliver_tx fault c now st)
