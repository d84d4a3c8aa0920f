-- ===== src/Audit/Outbox/Settled.antt =====
-- Events that are delivered or have failed for good stay as they are.
use next_stock_oficial.Prelude.{
  ℕ, ◌≡◌, ◌∙◌, sym, ap, subst, Bool, true, false, Option, some, List, [], ◌∷◌, find, is_some,
  if◌then◌else◌, arith, Bool-cases, Option-cases, inl, inr,
}
use next_stock_oficial.Prelude.Result.{ok, Result-cases}
use next_stock_oficial.Prelude.Table.{get, put, get-put, get-map_rows-some, matching-cases}
use next_stock_oficial.Prelude.Table.Distinct.{distinct, is_among}
use next_stock_oficial.Prelude.Text.{Text, is_empty}
use next_stock_oficial.Audit.Outbox.{
  AuditData, TransactionalAuditInput, OutboxEvent, Outbox, AuditOutboxStatus, delivered,
  failed_final, has_identity, insert_event, enqueue, new_event, audit_data,
}
use next_stock_oficial.Audit.Outbox.Worker.{
  Claim, claim, candidates, leased, lease_row, holds, is_processing, deliver_tx, fail, deliver,
  failed_row, handled,
}
use next_stock_oficial.Audit.Outbox.Candidates.{candidates_due}
use next_stock_oficial.Audit.Outbox.Steps.{Step, enqueues, claims, delivers, step, steps, enqueued}
use next_stock_oficial.Audit.Outbox.Faithful.{IsFaithful}
use next_stock_oficial.Audit.Outbox.Deliveries.{deliver_tx_ok, deliver_after_read_ok}
use next_stock_oficial.Audit.Outbox.Trail.{step-IsFaithful}

abbrev pub is_settled : AuditOutboxStatus → Bool
is_settled delivered = true
is_settled failed_final = true
is_settled _ = false

-- the row of `id` is `e`, and it is settled
pub record Settled (id : ℕ) (e : OutboxEvent) (st : Outbox) : Type 0 where
  pub row : get id st.events ≡ some e
  pub status : is_settled e.status ≡ true

-- the write of a row that is being processed
Settled-put :
    (id k : ℕ) (e old new : OutboxEvent) (st : Outbox)
    → Settled id e st
    → get k st.events ≡ some old
    → is_processing old.status ≡ true
    → get id (put k new st.events) ≡ some e
Settled-put id k e old new st s found p =
    ground (arith, get-put k id new st.events, s.row, s.status, found, p)

claim-Settled :
    (lease_ms : ℕ) (locked : ℕ → Bool) (token : ℕ → ℕ) (limit now id : ℕ) (e : OutboxEvent)
    (st : Outbox)
    → distinct st.events ≡ true
    → Settled id e st
    → Settled id e (claim lease_ms locked token limit now st)
unfolding claim
claim-Settled lease_ms locked token limit now id e st d s =
    let chosen = candidates locked limit now st in
    let row = lease_row lease_ms token now chosen in
    elim (Bool-cases (is_among chosen id)) [
      | inl taken ↦
          let due = candidates_due locked limit now id st d taken in
          absurd (ground (arith, due, s.row, s.status))
      | inr left ↦ record {
        row =
            get-map_rows-some row id e st.events s.row
            ∙ ap (λ b. some (if b then leased lease_ms now (token id) e else e)) left;
        status = s.status;
      }
    ]

fail-Settled :
    (max_attempts : ℕ) (c : Claim) (now id : ℕ) (code : Text) (e : OutboxEvent) (st : Outbox)
    → Settled id e st
    → Settled id e (fail max_attempts c now code st)
unfolding fail
fail-Settled max_attempts c now id code e st s =
    elim (matching-cases (holds c) (get c.id st.events)) [
      | inl lost ↦ subst (Settled id e) (ground (arith, lost)) s
      | inr (old, found, held, matched) ↦
          let row = failed_row max_attempts now code old in
          let written : Settled id e (record st { events = put c.id row st.events }) = record {
            row = Settled-put id c.id e old row st s found (ground (arith, held));
            status = s.status;
          } in
          subst (Settled id e) (ground (arith, matched)) written
    ]

deliver-Settled :
    (max_attempts : ℕ) (fault : Option Text) (c : Claim) (now id : ℕ) (e : OutboxEvent)
    (st : Outbox)
    → Settled id e st
    → Settled id e (deliver max_attempts fault c now st).1
unfolding deliver
deliver-Settled max_attempts fault c now id e st s =
    elim (Result-cases (deliver_tx fault c now st)) [
      | inr (code, failed) ↦
          subst (λ x. Settled id e (handled max_attempts c now st x).1) (sym failed)
            (fail-Settled max_attempts c now id code e st s)
      | inl (r, done) ↦
          subst (λ x. Settled id e (handled max_attempts c now st x).1) (sym done)
            (elim (deliver_tx_ok fault c now st done) [
              | inl same ↦ subst (λ x. Settled id e x.1) (sym same) s
              | inr (event, found, held, live, told, tx) ↦
                  let (old, row, h, events, trail) = deliver_after_read_ok c now event st tx in
                  record {
                    row =
                        ap (get id) events
                        ∙ Settled-put id c.id e old _ st s row (ground (arith, h));
                    status = s.status;
                  }
            ])
    ]

module _ (hash : AuditData → Text) where
  insert_event-Settled :
      (now new_id id : ℕ) (e : OutboxEvent) (d : AuditData) (st : Outbox) {r : ℕ × Outbox}
      → Settled id e st
      → insert_event hash now new_id d st ≡ ok r
      → Settled id e r.1
  unfolding insert_event
  insert_event-Settled now new_id id e d st s h =
      elim (Option-cases (find (has_identity d) st.events)) [
        | inr (o, found) ↦ subst (Settled id e) (ground (arith, found, h)) s
        | inl absent ↦ elim (Bool-cases (is_some (get new_id st.events))) [
          | inl taken ↦ absurd (ground (arith, absent, taken, h))
          | inr fresh ↦
              let new = new_event hash now d in
              let written : Settled id e (record st { events = put new_id new st.events }) =
                record {
                  row = ground (arith, fresh, s.row, get-put new_id id new st.events);
                  status = s.status;
                } in
              subst (Settled id e) (ground (arith, absent, fresh, h)) written
        ]
      ]

module _ (fingerprint sanitize : Option Text → Option Text) (hash : AuditData → Text)
    (lease_ms max_attempts : ℕ) where
  enqueue-Settled :
      (now new_id id : ℕ) (e : OutboxEvent) (input : TransactionalAuditInput) (st : Outbox)
      {r : ℕ × Outbox}
      → Settled id e st
      → enqueue fingerprint sanitize hash now new_id input st ≡ ok r
      → Settled id e r.1
  unfolding enqueue
  enqueue-Settled now new_id id e input st s h = elim (Option-cases input.tenant_id) [
    | inl nobody ↦ absurd (ground (arith, nobody, h))
    | inr (t, known) ↦ elim (Bool-cases (is_empty input.operation_id)) [
      | inl unnamed ↦ absurd (ground (arith, known, unnamed, h))
      | inr named ↦
          insert_event-Settled hash now new_id id e (audit_data fingerprint sanitize t input) st s
            (rw (known, named) at h)
    ]
  ]

  step-Settled :
      (s : Step) (id : ℕ) (e : OutboxEvent) (st : Outbox)
      → IsFaithful st
      → Settled id e st
      → Settled id e (step fingerprint sanitize hash lease_ms max_attempts s st)
  unfolding step
  step-Settled (claims locked token limit now) id e st v s =
      claim-Settled lease_ms locked token limit now id e st v.keys s
  step-Settled (delivers fault c now) id e st v s =
      deliver-Settled max_attempts fault c now id e st s
  step-Settled (enqueues now new_id input) id e st v s =
      elim (Result-cases (enqueue fingerprint sanitize hash now new_id input st)) [
        | inr (f, failed) ↦ subst (λ x. Settled id e (enqueued st x)) (sym failed) s
        | inl (r, done) ↦
            subst (λ x. Settled id e (enqueued st x)) (sym done)
              (enqueue-Settled now new_id id e input st s done)
      ]

  -- An event that is delivered or has failed for good keeps its row as it is, over any steps of
  -- transactions and workers from an outbox whose trail is faithful.
  pub steps-Settled :
      (ss : List Step) (id : ℕ) (e : OutboxEvent) (st : Outbox)
      → IsFaithful st
      → Settled id e st
      → Settled id e (steps fingerprint sanitize hash lease_ms max_attempts ss st)
  unfolding steps
  steps-Settled [] id e st v s = s
  steps-Settled (t ∷ ss) id e st v s =
      steps-Settled ss id e (step fingerprint sanitize hash lease_ms max_attempts t st)
        (step-IsFaithful fingerprint sanitize hash lease_ms max_attempts t st v)
        (step-Settled t id e st v s)
