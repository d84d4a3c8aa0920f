-- ===== src/Audit/Outbox/Trail.antt =====
-- The audit trail is what has been delivered.
use next_stock_oficial.Prelude.{
  ℕ, ◌≡◌, sym, subst, Option, List, [], ◌∷◌, arith, Bool-cases, Option-cases, inl, inr,
}
use next_stock_oficial.Prelude.Result.{ok, Result-cases}
use next_stock_oficial.Prelude.Text.{Text, is_empty}
use next_stock_oficial.Audit.Outbox.{
  AuditData, TransactionalAuditInput, Outbox, enqueue, audit_data,
}
use next_stock_oficial.Audit.Outbox.Steps.{Step, enqueues, claims, delivers, step, steps, enqueued}
use next_stock_oficial.Audit.Outbox.Faithful.{IsFaithful, insert_event-IsFaithful, claim-IsFaithful}
use next_stock_oficial.Audit.Outbox.Deliveries.{deliver-IsFaithful}

module _ (fingerprint sanitize : Option Text → Option Text) (hash : AuditData → Text)
    (lease_ms max_attempts : ℕ) where
  enqueue-IsFaithful :
      (now new_id : ℕ) (input : TransactionalAuditInput) (st : Outbox) {r : ℕ × Outbox}
      → IsFaithful st
      → enqueue fingerprint sanitize hash now new_id input st ≡ ok r
      → IsFaithful r.1
  unfolding enqueue
  enqueue-IsFaithful now new_id input st v h = elim (Option-cases input.tenant_id) [
    | inl nobody ↦ absurd (ground (arith, nobody, h))
    | inr (t, known) ↦ elim (Bool-cases (is_empty input.operation_id)) [
      | inl unnamed ↦ absurd (ground (arith, known, unnamed, h))
      | inr named ↦
          insert_event-IsFaithful hash now new_id (audit_data fingerprint sanitize t input) st v
            (rw (known, named) at h)
    ]
  ]

  pub step-IsFaithful :
      (s : Step) (st : Outbox)
      → IsFaithful st
      → IsFaithful (step fingerprint sanitize hash lease_ms max_attempts s st)
  unfolding step
  step-IsFaithful (claims locked token limit now) st v =
      claim-IsFaithful lease_ms locked token limit now st v
  step-IsFaithful (delivers fault c now) st v = deliver-IsFaithful max_attempts fault c now st v
  step-IsFaithful (enqueues now new_id input) st v =
      elim (Result-cases (enqueue fingerprint sanitize hash now new_id input st)) [
        | inr (e, failed) ↦ subst (λ x. IsFaithful (enqueued st x)) (sym failed) v
        | inl (r, done) ↦
            subst (λ x. IsFaithful (enqueued st x)) (sym done)
              (enqueue-IsFaithful now new_id input st v done)
      ]

  pub steps-IsFaithful :
      (ss : List Step) (st : Outbox)
      → IsFaithful st
      → IsFaithful (steps fingerprint sanitize hash lease_ms max_attempts ss st)
  unfolding steps
  steps-IsFaithful [] st v = v
  steps-IsFaithful (s ∷ ss) st v =
      steps-IsFaithful ss (step fingerprint sanitize hash lease_ms max_attempts s st)
        (step-IsFaithful s st v)
