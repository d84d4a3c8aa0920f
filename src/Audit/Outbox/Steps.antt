-- ===== src/Audit/Outbox/Steps.antt =====
-- Business transactions and workers on one outbox: their steps, in any order.
use next_stock_oficial.Prelude.{ℕ, Bool, Option, List, [], ◌∷◌}
use next_stock_oficial.Prelude.Result.{Result, ok, err}
use next_stock_oficial.Prelude.Text.{Text}
use next_stock_oficial.Audit.Outbox.{
  AuditData, TransactionalAuditInput, Outbox, EnqueueError, enqueue,
}
use next_stock_oficial.Audit.Outbox.Worker.{Claim, claim, deliver}

pub data Step : Type 0 where
  enqueues : (now new_id : ℕ) → TransactionalAuditInput → Step
  claims : (locked : ℕ → Bool) → (token : ℕ → ℕ) → (limit now : ℕ) → Step
  delivers : (fault : Option Text) → Claim → (now : ℕ) → Step

abbrev pub enqueued : Outbox → Result EnqueueError (ℕ × Outbox) → Outbox
enqueued st (ok r) = r.1
enqueued st (err e) = st

-- AUDIT_OUTBOX_LEASE_MS and AUDIT_OUTBOX_MAX_ATTEMPTS
module _ (fingerprint sanitize : Option Text → Option Text) (hash : AuditData → Text)
    (lease_ms max_attempts : ℕ) where
  unfoldable pub step : Step → Outbox → Outbox
  step (enqueues now new_id input) st =
      enqueued st (enqueue fingerprint sanitize hash now new_id input st)
  step (claims locked token limit now) st = claim lease_ms locked token limit now st
  step (delivers fault c now) st = (deliver max_attempts fault c now st).1

  unfoldable pub steps : List Step → Outbox → Outbox
  unfolding step
  steps [] st = st
  steps (s ∷ ss) st = steps ss (step s st)
