-- ===== src/Audit/Outbox/Deliveries.antt =====
-- A delivery keeps the trail faithful, and so does an attempt that fails.
use next_stock_oficial.Prelude.{
  ℕ, ◌≡◌, ◌∙◌, sym, ap, subst, Bool, true, false, ◌&&◌, Option, none, some, is_some, ◌==◌,
  if◌then◌else◌, arith, Bool-cases, Option-cases, inl, inr, ◌⊎◌,
}
use next_stock_oficial.Prelude.Result.{ok, Result-cases, >>=-eq-ok}
use next_stock_oficial.Prelude.Table.{get, put, get-put, matching-cases}
use next_stock_oficial.Prelude.Table.Distinct.{distinct, distinct-put}
use next_stock_oficial.Prelude.Text.{Text}
use next_stock_oficial.Audit.Outbox.{OutboxEvent, Outbox, delivered}
use next_stock_oficial.Audit.Outbox.Worker.{
  Claim, holds, deliver_after_read, deliver_tx, fail, deliver, running, failed_row, handled,
}
use next_stock_oficial.Audit.Outbox.Faithful.{is_delivered, IsFaithful, IsFaithful-put}

-- The row that a claim still holds, where the transaction goes through.
pub deliver_after_read_ok :
    (c : Claim) (now : ℕ) (event : OutboxEvent) (st : Outbox) {st' : Outbox}
    → deliver_after_read c now event st ≡ ok st'
    → (e : OutboxEvent) × (get c.id st.events ≡ some e)
      × (holds c e ≡ true)
      × (st'.events
          ≡ put c.id
              (record e { status = delivered; delivered_at = some now; lease_expires_at = none })
              st.events)
      × (st'.trail
          ≡ (if is_some (get c.id st.trail) then st.trail else put c.id event.content st.trail))
unfolding deliver_after_read
deliver_after_read_ok c now event st h = elim (Option-cases (get c.id st.events)) [
  | inl absent ↦ absurd (ground (arith, absent, h))
  | inr (e, found) ↦
      elim (Bool-cases (holds c e && e.content.tenant_id == event.content.tenant_id)) [
        | inr lost ↦ absurd (ground (arith, found, lost, h))
        | inl held ↦ (
          e,
          found,
          ground (arith, held),
          ground (arith, found, held, h),
          ground (arith, found, held, h),
        )
      ]
]

deliver_after_read-IsFaithful :
    (c : Claim) (now : ℕ) (event : OutboxEvent) (st : Outbox) {st' : Outbox}
    → IsFaithful st
    → get c.id st.events ≡ some event
    → deliver_after_read c now event st ≡ ok st'
    → IsFaithful st'
deliver_after_read-IsFaithful c now event st {st'} v read h =
    let (e, found, held, events, trail) = deliver_after_read_ok c now event st h in
    let is : e ≡ event = cc (found, read) in
    let done = record e { status = delivered; delivered_at = some now; lease_expires_at = none } in
    let empty : get c.id st.trail ≡ none = ground (arith, v.at c.id, found, held) in
    record {
      keys = ap distinct events ∙ distinct-put c.id done st.events v.keys;
      at = λ j. ground (
        arith,
        events,
        trail,
        empty,
        is,
        v.at j,
        get-put c.id j done st.events,
        get-put c.id j event.content st.trail,
      );
    }

failed_row_open :
    (max_attempts now : ℕ) (code : Text) (e : OutboxEvent)
    → is_delivered (failed_row max_attempts now code e).status ≡ false
failed_row_open max_attempts now code e = ground arith

fail-IsFaithful :
    (max_attempts : ℕ) (c : Claim) (now : ℕ) (code : Text) (st : Outbox)
    → IsFaithful st
    → IsFaithful (fail max_attempts c now code st)
unfolding fail
fail-IsFaithful max_attempts c now code st v =
    elim (matching-cases (holds c) (get c.id st.events)) [
      | inl lost ↦ subst IsFaithful (ground (arith, lost)) v
      | inr (e, found, held, matched) ↦ subst IsFaithful (ground (arith, matched)) (
          IsFaithful-put c.id (failed_row max_attempts now code e) st v
            (ground (arith, found, held)) (failed_row_open max_attempts now code e))
    ]

-- The parts of a delivery that goes through its transaction.
pub deliver_tx_ok :
    (fault : Option Text) (c : Claim) (now : ℕ) (st : Outbox) {r : Bool × Outbox}
    → deliver_tx fault c now st ≡ ok r
    → (r ≡ (false, st))
      ⊎ ((event : OutboxEvent) × (get c.id st.events ≡ some event)
          × (holds c event ≡ true)
          × (running now event.lease_expires_at ≡ true)
          × (r.0 ≡ true)
          × (deliver_after_read c now event st ≡ ok r.1))
unfolding deliver_tx
deliver_tx_ok fault c now st h =
    elim (matching-cases (λ e. holds c e && running now e.lease_expires_at) (get c.id st.events)) [
      | inl lost ↦ inl (ground (arith, lost, h))
      | inr (event, found, held, matched) ↦ elim (Option-cases fault) [
        | inr (e, broken) ↦ absurd (ground (arith, matched, broken, h))
        | inl fine ↦
            let (st', tx, e) =
              >>=-eq-ok (deliver_after_read c now event st) _
                (rw (matched, fine, deliver_tx) at h) in
            inr (
              event,
              found,
              ground (arith, held),
              ground (arith, held),
              ground (arith, e),
              ground (arith, tx, e),
            )
      ]
    ]

deliver_tx-IsFaithful :
    (fault : Option Text) (c : Claim) (now : ℕ) (st : Outbox) {r : Bool × Outbox}
    → IsFaithful st
    → deliver_tx fault c now st ≡ ok r
    → IsFaithful r.1
deliver_tx-IsFaithful fault c now st v h = elim (deliver_tx_ok fault c now st h) [
  | inl same ↦ subst (λ r. IsFaithful r.1) (sym same) v
  | inr (event, found, held, live, told, tx) ↦
      deliver_after_read-IsFaithful c now event st v found tx
]

pub deliver-IsFaithful :
    (max_attempts : ℕ) (fault : Option Text) (c : Claim) (now : ℕ) (st : Outbox)
    → IsFaithful st
    → IsFaithful (deliver max_attempts fault c now st).1
unfolding deliver
deliver-IsFaithful max_attempts fault c now st v = elim (Result-cases (deliver_tx fault c now st)) [
  | inr (e, failed) ↦
      subst (λ x. IsFaithful (handled max_attempts c now st x).1) (sym failed)
        (fail-IsFaithful max_attempts c now e st v)
  | inl (r, done) ↦
      subst (λ x. IsFaithful (handled max_attempts c now st x).1) (sym done)
        (deliver_tx-IsFaithful fault c now st v done)
]
