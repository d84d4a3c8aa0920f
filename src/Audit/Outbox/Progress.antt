-- ===== src/Audit/Outbox/Progress.antt =====
-- A claim that was lost delivers nothing, and an event that fails is taken again.
use next_stock_oficial.Prelude.{
  ℕ, ◌+◌, ◌≤◌, ◌<◌, ◌≡◌, refl, ◌∙◌, ap, Bool, true, false, ◌&&◌, not, Option, some, [], ◌∷◌, length,
  eq_option, if◌then◌else◌, arith,
}
use next_stock_oficial.Prelude.Result.{err}
use next_stock_oficial.Prelude.Table.{Table, get, put, get-put_self, get-map_rows-some}
use next_stock_oficial.Prelude.Table.Distinct.{distinct-put, is_among, holds_at}
use next_stock_oficial.Prelude.Text.{Text}
use next_stock_oficial.Audit.Outbox.{OutboxEvent, Outbox, processing}
use next_stock_oficial.Audit.Outbox.Worker.{
  deliver_after_read, Claim, claim, candidates, leased, lease_row, holds, is_due, fail, deliver,
  failed_row, retry_delay,
}
use next_stock_oficial.Audit.Outbox.Candidates.{candidates_all, may_take}
use next_stock_oficial.Audit.Outbox.Faithful.{IsFaithful}

-- A worker whose event is under another token by now changes nothing: its delivery replies that
-- nothing was delivered, with a fault or without, and where it had read the event before, the
-- final update throws.
pub deliver_stale :
    (max_attempts : ℕ) (fault : Option Text) (c : Claim) (now : ℕ) (read e : OutboxEvent)
    (st : Outbox)
    → get c.id st.events ≡ some e
    → eq_option e.claim_token (some c.claim_token) ≡ false
    → (deliver max_attempts fault c now st ≡ (false, st))
      × (deliver_after_read c now read st ≡ err [])
unfolding deliver
deliver_stale max_attempts fault c now read e st found stale =
    (ground (arith, found, stale), ground (arith, found, stale))

-- the limit of the pause between two attempts
retry_delay_le : (n : ℕ) → retry_delay n ≤ 300000
unfolding retry_delay
retry_delay_le n = omega arith

length-put :
    (id : ℕ) (e old : OutboxEvent) (events : Table OutboxEvent)
    → get id events ≡ some old
    → length (put id e events) ≡ length events
unfolding get put
length-put id e old [] h = cc
length-put id e old ((k, a) ∷ events) h = ground (arith, h, length-put id e old events)

fail_held :
    (max_attempts : ℕ) (c : Claim) (now : ℕ) (code : Text) (e : OutboxEvent) (st : Outbox)
    → get c.id st.events ≡ some e
    → holds c e ≡ true
    → fail max_attempts c now code st
      ≡ record st { events = put c.id (failed_row max_attempts now code e) st.events }
unfolding fail
fail_held max_attempts c now code e st found held = ground (arith, found, held)

retry_due :
    (max_attempts now later : ℕ) (code : Text) (e : OutboxEvent) (taken : Bool)
    → e.attempt_count < max_attempts
    → now + 300000 ≤ later
    → taken ≡ false
    → is_due later (failed_row max_attempts now code e) && not taken ≡ true
retry_due max_attempts now later code e taken below wait free =
    ground (arith, below, wait, free, retry_delay_le e.attempt_count)

claim_taken :
    (lease_ms : ℕ) (locked : ℕ → Bool) (token : ℕ → ℕ) (limit now id : ℕ) (e : OutboxEvent)
    (st : Outbox)
    → get id st.events ≡ some e
    → is_among (candidates locked limit now st) id ≡ true
    → get id (claim lease_ms locked token limit now st).events
      ≡ some (leased lease_ms now (token id) e)
unfolding claim
claim_taken lease_ms locked token limit now id e st found taken =
    get-map_rows-some (lease_row lease_ms token now (candidates locked limit now st)) id e st.events
      found
    ∙ ap (λ b. some (if b then leased lease_ms now (token id) e else e)) taken

-- An event whose attempt fails below the limit of attempts is taken again: a claim at least five
-- minutes later, with a limit that covers the outbox, of a row that no one else holds, puts it
-- under its new token with one more attempt counted.
pub claim-fail :
    (lease_ms max_attempts : ℕ) (c : Claim) (now later limit : ℕ) (code : Text) (locked : ℕ → Bool)
    (token : ℕ → ℕ) (e : OutboxEvent) (st : Outbox)
    → IsFaithful st
    → get c.id st.events ≡ some e
    → holds c e ≡ true
    → e.attempt_count < max_attempts
    → now + 300000 ≤ later
    → length st.events ≤ limit
    → locked c.id ≡ false
    → (e' : OutboxEvent) × (get c.id
          (claim lease_ms locked token limit later (fail max_attempts c now code st)).events
        ≡ some e')
      × (e'.status ≡ processing)
      × (e'.claim_token ≡ some (token c.id))
      × (e'.attempt_count ≡ e.attempt_count + 1)
claim-fail lease_ms max_attempts c now later limit code locked token e st v found held below wait
      fits free =
    let row = failed_row max_attempts now code e in
    let st' = record st { events = put c.id row st.events } in
    let failed : fail max_attempts c now code st ≡ st' =
      fail_held max_attempts c now code e st found held in
    let found' = get-put_self c.id row st.events in
    let taken : is_among (candidates locked limit later st') c.id ≡ true =
      candidates_all locked limit later c.id st' (distinct-put c.id row st.events v.keys)
        (omega (arith, length-put c.id row e st.events found, fits))
      ∙ ap (holds_at (may_take locked later) c.id) found'
      ∙ retry_due max_attempts now later code e (locked c.id) below wait free in
    (
      leased lease_ms later (token c.id) row,
      ap (λ x. get c.id (claim lease_ms locked token limit later x).events) failed
          ∙ claim_taken lease_ms locked token limit later c.id row st' found' taken,
      refl,
      refl,
      refl,
    )
