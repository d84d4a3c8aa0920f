-- ===== src/Audit/Outbox/Faithful.antt =====
-- What it means that the audit trail is what has been delivered; claims and inserts keep it so.
use next_stock_oficial.Prelude.{
  ℕ, ◌≡◌, refl, ◌∙◌, sym, ap, subst, Bool, true, false, Option, none, some, find, is_some,
  if◌then◌else◌, arith, Bool-cases, Option-cases, inl, inr,
}
use next_stock_oficial.Prelude.Result.{ok}
use next_stock_oficial.Prelude.Table.{get, put, get-put, get-map_rows-none, get-map_rows-some}
use next_stock_oficial.Prelude.Table.Distinct.{distinct, distinct-put, distinct-map_rows, is_among}
use next_stock_oficial.Prelude.Text.{Text}
use next_stock_oficial.Audit.Outbox.{
  AuditData, OutboxEvent, Outbox, AuditOutboxStatus, delivered, has_identity, insert_event,
  new_event,
}
use next_stock_oficial.Audit.Outbox.Worker.{claim, candidates, lease_row, is_due}
use next_stock_oficial.Audit.Outbox.Candidates.{candidates_due}

abbrev pub is_delivered : AuditOutboxStatus → Bool
is_delivered delivered = true
is_delivered _ = false

-- what the trail should hold for a row of the outbox
abbrev pub recorded : Option OutboxEvent → Option AuditData
recorded none = none
recorded (some e) = if is_delivered e.status then some e.content else none

-- The trail holds the delivered events with their content, and nothing else.
pub record IsFaithful (st : Outbox) : Type 0 where
  pub keys : distinct st.events ≡ true
  pub at : (id : ℕ) → get id st.trail ≡ recorded (get id st.events)

-- a row that is written while its event is not delivered before or after
pub IsFaithful-put :
    (id : ℕ) (e : OutboxEvent) (st : Outbox)
    → IsFaithful st
    → recorded (get id st.events) ≡ none
    → is_delivered e.status ≡ false
    → IsFaithful (record st { events = put id e st.events })
IsFaithful-put id e st v before after = record {
  keys = distinct-put id e st.events v.keys;
  at = λ j. ground (arith, get-put id j e st.events, v.at j, before, after);
}

module _ (hash : AuditData → Text) where
  pub insert_event-IsFaithful :
      (now new_id : ℕ) (d : AuditData) (st : Outbox) {r : ℕ × Outbox}
      → IsFaithful st
      → insert_event hash now new_id d st ≡ ok r
      → IsFaithful r.1
  unfolding insert_event
  insert_event-IsFaithful now new_id d st {r} v h =
      elim (Option-cases (find (has_identity d) st.events)) [
        | inr (e, found) ↦ subst IsFaithful (ground (arith, found, h)) v
        | inl absent ↦ elim (Bool-cases (is_some (get new_id st.events))) [
          | inl taken ↦ absurd (ground (arith, absent, taken, h))
          | inr fresh ↦
              subst IsFaithful (ground (arith, absent, fresh, h))
                (IsFaithful-put new_id (new_event hash now d) st v (ground (arith, fresh)) refl)
        ]
      ]

lease_row-recorded :
    (lease_ms : ℕ) (locked : ℕ → Bool) (token : ℕ → ℕ) (limit now id : ℕ) (st : Outbox)
    (e : OutboxEvent)
    → distinct st.events ≡ true
    → get id st.events ≡ some e
    → recorded (some e)
      ≡ recorded (some (lease_row lease_ms token now (candidates locked limit now st) id e))
lease_row-recorded lease_ms locked token limit now id st e d found =
    elim (Bool-cases (is_among (candidates locked limit now st) id)) [
      | inr left ↦ ground (arith, left)
      | inl taken ↦
          let due : is_due now e ≡ true =
            ground (arith, found, candidates_due locked limit now id st d taken) in
          ground (arith, taken, due)
    ]

pub claim-IsFaithful :
    (lease_ms : ℕ) (locked : ℕ → Bool) (token : ℕ → ℕ) (limit now : ℕ) (st : Outbox)
    → IsFaithful st
    → IsFaithful (claim lease_ms locked token limit now st)
unfolding claim
claim-IsFaithful lease_ms locked token limit now st v =
    let chosen = candidates locked limit now st in
    let row = lease_row lease_ms token now chosen in
    record {
      keys = distinct-map_rows row st.events v.keys;
      at = λ id. elim (Option-cases (get id st.events)) [
        | inl absent ↦
            v.at id ∙ ap recorded (absent ∙ sym (get-map_rows-none row id st.events absent))
        | inr (e, found) ↦
            v.at id
            ∙ ap recorded found
            ∙ lease_row-recorded lease_ms locked token limit now id st e v.keys found
            ∙ ap recorded (sym (get-map_rows-some row id e st.events found))
      ];
    }
