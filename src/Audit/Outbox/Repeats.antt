-- ===== src/Audit/Outbox/Repeats.antt =====
-- An operation that is enqueued twice is one event.
use next_stock_oficial.Prelude.{
  ℕ, ◌≡◌, refl, true, Option, some, [], ◌∷◌, find, is_some, arith, Bool-cases, Option-cases, inl,
  inr, subst,
}
use next_stock_oficial.Prelude.Result.{ok}
use next_stock_oficial.Prelude.Table.{find-put, get, put}
use next_stock_oficial.Prelude.Text.{Text, text_eq, is_empty}
use next_stock_oficial.Audit.Outbox.{
  AuditData, TransactionalAuditInput, Outbox, has_identity, insert_event, enqueue, new_event,
  audit_data,
}

text_eq_refl : (s : Text) → text_eq s s ≡ true
text_eq_refl [] = refl
text_eq_refl (c ∷ s) = ground (arith, text_eq_refl s)

module _ (hash : AuditData → Text) where
  insert_event_twice :
      (now new_id now' new_id' : ℕ) (d : AuditData) (st : Outbox) {r : ℕ × Outbox}
      → insert_event hash now new_id d st ≡ ok r
      → insert_event hash now' new_id' d r.1 ≡ ok r
  unfolding insert_event
  insert_event_twice now new_id now' new_id' d st {r} h =
      elim (Option-cases (find (has_identity d) st.events)) [
        | inr (e, found) ↦ elim (Bool-cases (text_eq e.1.payload_hash (hash d))) [
          | inr differs ↦ absurd (ground (arith, found, differs, h))
          | inl same ↦
              let is : (e.0, st) ≡ r = ground (arith, found, same, h) in
              subst (λ x. insert_event hash now' new_id' d x.1 ≡ ok x) is
                (ground (arith, found, same))
        ]
        | inl absent ↦ elim (Bool-cases (is_some (get new_id st.events))) [
          | inl taken ↦ absurd (ground (arith, absent, taken, h))
          | inr fresh ↦
              let new = new_event hash now d in
              let st' = record st { events = put new_id new st.events } in
              let is : (new_id, st') ≡ r = ground (arith, absent, fresh, h) in
              let found : find (has_identity d) (put new_id new st.events) ≡ some (new_id, new) =
                find-put (has_identity d) new_id new st.events absent (ground (arith, fresh))
                  (ground (arith, text_eq_refl d.operation_id)) in
              subst (λ x. insert_event hash now' new_id' d x.1 ≡ ok x) is
                (ground (arith, found, text_eq_refl (hash d)))
        ]
      ]

module _ (fingerprint sanitize : Option Text → Option Text) (hash : AuditData → Text) where
  -- Enqueuing the same input again, at any time and under any new key, gives the id of the event
  -- that is there, and changes nothing.
  pub enqueue_twice :
      (now new_id now' new_id' : ℕ) (input : TransactionalAuditInput) (st : Outbox) {r : ℕ × Outbox}
      → enqueue fingerprint sanitize hash now new_id input st ≡ ok r
      → enqueue fingerprint sanitize hash now' new_id' input r.1 ≡ ok r
  unfolding enqueue
  enqueue_twice now new_id now' new_id' input st h = elim (Option-cases input.tenant_id) [
    | inl nobody ↦ absurd (ground (arith, nobody, h))
    | inr (t, known) ↦ elim (Bool-cases (is_empty input.operation_id)) [
      | inl unnamed ↦ absurd (ground (arith, known, unnamed, h))
      | inr named ↦
          let first = rw (known, named) at h in
          rw (known, named)
            (insert_event_twice hash now new_id now' new_id'
              (audit_data fingerprint sanitize t input) st first)
    ]
  ]
