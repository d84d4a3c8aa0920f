-- ===== src/Billing/Webhook/Once.antt =====
-- A notification has its effect once, however often it is delivered and worked on.
use next_stock_oficial.Prelude.{
  ℕ, ◌+◌, ◌≤◌, ◌≡◌, ◌∙◌, subst, Bool, false, ◌&&◌, ◌||◌, not, Option, none, some, List, [], ◌∷◌,
  ◌++◌, find, is_some, sum_by, sum_by-append, ◌==◌, if◌then◌else◌, arith, Bool-cases, Option-cases,
  inl, inr,
}
use next_stock_oficial.Prelude.Result.{ok, >>=-eq-ok}
use next_stock_oficial.Prelude.Table.{get, put, matching-cases, get-put}
use next_stock_oficial.Prelude.Text.{Text, text_eq}
use next_stock_oficial.Billing.Webhook.{
  WebhookStatus, processed, ignored, failed_final, failed_retryable, WebhookEvent, Inbox,
  is_claimable, claimed_row, Claim, claim, holds, is_settled, finished_row, finish, applied_row,
  apply_payment, Work, resource_missing, subscription_event, other_event, payment_unknown,
  payment_event, handle_claimed, Notification, has_identity, new_event, persist, receive,
}

-- how often an event's payment has been processed
abbrev pub times_applied : ℕ → Inbox → ℕ
times_applied id st = sum_by (λ j. if j == id then 1 else 0) st.applied

abbrev pub settled_at : Option WebhookEvent → Bool
settled_at none = false
settled_at (some e) = is_settled e.status

-- No payment has been processed more than once, and none for an event that is not settled.
pub record IsOnce (st : Inbox) : Type 0 where
  pub at : (id : ℕ) → times_applied id st ≤ (if settled_at (get id st.events) then 1 else 0)

-- a row that is written in place of one that is not settled
IsOnce-put :
    (id : ℕ) (e : WebhookEvent) (st : Inbox)
    → IsOnce st
    → settled_at (get id st.events) ≡ false
    → IsOnce (record st { events = put id e st.events })
IsOnce-put id e st v fresh = record {
  at = λ j. ground (arith, v.at j, fresh, get-put id j e st.events);
}

claim-IsOnce : (now token id : ℕ) (st : Inbox) → IsOnce st → IsOnce (claim now token id st).1
unfolding claim
claim-IsOnce now token id st v = elim (matching-cases (is_claimable now) (get id st.events)) [
  | inl lost ↦ subst IsOnce (ground (arith, lost)) v
  | inr (e, found, can, matched) ↦
      let written = IsOnce-put id (claimed_row now token e) st v (ground (arith, found, can)) in
      subst IsOnce (ground (arith, matched)) written
]

finish-IsOnce :
    (now : ℕ) (c : Claim) (status : WebhookStatus) (code : Text) (st : Inbox)
    → IsOnce st
    → IsOnce (finish now c status code st)
unfolding finish
finish-IsOnce now c status code st v = elim (matching-cases (holds c) (get c.id st.events)) [
  | inl lost ↦ subst IsOnce (ground (arith, lost)) v
  | inr (e, found, held, matched) ↦
      let written =
        IsOnce-put c.id (finished_row now status code e) st v (ground (arith, found, held)) in
      subst IsOnce (ground (arith, matched)) written
]

one_more :
    (j id : ℕ) (applied : List ℕ)
    → sum_by (λ i. if i == j then 1 else 0) (applied ++ (id ∷ []))
      ≡ sum_by (λ i. if i == j then 1 else 0) applied + (if id == j then 1 else 0)
one_more j id applied =
    sum_by-append (λ i. if i == j then 1 else 0) applied (id ∷ []) ∙ ground arith

apply_payment-IsOnce :
    (now : ℕ) (c : Claim) (done : Bool) (st : Inbox)
    → IsOnce st
    → IsOnce (apply_payment now c done st).1
unfolding apply_payment
apply_payment-IsOnce now c done st v = elim (matching-cases (holds c) (get c.id st.events)) [
  | inl lost ↦ subst IsOnce (ground (arith, lost)) v
  | inr (e, found, held, matched) ↦
      let row = applied_row now done e in
      let written : IsOnce
          (record { events = put c.id row st.events; applied = st.applied ++ (c.id ∷ []) }) =
        record {
          at = λ j. ground (
            arith,
            v.at j,
            v.at c.id,
            found,
            held,
            one_more j c.id st.applied,
            get-put c.id j row st.events,
          );
        } in
      subst IsOnce (ground (arith, matched)) written
]

pub handle_claimed-IsOnce :
    (now : ℕ) (c : Claim) (w : Work) (st : Inbox) → IsOnce st → IsOnce (handle_claimed now c w st)
unfolding handle_claimed
handle_claimed-IsOnce now c resource_missing st v = finish-IsOnce now c failed_final [] st v
handle_claimed-IsOnce now c (subscription_event none code) st v =
    finish-IsOnce now c failed_retryable code st v
handle_claimed-IsOnce now c (subscription_event (some b) code) st v =
    finish-IsOnce now c (if b then processed else ignored) [] st v
handle_claimed-IsOnce now c other_event st v = finish-IsOnce now c ignored [] st v
handle_claimed-IsOnce now c (payment_unknown code) st v =
    finish-IsOnce now c failed_retryable code st v
handle_claimed-IsOnce now c (payment_event none code) st v =
    finish-IsOnce now c failed_retryable code st v
handle_claimed-IsOnce now c (payment_event (some done) code) st v =
    apply_payment-IsOnce now c done st v

-- the parts of a delivery that is accepted
persist-IsOnce :
    (new_id : ℕ) (n : Notification) (st : Inbox) {r : ℕ × WebhookEvent × Inbox}
    → IsOnce st
    → persist new_id n st ≡ ok r
    → IsOnce r.2
unfolding persist
persist-IsOnce new_id n st {r} v h =
    elim (Option-cases (find (has_identity n.identity_key) st.events)) [
      | inr (e, found) ↦ subst IsOnce (ground (arith, found, h)) v
      | inl absent ↦ elim (Bool-cases (is_some (get new_id st.events))) [
        | inl taken ↦ absurd (ground (arith, absent, taken, h))
        | inr fresh ↦
            let written = IsOnce-put new_id (new_event n) st v (ground (arith, fresh)) in
            subst IsOnce (ground (arith, absent, fresh, h)) written
      ]
    ]

pub receive-IsOnce :
    (enabled production : Bool) (now token new_id : ℕ) (n : Notification) (st : Inbox)
    {r : Option Claim × Inbox}
    → IsOnce st
    → receive enabled production now token new_id n st ≡ ok r
    → IsOnce r.1
unfolding receive
receive-IsOnce enabled production now token new_id n st {r} v h =
    elim (Bool-cases (not n.signature_valid || not enabled)) [
      | inl refused ↦ absurd (ground (arith, refused, h))
      | inr let_in ↦ elim (Bool-cases (production && n.live_mode_off)) [
        | inl simulation ↦ subst IsOnce (ground (arith, let_in, simulation, h)) v
        | inr live ↦
            let (p, h1, h2) = >>=-eq-ok (persist new_id n st) _ (rw (let_in, live) at h) in
            elim (Bool-cases (text_eq p.1.payload_hash n.payload_hash)) [
              | inr differs ↦ absurd (ground (arith, differs, h2))
              | inl same ↦
                  let is : (claim now token p.0 p.2).1 ≡ r.1 = ground (arith, same, h2) in
                  subst IsOnce is (claim-IsOnce now token p.0 p.2 (persist-IsOnce new_id n st v h1))
            ]
      ]
    ]
