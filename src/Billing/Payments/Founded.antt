-- ===== src/Billing/Payments/Founded.antt =====
-- What the news of a payment is about, or why it is about nothing: what `processVerifiedPayment` and
-- `applyWithCas` of src/billing/payments.service.ts look for before they write.
use next_stock_oficial.Prelude.{
  ℕ, ◌≡◌, ◌≢◌, ◌⊎◌, refl, ◌∙◌, sym, ap, Bool, false, Option, none, some, [], ◌∷◌, find, find-Any,
  All, Any, ◌==◌, arith, inl, inr, Bool-cases, Option-cases,
}
use next_stock_oficial.Prelude.Result.{Result, ok, err}
use next_stock_oficial.Prelude.Table.{Table, get}
use next_stock_oficial.Prelude.Table.Find.{find-meets}
use next_stock_oficial.Billing.Entitlement.{Subscription}
use next_stock_oficial.Billing.Subscriptions.{Accounts, BillingError, CheckoutSession}
use next_stock_oficial.Billing.Payments.{
  PaymentReads, PaymentAnswer, answered, looked_up, is_referenced, row_of, read_payment, look_up,
}
use next_stock_oficial.Billing.Payments.Rows.{PaymentNews}

-- a checkout that stands under a reference
pub record IsReferenced (reference : ℕ) (st : Accounts) (c : ℕ × CheckoutSession) : Type 0 where
  pub stands : Any (λ e. e ≡ c) st.checkouts
  pub its : c.1.external_reference ≡ reference

-- the news of a payment of a checkout, whose subscription is there
pub record IsFounded (n : PaymentNews) (st : Accounts) (c : ℕ × CheckoutSession) : Type 0 where
  pub reference : ℕ
  pub named : n.result.external_reference ≡ some reference
  pub referenced : IsReferenced reference st c
  pub provider : c.1.provider ≡ n.provider
  pub subscription_id : ℕ
  pub linked : c.1.subscription_id ≡ some subscription_id
  pub subscription : Subscription
  pub there : get subscription_id st.subscriptions ≡ some subscription

-- why the news of a payment is about nothing
pub data IsUnfounded (is_valid : ℕ → Bool) (n : PaymentNews) (st : Accounts) : Type 0 where
  unnamed : n.result.external_reference ≡ none → IsUnfounded is_valid n st
  forged :
      (reference : ℕ)
      → n.result.external_reference ≡ some reference
      → is_valid reference ≡ false
      → IsUnfounded is_valid n st
  unknown_checkout :
      (reference : ℕ)
      → n.result.external_reference ≡ some reference
      → All (λ e. e.1.external_reference ≢ reference) st.checkouts
      → IsUnfounded is_valid n st
  other_provider :
      (reference : ℕ) (c : ℕ × CheckoutSession)
      → n.result.external_reference ≡ some reference
      → IsReferenced reference st c
      → c.1.provider ≢ n.provider
      → IsUnfounded is_valid n st
  no_subscription :
      (reference : ℕ) (c : ℕ × CheckoutSession)
      → n.result.external_reference ≡ some reference
      → IsReferenced reference st c
      → c.1.subscription_id ≡ none
      → IsUnfounded is_valid n st
  lost_subscription :
      (reference : ℕ) (c : ℕ × CheckoutSession) (subscription_id : ℕ)
      → n.result.external_reference ≡ some reference
      → IsReferenced reference st c
      → c.1.subscription_id ≡ some subscription_id
      → get subscription_id st.subscriptions ≡ none
      → IsUnfounded is_valid n st

none_referenced :
    (reference : ℕ) (rows : Table CheckoutSession)
    → find (is_referenced reference) rows ≡ none
    → All (λ e. e.1.external_reference ≢ reference) rows
none_referenced reference [] h = tt
none_referenced reference (e ∷ rows) h = elim (Bool-cases (is_referenced reference e)) [
  | inl own ↦ absurd (ground (arith, own, h))
  | inr other ↦
      (λ is. ground (arith, other, is), none_referenced reference rows (ground (arith, other, h)))
]

find-IsReferenced :
    (reference : ℕ) (st : Accounts) (c : ℕ × CheckoutSession)
    → find (is_referenced reference) st.checkouts ≡ some c
    → IsReferenced reference st c
find-IsReferenced reference st c found = record {
  stands = find-Any (is_referenced reference) st.checkouts found;
  its = ground (arith, find-meets (is_referenced reference) st.checkouts found);
}

row_of-none :
    (link : Option ℕ) (rows : Table Subscription)
    → row_of link rows ≡ none
    → (link ≡ none) ⊎ ((id : ℕ) × (link ≡ some id) × (get id rows ≡ none))
row_of-none none rows h = inl refl
row_of-none (some id) rows h = elim (Option-cases (get id rows)) [
  | inl gone ↦ inr (id, refl, gone)
  | inr (s, there) ↦ absurd (ground (arith, there, h))
]

row_of-some :
    (link : Option ℕ) (rows : Table Subscription) {e : ℕ × Subscription}
    → row_of link rows ≡ some e
    → (link ≡ some e.0) × (get e.0 rows ≡ some e.1)
row_of-some none rows h = absurd (ground (arith, h))
row_of-some (some id) rows {e} h = elim (Option-cases (get id rows)) [
  | inl gone ↦ absurd (ground (arith, gone, h))
  | inr (s, there) ↦
      let is : ◌≡◌ {A = ℕ × Subscription} (id, s) e = ground (arith, there, h) in
      (
        ap (λ x. some x.0) is,
        ap (λ k. get k rows) (sym (ap (λ x. x.0) is)) ∙ there ∙ ap (λ x. some x.1) is,
      )
]

look_up_reads :
    (r : Result BillingError PaymentReads) {b : PaymentAnswer} → look_up r ≡ ok (answered b) → ⊥
look_up_reads (ok q) h = cc
look_up_reads (err e) h = cc

module _ (is_valid : ℕ → Bool) (n : PaymentNews) (st : Accounts) (reference : ℕ)
    (named : n.result.external_reference ≡ some reference) where
  pub read_payment-IsUnfounded :
      (b : PaymentAnswer)
      → read_payment n.provider n.result reference st ≡ ok (answered b)
      → IsUnfounded is_valid n st
  unfolding read_payment
  read_payment-IsUnfounded b h = elim (Option-cases (find (is_referenced reference) st.checkouts)) [
    | inl missing ↦
        unknown_checkout reference named (none_referenced reference st.checkouts missing)
    | inr (c, found) ↦
        let its = find-IsReferenced reference st c found in
        elim (Bool-cases (c.1.provider == n.provider)) [
          | inr other ↦ other_provider reference c named its (λ is. ground (arith, other, is))
          | inl same ↦ elim (Option-cases (row_of c.1.subscription_id st.subscriptions)) [
            | inl gone ↦ elim (row_of-none c.1.subscription_id st.subscriptions gone) [
              | inl unlinked ↦ no_subscription reference c named its unlinked
              | inr (id, linked, lost) ↦ lost_subscription reference c id named its linked lost
            ]
            | inr (s, row) ↦ absurd (look_up_reads _ (rw (found, same, row, read_payment) at h))
          ]
        ]
  ]

  pub read_payment-IsFounded :
      (c : ℕ × CheckoutSession) {reads : PaymentReads}
      → find (is_referenced reference) st.checkouts ≡ some c
      → read_payment n.provider n.result reference st ≡ ok (looked_up reads)
      → IsFounded n st c
  unfolding read_payment
  read_payment-IsFounded c found h = elim (Bool-cases (c.1.provider == n.provider)) [
    | inr other ↦ absurd (ground (arith, found, other, h))
    | inl same ↦ elim (Option-cases (row_of c.1.subscription_id st.subscriptions)) [
      | inl gone ↦ absurd (ground (arith, found, same, gone, h))
      | inr (s, row) ↦
          let (linked, there) = row_of-some c.1.subscription_id st.subscriptions row in
          record {
            reference = reference;
            named = named;
            referenced = find-IsReferenced reference st c found;
            provider = ground (arith, same);
            subscription_id = s.0;
            linked = linked;
            subscription = s.1;
            there = there;
          }
    ]
  ]
