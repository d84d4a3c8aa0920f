-- ===== src/Billing/Payments/Receives.antt =====
-- News of payments one after the other: `processVerifiedPayment` of src/billing/payments.service.ts.
use next_stock_oficial.Prelude.{
  ℕ, ◌≤◌, ◌≡◌, ◌⊎◌, ◌∙◌, sym, ap, subst, Bool, true, not, ◌&&◌, Option, some, List, [], ◌∷◌, find,
  ◌==◌, arith, inl, inr, Bool-cases, Option-cases,
}
use next_stock_oficial.Prelude.Result.{
  Result, ok, err, Result-cases, throw_if, >>=-eq-ok, ok-injective,
}
use next_stock_oficial.Prelude.Table.{get}
use next_stock_oficial.Prelude.Table.Distinct.{distinct}
use next_stock_oficial.Billing.Entitlement.{Subscription}
use next_stock_oficial.Billing.Ledger.{BillingPayment}
use next_stock_oficial.Billing.StateOrder.Laws.{level, level-process_news}
use next_stock_oficial.Billing.Subscriptions.{
  Accounts, BillingError, CheckoutSession, other_checkout, payment_differs, before_renewal,
}
use next_stock_oficial.Billing.Payments.{
  GatewayPaymentResult, PaymentReads, PaymentAnswer, PaymentLookup, answered, looked_up,
  find_payment, news_of, of_other_checkout, is_expected, is_early, or_missing, plan_paid_for,
  is_referenced, look_up, row_of, read_payment, check_payment,
}
use next_stock_oficial.Billing.Payments.Apply.{
  write_or_answer, apply_with_cas, process_verified_payment,
}
use next_stock_oficial.Billing.Payments.Rows.{PaymentNews}
use next_stock_oficial.Billing.Payments.States.{Refines, payment_state}
use next_stock_oficial.Billing.Payments.Founded.{
  IsFounded, IsUnfounded, unnamed, forged, read_payment-IsFounded, read_payment-IsUnfounded,
}
use next_stock_oficial.Billing.Payments.Refines.{write_payment-Refines}

-- the state after a piece of news; an exception leaves it as it was
unfoldable pub receive : (ℕ → Bool) → PaymentNews → Accounts → Accounts
unfolding process_verified_payment
receive is_valid n st = elim (process_verified_payment is_valid n st) [ ok r ↦ r.1 | err e ↦ st ]

unfoldable pub receive_all : (ℕ → Bool) → List PaymentNews → Accounts → Accounts
unfolding receive
receive_all is_valid [] st = st
receive_all is_valid (n ∷ news) st = receive_all is_valid news (receive is_valid n st)

check_payment_reads :
    (result : GatewayPaymentResult) (c : ℕ × CheckoutSession) (s : ℕ × Subscription)
    (existing : Option (ℕ × BillingPayment)) (st : Accounts) {reads : PaymentReads}
    → check_payment result c s existing st ≡ ok reads
    → (reads.checkout ≡ c.1)
      × (reads.existing ≡ existing)
      × (reads.subscription_id ≡ s.0)
      × (reads.subscription ≡ s.1)
unfolding check_payment
check_payment_reads result c s existing st h =
    let (_, _, k1) = >>=-eq-ok (throw_if (of_other_checkout c.0 existing) other_checkout) _ h in
    let (_, _, k2) =
      >>=-eq-ok (throw_if (not (is_expected result c.1 existing)) payment_differs) _ k1 in
    let (_, _, k3) = >>=-eq-ok (or_missing (get (plan_paid_for c.1 existing) st.plans)) _ k2 in
    let (_, _, k4) = >>=-eq-ok (throw_if (is_early result c.1 s.1 existing) before_renewal) _ k3 in
    let is = sym (ok-injective k4) in
    (
      ap (λ r. r.checkout) is,
      ap (λ r. r.existing) is,
      ap (λ r. r.subscription_id) is,
      ap (λ r. r.subscription) is,
    )

look_up_ok :
    (r : Result BillingError PaymentReads) {reads : PaymentReads}
    → look_up r ≡ ok (looked_up reads)
    → r ≡ ok reads
look_up_ok (ok q) h = cc
look_up_ok (err e) h = cc

-- what the transaction has read, of the tables as they stood
pub record IsRead (provider : ℕ) (result : GatewayPaymentResult) (reference : ℕ) (st : Accounts)
    (reads : PaymentReads) : Type 0 where
  pub checkout : ℕ × CheckoutSession
  pub found : find (is_referenced reference) st.checkouts ≡ some checkout
  pub its_checkout : reads.checkout ≡ checkout.1
  pub row :
      row_of checkout.1.subscription_id st.subscriptions
      ≡ some (reads.subscription_id, reads.subscription)
  pub known :
      find_payment reads.checkout.tenant_id provider result.gateway_payment_id st ≡ reads.existing

pub read_payment-IsRead :
    (provider : ℕ) (result : GatewayPaymentResult) (reference : ℕ) (st : Accounts)
    {reads : PaymentReads}
    → read_payment provider result reference st ≡ ok (looked_up reads)
    → IsRead provider result reference st reads
unfolding read_payment
read_payment-IsRead provider result reference st {reads} h =
    elim (Option-cases (find (is_referenced reference) st.checkouts)) [
      | inl missing ↦ absurd (ground (arith, missing, h))
      | inr (c, found) ↦ elim (Bool-cases (c.1.provider == provider)) [
        | inr other ↦ absurd (ground (arith, found, other, h))
        | inl same ↦ elim (Option-cases (row_of c.1.subscription_id st.subscriptions)) [
          | inl gone ↦ absurd (ground (arith, found, same, gone, h))
          | inr (s, row) ↦
              let existing = find_payment c.1.tenant_id provider result.gateway_payment_id st in
              let (checkout, known, id, subscription) =
                check_payment_reads result c s existing st
                  (look_up_ok _ (rw (found, same, row, read_payment) at h)) in
              record {
                checkout = c;
                found = found;
                its_checkout = checkout;
                row = row ∙ ap some (cc (id, subscription));
                known =
                    ap (λ x. find_payment x.tenant_id provider result.gateway_payment_id st)
                      checkout
                    ∙ sym known;
              }
        ]
      ]
    ]

-- what a piece of news does: nothing where it is about nothing, and else what the order of states
-- says of the payment of its checkout's tenant
abbrev pub Settles : (ℕ → Bool) → PaymentNews → Accounts → Accounts → Type 0
Settles is_valid n st st' =
    (IsUnfounded is_valid n st × (st' ≡ st))
    ⊎ ((c : ℕ × CheckoutSession) × IsFounded n st c × Refines n c.1.tenant_id st st')

module _ (is_valid : ℕ → Bool) (n : PaymentNews) (reference : ℕ) (st : Accounts) {a : PaymentAnswer}
    {st' : Accounts} (named : n.result.external_reference ≡ some reference)
    (d : distinct st.payments ≡ true) where
  write_or_answer-Settles :
      (found : PaymentLookup)
      → read_payment n.provider n.result reference st ≡ ok found
      → write_or_answer n found st ≡ ok (a, st')
      → Settles is_valid n st st'
  write_or_answer-Settles (answered b) read wrote = inl (
    read_payment-IsUnfounded is_valid n st reference named b read,
    ap (λ x. x.1) (sym (ok-injective wrote)),
  )
  write_or_answer-Settles (looked_up reads) read wrote =
      let r = read_payment-IsRead n.provider n.result reference st read in
      inr (
        r.checkout,
        read_payment-IsFounded is_valid n st reference named r.checkout r.found read,
        subst (λ c. Refines n c.tenant_id st st') r.its_checkout
            (write_payment-Refines n reads st d r.known wrote),
      )

  apply_with_cas-Settles : apply_with_cas n reference st ≡ ok (a, st') → Settles is_valid n st st'
  unfolding apply_with_cas
  apply_with_cas-Settles h =
      let (found, read, wrote) = >>=-eq-ok (read_payment n.provider n.result reference st) _ h in
      write_or_answer-Settles found read wrote

-- A piece of news that is processed leaves everything as it was, where it has no external
-- reference or an invalid one, no checkout stands under the reference, or one that is of another
-- provider or has no subscription. Or else its reference is that of a checkout of the provider,
-- whose subscription is there, and the ledger takes the payment of the checkout's tenant where
-- the order of states takes it: to the new state, or nowhere. It takes no other payment of any
-- tenant anywhere, and keeps the keys of the payments distinct. The keys of the payments are
-- distinct before.
pub process_verified_payment-Refines :
    (is_valid : ℕ → Bool) (n : PaymentNews) (st : Accounts) {a : PaymentAnswer} {st' : Accounts}
    → distinct st.payments ≡ true
    → process_verified_payment is_valid n st ≡ ok (a, st')
    → Settles is_valid n st st'
unfolding process_verified_payment
process_verified_payment-Refines is_valid n st {st' = st'} d h =
    elim (Option-cases n.result.external_reference) [
      | inl no_name ↦ inl (unnamed no_name, ground (arith, no_name, h))
      | inr (reference, named) ↦ elim (Bool-cases (is_valid reference)) [
        | inr bad ↦ inl (forged reference named bad, ground (arith, named, bad, h))
        | inl signed ↦
            apply_with_cas-Settles is_valid n reference st named d
              (rw (named, signed, process_verified_payment) at h)
      ]
    ]

-- what one piece of news leaves of the level of any payment
record Rises (st st' : Accounts) : Type 0 where
  keys : distinct st'.payments ≡ true
  rises : (t p g : ℕ) → level (payment_state t p g st) ≤ level (payment_state t p g st')

Refines-Rises :
    {n : PaymentNews} (tenant_id : ℕ) {st st' : Accounts}
    → Refines n tenant_id st st'
    → Rises st st'
Refines-Rises {n} tenant_id {st} {st'} r = record {
  keys = r.keys;
  rises = λ t p g.
      elim (Bool-cases (t == tenant_id && p == n.provider && g == n.result.gateway_payment_id)) [
        | inr other ↦ omega (arith, ap level (r.others t p g other))
        | inl own ↦
            let T : t ≡ tenant_id = ground (arith, own) in
            let P : p ≡ n.provider = ground (arith, own) in
            let G : g ≡ n.result.gateway_payment_id = ground (arith, own) in
            rw (T, P, G)
              (omega (
                arith,
                ap level r.processed,
                level-process_news
                    (payment_state tenant_id n.provider n.result.gateway_payment_id st)
                    (news_of n.result),
              ))
      ];
}

receive-Rises :
    (is_valid : ℕ → Bool) (n : PaymentNews) (st : Accounts)
    → distinct st.payments ≡ true
    → Rises st (receive is_valid n st)
unfolding receive
receive-Rises is_valid n st d = elim (Result-cases (process_verified_payment is_valid n st)) [
  | inr (e, failed) ↦ rw (failed, receive) (record { keys = d; rises = λ t p g. omega arith })
  | inl (r, went) ↦
      rw (went, receive)
        (elim (process_verified_payment-Refines is_valid n st d went) [
          | inr (c, _, step) ↦ Refines-Rises c.1.tenant_id step
          | inl (_, same) ↦ rw same (record { keys = d; rises = λ t p g. omega arith })
        ])
]

-- Over any news of payments, genuine or not, in any order, the state of no payment in the ledger
-- ever goes back in its lifecycle, where the keys of the payments are distinct.
pub receive_all-level :
    (is_valid : ℕ → Bool) (news : List PaymentNews) (st : Accounts)
    → distinct st.payments ≡ true
    → (t p g : ℕ)
    → level (payment_state t p g st) ≤ level (payment_state t p g (receive_all is_valid news st))
unfolding receive_all
receive_all-level is_valid [] st d t p g = omega arith
receive_all-level is_valid (n ∷ news) st d t p g =
    let step = receive-Rises is_valid n st d in
    omega (
      arith,
      step.rises t p g,
      receive_all-level is_valid news (receive is_valid n st) step.keys t p g,
    )
