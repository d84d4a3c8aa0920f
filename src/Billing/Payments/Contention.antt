-- ===== src/Billing/Payments/Contention.antt =====
-- The loop of `processVerifiedPayment` of src/billing/payments.service.ts: a transaction whose claim
-- is lost is run again, at most 120 times.
use next_stock_oficial.Prelude.{
  ℕ, zero, suc, ◌+◌, ◌≤◌, ◌<◌, ◌≡◌, ◌≢◌, refl, ◌∙◌, ap, subst, Bool, true, false, Option, none,
  some, find, ◌==◌, if◌then◌else◌, arith, inl, inr, Bool-cases, Option-cases, ==→≡,
}
use next_stock_oficial.Prelude.Result.{Result, ok, err, ◌>>=◌, >>=-eq-err}
use next_stock_oficial.Prelude.Table.{Table, get, matching}
use next_stock_oficial.Prelude.Table.Distinct.{distinct}
use next_stock_oficial.Prelude.Table.Find.{get-find, find-meets}
use next_stock_oficial.Billing.Entitlement.{Subscription}
use next_stock_oficial.Billing.Ledger.{BillingPayment}
use next_stock_oficial.Billing.Subscriptions.{
  Accounts, BillingError, CheckoutSession, cas_lost, contention,
}
use next_stock_oficial.Billing.Payments.{
  PaymentReads, PaymentAnswer, PaymentLookup, answered, looked_up, read_payment, check_payment,
  find_payment, decision, is_referenced, row_of, look_up, is_payment, GatewayPaymentResult,
}
use next_stock_oficial.Billing.Payments.Dates.{period_end}
use next_stock_oficial.Billing.Payments.Apply.{
  write_payment, write_or_answer, claim_payment_news, is_unclaimed,
}
use next_stock_oficial.Billing.Payments.Rows.{
  PaymentNews, upsert_invoice, save_payment, period_start,
}
use next_stock_oficial.Billing.Payments.Receives.{read_payment-IsRead}
use next_stock_oficial.Billing.Payments.Refines.{
  upsert_invoice-payments, BillingStateDecision-cases,
}
use next_stock_oficial.Billing.Plans.{PlanInterval}

-- One run of the transaction, which reads one state of the tables and writes to a later one.
unfoldable pub attempt :
    PaymentNews → ℕ → Accounts × Accounts → Result BillingError (PaymentAnswer × Accounts)
unfolding read_payment write_payment
attempt n reference states = do
  found ← read_payment n.provider n.result reference states.0
  write_or_answer n found states.1

abbrev pub is_lost : Result BillingError (PaymentAnswer × Accounts) → Bool
is_lost (ok r) = false
is_lost (err e) = elim e [ cas_lost ↦ true | _ ↦ false ]

-- the attempts from the number `i` on, where `schedule` says what states each of them meets
unfoldable pub attempts :
    ℕ
    → ℕ
    → PaymentNews
    → ℕ
    → (ℕ → Accounts × Accounts)
    → Result BillingError (PaymentAnswer × Accounts)
unfolding attempt
attempts zero i n reference schedule = err contention
attempts (suc k) i n reference schedule =
    let rest = attempts k (i + 1) n reference schedule in
    if is_lost (attempt n reference (schedule i)) then rest else attempt n reference (schedule i)

unfoldable pub process_contended :
    PaymentNews → ℕ → (ℕ → Accounts × Accounts) → Result BillingError (PaymentAnswer × Accounts)
unfolding attempts
process_contended n reference schedule = attempts 120 0 n reference schedule

check_payment_not_lost :
    (result : GatewayPaymentResult) (c : ℕ × CheckoutSession) (s : ℕ × Subscription)
    (existing : Option (ℕ × BillingPayment)) (st : Accounts)
    → check_payment result c s existing st ≢ err cas_lost
unfolding check_payment
check_payment_not_lost result c s existing st h = ground (arith, h)

look_up_err :
    (r : Result BillingError PaymentReads) {e : BillingError} → look_up r ≡ err e → r ≡ err e
look_up_err (ok q) h = cc
look_up_err (err f) h = cc

period_end_not_lost :
    (start : ℕ) (interval : PlanInterval) (count : ℕ)
    → period_end start interval count ≢ err cas_lost
unfolding period_end
period_end_not_lost start interval count h = ground (arith, h)

upsert_invoice_not_lost :
    (n : PaymentNews) (reads : PaymentReads) (ends : Option ℕ) (st : Accounts)
    → upsert_invoice n reads ends st ≢ err cas_lost
unfolding upsert_invoice
upsert_invoice_not_lost n reads ends st h = ground (arith, h)

-- a transaction that nobody disturbs finds the row of the payment that it has read
save_payment_not_lost :
    (n : PaymentNews) (reads : PaymentReads) (invoice_id : ℕ) (st : Accounts)
    → distinct st.payments ≡ true
    → find_payment reads.checkout.tenant_id n.provider n.result.gateway_payment_id st
      ≡ reads.existing
    → save_payment n reads invoice_id st ≢ err cas_lost
unfolding save_payment
save_payment_not_lost n reads invoice_id st d seen h = elim (Option-cases reads.existing) [
  | inl fresh ↦ ground (arith, fresh, h)
  | inr (e, known) ↦
      let found = seen ∙ known in
      let row = get-find _ st.payments d found in
      let meets = find-meets _ st.payments found in ground (arith, known, row, meets, h)
]

claim_not_lost :
    (n : PaymentNews) (reads : PaymentReads) (st : Accounts)
    → distinct st.payments ≡ true
    → find_payment reads.checkout.tenant_id n.provider n.result.gateway_payment_id st
      ≡ reads.existing
    → get reads.subscription_id st.subscriptions ≡ some reads.subscription
    → is_unclaimed reads reads.subscription ≡ true
    → claim_payment_news n reads st ≢ err cas_lost
unfolding claim_payment_news
claim_not_lost n reads st d seen row fits h =
    let s = reads.subscription in
    let m : matching (is_unclaimed reads) (get reads.subscription_id st.subscriptions) ≡ some s =
      ground (arith, row, fits) in
    elim (>>=-eq-err (period_end (period_start n) reads.plan.interval reads.plan.interval_count) _
      (rw (m, claim_payment_news) at h)) [
        | inl failed ↦ period_end_not_lost _ reads.plan.interval reads.plan.interval_count failed
        | inr (ends, _, k1) ↦ elim (>>=-eq-err (upsert_invoice n reads ends _) _ k1) [
          | inl failed ↦ upsert_invoice_not_lost n reads ends _ failed
          | inr (invoiced, h2, k2) ↦
              let same = (upsert_invoice-payments n reads ends _ h2).0 in
              elim (>>=-eq-err (save_payment n reads invoiced.0 invoiced.1) _ k2) [
                | inl failed ↦
                    save_payment_not_lost n reads invoiced.0 invoiced.1 (ap distinct same ∙ d)
                      (ap
                          (find (
                            is_payment reads.checkout.tenant_id n.provider
                              n.result.gateway_payment_id))
                          same
                        ∙ seen)
                      failed
                | inr (saved, _, k3) ↦ ground (arith, k3)
              ]
        ]
      ]

-- the subscription of the checkout is of its tenant
abbrev pub IsOwned : ℕ → Accounts → Type 0
IsOwned reference st =
    (c : ℕ × CheckoutSession) (s : ℕ × Subscription)
    → find (is_referenced reference) st.checkouts ≡ some c
    → row_of c.1.subscription_id st.subscriptions ≡ some s
    → s.1.tenant_id ≡ c.1.tenant_id

row_of-get :
    (id : Option ℕ) (rows : Table Subscription) {s : ℕ × Subscription}
    → row_of id rows ≡ some s
    → get s.0 rows ≡ some s.1
row_of-get none rows h = ground (arith, h)
row_of-get (some k) rows {s = s} h = elim (Option-cases (get k rows)) [
  | inl gone ↦ absurd (ground (arith, gone, h))
  | inr (t, there) ↦
      let is : ◌≡◌ {A = Option (ℕ × Subscription)} (some (k, t)) (some s) =
        ground (arith, there, h) in
      subst (λ o. elim o [ none ↦ Unit | some x ↦ get x.0 rows ≡ some x.1 ]) is there
]

read_payment_not_lost :
    (provider : ℕ) (result : GatewayPaymentResult) (reference : ℕ) (st : Accounts)
    → read_payment provider result reference st ≢ err cas_lost
unfolding read_payment
read_payment_not_lost provider result reference st h =
    elim (Option-cases (find (is_referenced reference) st.checkouts)) [
      | inl missing ↦ ground (arith, missing, h)
      | inr (c, found) ↦ elim (Bool-cases (c.1.provider == provider)) [
        | inr other ↦ ground (arith, found, other, h)
        | inl same ↦ elim (Option-cases (row_of c.1.subscription_id st.subscriptions)) [
          | inl gone ↦ ground (arith, found, same, gone, h)
          | inr (s, row) ↦
              let existing = find_payment c.1.tenant_id provider result.gateway_payment_id st in
              check_payment_not_lost result c s existing st
                (look_up_err _ (rw (found, same, row, read_payment) at h))
        ]
      ]
    ]

-- A transaction that meets one state only does not lose its claim.
attempt_alone :
    (n : PaymentNews) (reference : ℕ) (st : Accounts)
    → distinct st.payments ≡ true
    → IsOwned reference st
    → attempt n reference (st, st) ≢ err cas_lost
unfolding attempt write_payment
attempt_alone n reference st d owned h =
    elim (>>=-eq-err (read_payment n.provider n.result reference st) _ h) [
      | inl failed ↦ read_payment_not_lost n.provider n.result reference st failed
      | inr (found, read, wrote) ↦ go found read wrote
    ]
  where
    go :
        (found : PaymentLookup)
        → read_payment n.provider n.result reference st ≡ ok found
        → write_or_answer n found st ≢ err cas_lost
    go (answered a) read wrote = ground (arith, wrote)
    go (looked_up reads) read wrote =
        let r = read_payment-IsRead n.provider n.result reference st read in
        let tenant = owned r.checkout (reads.subscription_id, reads.subscription) r.found r.row in
        elim (BillingStateDecision-cases (decision n.result reads)) [
          | inr (why, decided) ↦ ground (arith, decided, wrote)
          | inl (why, decided) ↦
              claim_not_lost n reads st d r.known
                (row_of-get r.checkout.1.subscription_id st.subscriptions r.row)
                (ground (arith, tenant, ap (λ c. c.tenant_id) r.its_checkout))
                (ground (arith, decided, wrote))
        ]

lost_error : (e : BillingError) → is_lost (err e) ≡ true → e ≡ cas_lost
lost_error e h = ground (arith, h)

is_lost-false :
    (r : Result BillingError (PaymentAnswer × Accounts)) → r ≢ err cas_lost → is_lost r ≡ false
is_lost-false (ok r) h = refl
is_lost-false (err e) h = elim (Bool-cases (is_lost (err e))) [
  | inl lost ↦ absurd (h (ap err (lost_error e lost)))
  | inr kept ↦ kept
]

module _ (n : PaymentNews) (reference : ℕ) (schedule : ℕ → Accounts × Accounts) where
  -- the answer is that of an attempt, the last one that is made
  pub record Answers (out : Result BillingError (PaymentAnswer × Accounts)) (last : ℕ)
      : Type 0 where
    pub number : ℕ
    pub bound : number ≤ last
    pub answer : out ≡ attempt n reference (schedule number)
    pub kept : is_lost (attempt n reference (schedule number)) ≡ false

  attempts-Answers :
      (k i last : ℕ)
      → i ≤ last
      → last < i + k
      → is_lost (attempt n reference (schedule last)) ≡ false
      → Answers (attempts k i n reference schedule) last
  unfolding attempts
  attempts-Answers zero i last from to kept = absurd (omega (arith, from, to))
  attempts-Answers (suc k) i last from to kept =
      elim (Bool-cases (is_lost (attempt n reference (schedule i)))) [
        | inr first ↦ record {
          number = i;
          bound = from;
          answer = ground (arith, first);
          kept = first;
        }
        | inl lost ↦ elim (Bool-cases (i == last)) [
          | inl same ↦
              let is = ap (λ j. is_lost (attempt n reference (schedule j))) (==→≡ i last same) in
              absurd (ground (arith, is, lost, kept))
          | inr other ↦
              let more : i + 1 ≤ last = ground (arith, from, other) in
              let rest = attempts-Answers k (i + 1) last more (omega (arith, to)) kept in
              record {
                number = rest.number;
                bound = rest.bound;
                answer = ground (arith, lost, rest.answer);
                kept = rest.kept;
              }
        ]
      ]

  -- Whatever the attempts meet, if one of the first 120 of them is not disturbed, that is, reads and
  -- writes one state, whose payments have distinct keys and whose checkout has a subscription of its
  -- own tenant, then the answer is that of an attempt up to it, and that attempt has not lost its
  -- claim: the limit of the attempts is not met.
  pub process_contended-Answers :
      (last : ℕ) (st : Accounts)
      → last < 120
      → schedule last ≡ (st, st)
      → distinct st.payments ≡ true
      → IsOwned reference st
      → Answers (process_contended n reference schedule) last
  unfolding process_contended
  process_contended-Answers last st early alone d owned =
      attempts-Answers 120 0 last (omega arith) (omega (arith, early)) (
        ap (λ x. is_lost (attempt n reference x)) alone
        ∙ is_lost-false (attempt n reference (st, st)) (attempt_alone n reference st d owned))
