-- ===== src/Billing/Payments/Current.antt =====
-- What it is for the news of a payment to be of the period that is paid for now, as
-- `protectCurrentSubscription` of src/billing/payments.service.ts tests it.
use next_stock_oficial.Prelude.{
  ℕ, ◌≤◌, ◌≡◌, ◌≢◌, ◌⊎◌, false, Bool, ◌||◌, ◌==◌, Option, none, some, arith, inl, inr, Bool-cases,
  Option-cases,
}
use next_stock_oficial.Billing.Ledger.{BillingPayment}
use next_stock_oficial.Billing.StateOrder.{approved}
use next_stock_oficial.Billing.Payments.{
  PaymentReads, GatewayPaymentResult, protects, differ, is_before, is_ambiguous, of_former_plan,
  is_approved, payment_period_start,
}

-- The checkout is of the remote subscription that the tenant has, the payment is not older than the
-- last one, by its date or by the one that is known of it, one that is not approved has such a
-- date, and its plan is still the one of its checkout or of the subscription.
pub record IsCurrent (result : GatewayPaymentResult) (reads : PaymentReads) : Type 0 where
  pub one_remote :
      (c g : ℕ)
      → reads.checkout.gateway_checkout_id ≡ some c
      → reads.subscription.gateway_subscription_id ≡ some g
      → c ≡ g
  pub not_older :
      (t last : ℕ)
      → result.paid_at ≡ some t
      → reads.subscription.last_payment_at ≡ some last
      → last ≤ t
  pub known_not_older :
      (e : ℕ × BillingPayment) (t last : ℕ)
      → result.paid_at ≡ none
      → reads.existing ≡ some e
      → e.1.paid_at ≡ some t
      → reads.subscription.last_payment_at ≡ some last
      → last ≤ t
  pub dated :
      (last : ℕ)
      → reads.subscription.last_payment_at ≡ some last
      → result.normalized_status ≢ approved
      → result.paid_at ≡ none
      → (e : ℕ × BillingPayment) × (t : ℕ) × (reads.existing ≡ some e) × (e.1.paid_at ≡ some t)
  pub own_plan :
      (reads.plan_id ≡ reads.checkout.plan_id) ⊎ (reads.subscription.plan_id ≡ some reads.plan_id)

or_false : (a b : Bool) → (a || b) ≡ false → (a ≡ false) × (b ≡ false)
or_false a b h = (ground (arith, h), ground (arith, h))

dated_by :
    (result : GatewayPaymentResult) (reads : PaymentReads) (last : ℕ)
    → is_ambiguous result.normalized_status reads.subscription.last_payment_at
        (payment_period_start result reads)
      ≡ false
    → reads.subscription.last_payment_at ≡ some last
    → result.normalized_status ≢ approved
    → result.paid_at ≡ none
    → (e : ℕ × BillingPayment) × (t : ℕ) × (reads.existing ≡ some e) × (e.1.paid_at ≡ some t)
dated_by result reads last h paid other undated = elim (Option-cases reads.existing) [
  | inl new ↦ absurd (ground (arith, h, paid, other, undated, new))
  | inr (e, known) ↦ elim (Option-cases e.1.paid_at) [
    | inl lacks ↦ absurd (ground (arith, h, paid, other, undated, known, lacks))
    | inr (t, at) ↦ (e, t, known, at)
  ]
]

pub protects-IsCurrent :
    (result : GatewayPaymentResult) (reads : PaymentReads)
    → protects result reads ≡ false
    → IsCurrent result reads
unfolding protects
protects-IsCurrent result reads h =
    let start = payment_period_start result reads in
    let s = reads.subscription in
    let remote = differ reads.checkout.gateway_checkout_id s.gateway_subscription_id in
    let old = is_before start s.last_payment_at in
    let unclear = is_ambiguous result.normalized_status s.last_payment_at start in
    let (h3, h4) = or_false (remote || old || unclear) (of_former_plan reads) h in
    let (h2, k3) = or_false (remote || old) unclear h3 in
    let (h1, k2) = or_false remote old h2 in
    record {
      one_remote = λ c g is has. ground (arith, h1, is, has);
      not_older = λ t last is has. ground (arith, k2, is, has);
      known_not_older =
          λ e t last undated known is has. ground (arith, k2, undated, known, is, has);
      dated = λ last paid other undated. dated_by result reads last k3 paid other undated;
      own_plan = elim (Bool-cases (reads.plan_id == reads.checkout.plan_id)) [
        | inl same ↦ inl (ground (arith, same))
        | inr other ↦ inr (ground (arith, h4, other))
      ];
    }

-- each part of the test, of news that is current
module _ (result : GatewayPaymentResult) (reads : PaymentReads) (is : IsCurrent result reads) where
  abbrev last : Option ℕ
  last = reads.subscription.last_payment_at

  one_remote_lem :
      differ reads.checkout.gateway_checkout_id reads.subscription.gateway_subscription_id ≡ false
  one_remote_lem = elim (Option-cases reads.checkout.gateway_checkout_id) [
    | inl lacks ↦ ground (arith, lacks)
    | inr (c, one) ↦ elim (Option-cases reads.subscription.gateway_subscription_id) [
      | inl lacks ↦ ground (arith, one, lacks)
      | inr (g, other) ↦ ground (arith, one, other, is.one_remote c g one other)
    ]
  ]

  not_older_lem : is_before (payment_period_start result reads) last ≡ false
  not_older_lem = elim (Option-cases last) [
    | inl first ↦ elim (Option-cases (payment_period_start result reads)) [
      | inl undated ↦ ground (arith, first, undated)
      | inr (t, at) ↦ ground (arith, first, at)
    ]
    | inr (l, paid) ↦ elim (Option-cases result.paid_at) [
      | inr (t, at) ↦ ground (arith, paid, at, is.not_older t l at paid)
      | inl undated ↦ elim (Option-cases reads.existing) [
        | inl new ↦ ground (arith, paid, undated, new)
        | inr (e, known) ↦ elim (Option-cases e.1.paid_at) [
          | inl lacks ↦ ground (arith, paid, undated, known, lacks)
          | inr (t, at) ↦
              ground
                (arith, paid, undated, known, at, is.known_not_older e t l undated known at paid)
        ]
      ]
    ]
  ]

  dated_lem : is_ambiguous result.normalized_status last (payment_period_start result reads) ≡ false
  dated_lem = elim (Option-cases last) [
    | inl first ↦ ground (arith, first)
    | inr (l, paid) ↦ elim (Option-cases (payment_period_start result reads)) [
      | inr (t, at) ↦ ground (arith, paid, at)
      | inl undated ↦ elim (Bool-cases (is_approved result.normalized_status)) [
        | inl good ↦ ground (arith, paid, undated, good)
        | inr bad ↦
            let (e, t, known, at) =
              is.dated l paid (λ good. ground (arith, good, bad)) (ground (arith, undated)) in
            absurd (ground (arith, undated, known, at))
      ]
    ]
  ]

  own_plan_lem : of_former_plan reads ≡ false
  own_plan_lem = elim is.own_plan [
    | inl same ↦ ground (arith, same)
    | inr has ↦ ground (arith, has)
  ]

pub IsCurrent-protects :
    (result : GatewayPaymentResult) (reads : PaymentReads)
    → IsCurrent result reads
    → protects result reads ≡ false
unfolding protects
IsCurrent-protects result reads is = ground (
  arith,
  one_remote_lem result reads is,
  not_older_lem result reads is,
  dated_lem result reads is,
  own_plan_lem result reads is,
)
