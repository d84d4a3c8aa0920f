-- ===== src/Billing/Payments/Kept.antt =====
-- The payments and the subscriptions over what follows a payment in `applyWithCas` of
-- src/billing/payments.service.ts.
use next_stock_oficial.Prelude.{
  ℕ, ◌≡◌, refl, ◌∙◌, Bool, true, false, find, ◌==◌, if◌then◌else◌, arith, inl, inr, Option-cases,
}
use next_stock_oficial.Prelude.Table.{get, matching-cases}
use next_stock_oficial.Billing.StateOrder.{PaymentStatus}
use next_stock_oficial.Billing.Ledger.{PartnerReferral, PartnerPaymentStatus, PartnerReferralStatus}
use next_stock_oficial.Billing.Subscriptions.{Accounts, BillingEventType}
use next_stock_oficial.Billing.Payments.{PaymentReads, protects}
use next_stock_oficial.Billing.Payments.Referral.{
  is_referral_of, is_reservation_of, referral_news, update_referral, sync_partner_referral,
  convert_promotion_reservation,
}
use next_stock_oficial.Billing.Payments.Apply.{
  settle_checkout, finish_plan_changes, follow_payment, add_event,
}
use next_stock_oficial.Billing.Payments.Rows.{PaymentNews, activates}

-- the tables that a payment is kept in
pub record Keeps (st st' : Accounts) : Type 0 where
  pub payments : st'.payments ≡ st.payments
  pub subscriptions : st'.subscriptions ≡ st.subscriptions

Keeps-all : (st : Accounts) → Keeps st st
Keeps-all st = record { payments = refl; subscriptions = refl }

Keeps-both : {a b c : Accounts} → Keeps a b → Keeps b c → Keeps a c
Keeps-both k l = record {
  payments = l.payments ∙ k.payments;
  subscriptions = l.subscriptions ∙ k.subscriptions;
}

update_referral-Keeps :
    (now subscription_id : ℕ) (e : ℕ × PartnerReferral)
    (news : PartnerPaymentStatus × PartnerReferralStatus) (st : Accounts)
    → Keeps st (update_referral now subscription_id e news st)
unfolding update_referral
update_referral-Keeps now subscription_id e news st = record {
  payments = ground arith;
  subscriptions = ground arith;
}

sync_partner_referral-Keeps :
    (now tenant_id : ℕ) (status : PaymentStatus) (subscription_id : ℕ) (st : Accounts)
    → Keeps st (sync_partner_referral now tenant_id status subscription_id st)
unfolding sync_partner_referral
sync_partner_referral-Keeps now tenant_id status subscription_id st =
    elim (Option-cases (referral_news status)) [
      | inl quiet ↦ rw (quiet, sync_partner_referral) (Keeps-all st)
      | inr (news, told) ↦ elim (Option-cases (find (is_referral_of tenant_id) st.referrals)) [
        | inl no_referral ↦ rw (told, no_referral, sync_partner_referral) (Keeps-all st)
        | inr (e, found) ↦
            rw (told, found, sync_partner_referral)
              (update_referral-Keeps now subscription_id e news st)
      ]
    ]

convert_promotion_reservation-Keeps :
    (now tenant_id checkout_id : ℕ) (st : Accounts)
    → Keeps st (convert_promotion_reservation now tenant_id checkout_id st)
unfolding convert_promotion_reservation
convert_promotion_reservation-Keeps now tenant_id checkout_id st =
    elim (Option-cases (find (is_reservation_of tenant_id checkout_id) st.reservations)) [
      | inl no_place ↦ rw (no_place, convert_promotion_reservation) (Keeps-all st)
      | inr (e, found) ↦
          rw (found, convert_promotion_reservation)
            (record { payments = refl; subscriptions = refl })
    ]

settle_checkout-Keeps :
    (n : PaymentNews) (reads : PaymentReads) (st : Accounts) → Keeps st (settle_checkout n reads st)
unfolding settle_checkout
settle_checkout-Keeps n reads st =
    elim (matching-cases (λ c. c.tenant_id == reads.checkout.tenant_id)
      (get reads.checkout_id st.checkouts)) [
        | inl gone ↦ rw (gone, settle_checkout) (Keeps-all st)
        | inr (c, _, _, found) ↦
            rw (found, settle_checkout) (record { payments = refl; subscriptions = refl })
      ]

finish_plan_changes-Keeps :
    (n : PaymentNews) (reads : PaymentReads) (st : Accounts)
    → Keeps st (finish_plan_changes n reads st)
unfolding finish_plan_changes
finish_plan_changes-Keeps n reads st = record { payments = refl; subscriptions = refl }

add_event-Keeps :
    (reads : PaymentReads) (type : BillingEventType) (st : Accounts)
    → Keeps st (add_event reads type st)
add_event-Keeps reads type st = record { payments = refl; subscriptions = refl }

-- a step that is taken or not
Keeps-if :
    (b : Bool) {st a : Accounts} {c : Accounts}
    → Keeps st a
    → Keeps st c
    → Keeps st (if b then a else c)
Keeps-if true k l = k
Keeps-if false k l = l

pub follow_payment-Keeps :
    (n : PaymentNews) (reads : PaymentReads) (st : Accounts) → Keeps st (follow_payment n reads st)
unfolding follow_payment
follow_payment-Keeps n reads st =
    let synced = Keeps-if (protects n.result reads) (Keeps-all st) (
      sync_partner_referral-Keeps n.now reads.checkout.tenant_id n.result.normalized_status
        reads.subscription_id st) in
    let converted =
      Keeps-if (activates n reads)
        (Keeps-both synced
          (convert_promotion_reservation-Keeps n.now reads.checkout.tenant_id reads.checkout_id _))
        synced in
    let settled = Keeps-both converted (settle_checkout-Keeps n reads _) in
    let changed =
      Keeps-if (activates n reads) (Keeps-both settled (finish_plan_changes-Keeps n reads _))
        settled in
    let told = Keeps-both changed (add_event-Keeps reads _ _) in
    Keeps-if (activates n reads) (Keeps-both told (add_event-Keeps reads _ _)) told
