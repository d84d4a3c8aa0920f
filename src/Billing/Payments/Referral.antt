-- ===== src/Billing/Payments/Referral.antt =====
-- `syncPartnerReferral` and `convertPromotionReservation` of src/billing/payments.service.ts: what a
-- payment makes of the referral that brought the tenant, and of the place that it holds in a
-- promotion.
use next_stock_oficial.Prelude.{
  ℕ, ◌+◌, ◌-◌, Bool, true, false, ◌&&◌, Option, none, some, ◌∷◌, find, eq_option, leb, ◌==◌,
  if◌then◌else◌,
}
use next_stock_oficial.Prelude.Table.{get, put}
use next_stock_oficial.Billing.StateOrder.{PaymentStatus}
use next_stock_oficial.Billing.Ledger.{
  PartnerReferral, PartnerPaymentStatus, PartnerReferralStatus, PromotionCampaign,
  PromotionCampaignStatus, PromotionReservation, PromotionReservationStatus,
}
use next_stock_oficial.Billing.Subscriptions.{Accounts}

abbrev same_payment : PartnerPaymentStatus → PartnerPaymentStatus → Bool
same_payment PartnerPaymentStatus.unpaid PartnerPaymentStatus.unpaid = true
same_payment PartnerPaymentStatus.paid PartnerPaymentStatus.paid = true
same_payment PartnerPaymentStatus.refunded PartnerPaymentStatus.refunded = true
same_payment PartnerPaymentStatus.canceled PartnerPaymentStatus.canceled = true
same_payment _ _ = false

abbrev same_referral : PartnerReferralStatus → PartnerReferralStatus → Bool
same_referral PartnerReferralStatus.registered PartnerReferralStatus.registered = true
same_referral PartnerReferralStatus.trialing PartnerReferralStatus.trialing = true
same_referral PartnerReferralStatus.converted PartnerReferralStatus.converted = true
same_referral PartnerReferralStatus.canceled PartnerReferralStatus.canceled = true
same_referral PartnerReferralStatus.rejected PartnerReferralStatus.rejected = true
same_referral _ _ = false

-- what a status of the payment says of the referral
unfoldable pub referral_news : PaymentStatus → Option (PartnerPaymentStatus × PartnerReferralStatus)
referral_news PaymentStatus.approved =
    some (PartnerPaymentStatus.paid, PartnerReferralStatus.converted)
referral_news PaymentStatus.refunded =
    some (PartnerPaymentStatus.refunded, PartnerReferralStatus.registered)
referral_news PaymentStatus.chargeback =
    some (PartnerPaymentStatus.refunded, PartnerReferralStatus.registered)
referral_news PaymentStatus.canceled =
    some (PartnerPaymentStatus.canceled, PartnerReferralStatus.canceled)
referral_news _ = none

-- `a ?? b`, of a time
abbrev pub or_now : Option ℕ → ℕ → ℕ
or_now none now = now
or_now (some t) now = t

abbrev converted_time : ℕ → PartnerPaymentStatus → Option ℕ → Option ℕ
converted_time now PartnerPaymentStatus.paid before = some (or_now before now)
converted_time now _ before = before

-- the update of a referral, with its event, where the news changes it
unfoldable pub update_referral :
    ℕ → ℕ → ℕ × PartnerReferral → PartnerPaymentStatus × PartnerReferralStatus → Accounts → Accounts
update_referral now subscription_id e news st =
    if same_payment e.1.payment_status news.0 && same_referral e.1.status news.1
    then st
    else record st {
      referrals =
          put e.0
            (record e.1 {
              payment_status = news.0;
              status = news.1;
              converted_at = converted_time now news.0 e.1.converted_at;
            })
            st.referrals;
      referral_events =
          record {
            referral_id = e.0;
            previous_status = e.1.payment_status;
            new_status = news.0;
            subscription_id = subscription_id;
          }
          ∷ st.referral_events;
    }

abbrev pub is_referral_of : ℕ → ℕ × PartnerReferral → Bool
is_referral_of tenant_id e = e.1.referred_tenant_id == tenant_id

-- Its conditional update tests what the same transaction has read, and is taken to hold.
unfoldable pub sync_partner_referral : ℕ → ℕ → PaymentStatus → ℕ → Accounts → Accounts
unfolding referral_news update_referral
sync_partner_referral now tenant_id status subscription_id st = elim (referral_news status) [
  | none ↦ st
  | some news ↦ elim (find (is_referral_of tenant_id) st.referrals) [
    | none ↦ st
    | some e ↦ update_referral now subscription_id e news st
  ]
]

abbrev is_reserved : PromotionReservationStatus → Bool
is_reserved PromotionReservationStatus.reserved = true
is_reserved _ = false

-- `where: { tenantId, checkoutSessionId, status: RESERVED }`
abbrev pub is_reservation_of : ℕ → ℕ → ℕ × PromotionReservation → Bool
is_reservation_of tenant_id checkout_id e =
    e.1.tenant_id == tenant_id
    && eq_option e.1.checkout_session_id (some checkout_id)
    && is_reserved e.1.status

-- the statement on a campaign: one place is no longer reserved, but taken
unfoldable pub take_place : ℕ → PromotionCampaign → PromotionCampaign
take_place now c =
    let is_full = leb c.max_conversions (c.converted_count + 1) in
    record c {
      reserved_count = c.reserved_count - 1;
      converted_count = c.converted_count + 1;
      status = if is_full then PromotionCampaignStatus.exhausted else c.status;
      closed_at = if is_full then some (or_now c.closed_at now) else c.closed_at;
      limit_reached = if is_full then true else c.limit_reached;
    }

unfoldable pub convert_promotion_reservation : ℕ → ℕ → ℕ → Accounts → Accounts
unfolding take_place
convert_promotion_reservation now tenant_id checkout_id st =
    elim (find (is_reservation_of tenant_id checkout_id) st.reservations) [
      | none ↦ st
      | some e ↦ record st {
        reservations =
            put e.0
              (record e.1 {
                status = PromotionReservationStatus.converted;
                converted_at = some now;
              })
              st.reservations;
        campaigns = elim (get e.1.campaign_id st.campaigns) [
          | none ↦ st.campaigns
          | some c ↦ put e.1.campaign_id (take_place now c) st.campaigns
        ];
      }
    ]
