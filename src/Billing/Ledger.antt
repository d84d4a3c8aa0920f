-- ===== src/Billing/Ledger.antt =====
-- The rows that a payment of a subscription is kept in, of prisma/schema.prisma.
use next_stock_oficial.Prelude.{ℕ, Bool, Option, List}
use next_stock_oficial.Billing.StateOrder.{PaymentStatus}
use next_stock_oficial.Billing.Plans.{PlanSlug}

pub data CheckoutSessionStatus : Type 0 where
  opened pending completed expired canceled failed : CheckoutSessionStatus

pub data BillingInvoiceStatus : Type 0 where
  opened pending paid overdue void refunded chargeback : BillingInvoiceStatus

pub record BillingPayment : Type 0 where
  pub tenant_id : ℕ
  pub subscription_id : ℕ
  pub plan_id : ℕ
  pub checkout_session_id : Option ℕ
  pub invoice_id : ℕ
  pub provider : ℕ
  pub gateway_payment_id : ℕ
  pub status : PaymentStatus
  pub amount_cents : ℕ
  pub currency : List ℕ
  pub paid_at : Option ℕ
  pub refunded_at : Option ℕ
  pub provider_occurred_at : Option ℕ
  pub version : ℕ

pub record BillingInvoice : Type 0 where
  pub tenant_id : ℕ
  pub subscription_id : ℕ
  pub plan_id : ℕ
  pub provider : ℕ
  pub gateway_invoice_id : ℕ
  pub status : BillingInvoiceStatus
  pub period_started_at : ℕ
  pub period_ends_at : Option ℕ
  pub amount_cents : ℕ
  pub currency : List ℕ
  pub paid_at : Option ℕ
  pub last_provider_event_at : Option ℕ
  pub last_payment_state : PaymentStatus

pub data PartnerPaymentStatus : Type 0 where
  unpaid paid refunded canceled : PartnerPaymentStatus

pub data PartnerReferralStatus : Type 0 where
  registered trialing converted canceled rejected : PartnerReferralStatus

pub record PartnerReferral : Type 0 where
  pub referred_tenant_id : ℕ
  pub status : PartnerReferralStatus
  pub payment_status : PartnerPaymentStatus
  pub converted_at : Option ℕ

-- a change of a referral's payment
pub record ReferralPaymentEvent : Type 0 where
  pub referral_id : ℕ
  pub previous_status : PartnerPaymentStatus
  pub new_status : PartnerPaymentStatus
  pub subscription_id : ℕ

pub data PromotionReservationStatus : Type 0 where
  reserved converted released expired canceled : PromotionReservationStatus

pub record PromotionReservation : Type 0 where
  pub campaign_id : ℕ
  pub tenant_id : ℕ
  pub checkout_session_id : Option ℕ
  pub idempotency_key : ℕ
  pub status : PromotionReservationStatus
  pub expires_at : ℕ
  pub converted_at : Option ℕ
  pub plan_slug : PlanSlug
  pub period_months : ℕ

pub data PromotionCampaignStatus : Type 0 where
  draft active closed exhausted : PromotionCampaignStatus

pub record PromotionCampaign : Type 0 where
  pub status : PromotionCampaignStatus
  pub starts_at : Option ℕ
  pub ends_at : Option ℕ
  pub max_conversions : ℕ
  pub reserved_count : ℕ
  pub converted_count : ℕ
  pub closed_at : Option ℕ
  pub limit_reached : Bool
