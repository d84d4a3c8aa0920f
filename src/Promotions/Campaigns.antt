-- ===== src/Promotions/Campaigns.antt =====
-- The places of a campaign of src/promotions/promotions.service.ts: how a tenant reserves one, and
-- how it is converted, released or lost. `convertPromotionReservation` of
-- src/billing/payments.service.ts takes a place by the same statement as `convertReservation`.
pub mod Manage
pub mod Places
pub mod Sound
pub mod Reserves
pub mod Moves
pub mod Paid
pub mod Steps
use next_stock_oficial.Prelude.{
  ℕ, ◌+◌, ◌-◌, ◌*◌, Bool, true, false, not, ◌&&◌, ◌||◌, Option, none, some, List, [], ◌∷◌, any,
  find, is_none, is_some, ltb, leb, ◌==◌, if◌then◌else◌,
}
use next_stock_oficial.Prelude.Result.{Result, ok, err, ◌>>=◌, ◌>>◌, throw_if}
use next_stock_oficial.Prelude.Table.{Table, get, put, matching, map_rows}
use next_stock_oficial.Billing.Plans.{PlanSlug, slug_eq}
use next_stock_oficial.Billing.Entitlement.{Subscription, is_trialing}
use next_stock_oficial.Billing.Ledger.{
  PromotionReservation, PromotionReservationStatus, PromotionCampaign, PromotionCampaignStatus,
  reserved, converted, released, active, closed, exhausted,
}
use next_stock_oficial.Billing.Payments.Referral.{take_place}

pub record Promotion : Type 0 where
  pub campaigns : Table PromotionCampaign
  pub reservations : Table PromotionReservation
  pub subscriptions : Table Subscription

pub data PromotionError : Type 0 where
  -- NotFoundException, of the reservation or the campaign
  not_found : PromotionError
  -- ConflictException with the code PROMOTION_RESERVATION_OFFER_MISMATCH
  offer_mismatch : PromotionError
  -- ConflictException('A reserva promocional já está sendo processada.')
  in_progress : PromotionError
  -- GoneException('A campanha promocional está encerrada ou sem vagas.')
  no_place : PromotionError
  -- ConflictException('A reserva promocional não está mais válida.')
  no_longer_valid : PromotionError
  -- ConflictException('O total de vagas não pode ser menor ...')
  too_few_places : PromotionError
  -- ConflictException('Campanha esgotada não pode ser reativada.')
  is_exhausted : PromotionError
  -- a unique index, code P2002
  unique_violation : PromotionError

-- an eligible request, with its offer, the clock and the key of a new row
pub record ReserveRequest : Type 0 where
  pub campaign_id : ℕ
  pub tenant_id : ℕ
  pub idempotency_key : ℕ
  pub plan_slug : PlanSlug
  pub period_months : ℕ
  pub trial_days : ℕ
  pub now : ℕ
  pub new_id : ℕ

abbrev pub is_reserved : PromotionReservation → Bool
is_reserved r = elim r.status [ reserved ↦ true | _ ↦ false ]

abbrev pub is_converted : PromotionReservation → Bool
is_converted r = elim r.status [ converted ↦ true | _ ↦ false ]

-- RELEASED, EXPIRED, or RESERVED up to now
abbrev pub is_recyclable : ℕ → PromotionReservation → Bool
is_recyclable now r = elim r.status [
  | released ↦ true
  | PromotionReservationStatus.expired ↦ true
  | reserved ↦ leb r.expires_at now
  | _ ↦ false
]

-- CONVERTED, or RESERVED for longer
abbrev is_in_force : ℕ → PromotionReservation → Bool
is_in_force now r = is_converted r || (is_reserved r && ltb now r.expires_at)

-- `assertReservationOffer`
abbrev is_for_offer : ReserveRequest → PromotionReservation → Bool
is_for_offer q r = slug_eq r.plan_slug q.plan_slug && r.period_months == q.period_months

-- DEFAULT_RESERVATION_TTL_MS
abbrev pub new_reservation : ReserveRequest → PromotionReservation
new_reservation q = record {
  campaign_id = q.campaign_id;
  tenant_id = q.tenant_id;
  checkout_session_id = none;
  idempotency_key = q.idempotency_key;
  status = reserved;
  expires_at = q.now + 1800000;
  converted_at = none;
  plan_slug = q.plan_slug;
  period_months = q.period_months;
}

abbrev pub recycled : ReserveRequest → PromotionReservation → PromotionReservation
recycled q r = record r {
  idempotency_key = q.idempotency_key;
  status = reserved;
  expires_at = q.now + 1800000;
  converted_at = none;
  plan_slug = q.plan_slug;
  period_months = q.period_months;
}

abbrev has_begun : ℕ → Option ℕ → Bool
has_begun now none = true
has_begun now (some t) = leb t now

abbrev has_not_ended : ℕ → Option ℕ → Bool
has_not_ended now none = true
has_not_ended now (some t) = ltb now t

abbrev pub is_active_campaign : PromotionCampaignStatus → Bool
is_active_campaign active = true
is_active_campaign _ = false

-- the `WHERE` of the statement that claims a place
abbrev pub has_place : ℕ → PromotionCampaign → Bool
has_place now c =
    is_active_campaign c.status
    && has_begun now c.starts_at
    && has_not_ended now c.ends_at
    && ltb (c.converted_count + c.reserved_count) c.max_conversions

unfoldable pub claim_place : ReserveRequest → Promotion → Result PromotionError Promotion
claim_place q st = elim (matching (has_place q.now) (get q.campaign_id st.campaigns)) [
  | none ↦ err no_place
  | some c ↦ ok (record st {
    campaigns = put q.campaign_id (record c { reserved_count = c.reserved_count + 1 }) st.campaigns;
  })
]

abbrev start_trial : ReserveRequest → ℕ → Subscription → Subscription
start_trial q id s =
    if s.tenant_id == q.tenant_id && is_trialing s.status
    then record s {
      trial_ends_at = some (q.now + q.trial_days * 86400000);
      version = s.version + 1;
    }
    else s

-- `setPromotionalTrial`
unfoldable pub set_promotional_trial : ReserveRequest → Promotion → Promotion
set_promotional_trial q st = record st { subscriptions = map_rows (start_trial q) st.subscriptions }

-- another reservation of the campaign by the tenant, or under the idempotency key
abbrev pub clashes : ReserveRequest → ℕ × PromotionReservation → Bool
clashes q e =
    e.1.campaign_id == q.campaign_id
    && (e.1.tenant_id == q.tenant_id || e.1.idempotency_key == q.idempotency_key)

-- the same key in another row
abbrev pub takes_key : ReserveRequest → ℕ → ℕ × PromotionReservation → Bool
takes_key q id e =
    not (e.0 == id) && e.1.campaign_id == q.campaign_id && e.1.idempotency_key == q.idempotency_key

-- the transaction for a tenant that has no reservation
unfoldable pub reserve_new : ReserveRequest → Promotion → Result PromotionError Promotion
unfolding claim_place set_promotional_trial
reserve_new q st = do
  claimed ← claim_place q st
  throw_if (is_some (get q.new_id claimed.reservations) || any (clashes q) claimed.reservations)
      unique_violation
  ok (
      set_promotional_trial q
        (record claimed { reservations = put q.new_id (new_reservation q) claimed.reservations }))

-- where the row is no longer what was read: it may be in force by now
unfoldable pub answer_current : ReserveRequest → ℕ → Promotion → Result PromotionError Promotion
answer_current q id st = elim (matching (is_in_force q.now) (get id st.reservations)) [
  | none ↦ err in_progress
  | some r ↦ if is_for_offer q r then ok st else err offer_mismatch
]

-- the transaction for a tenant whose reservation, of the key `id`, was found lapsed
unfoldable pub reserve_again : ReserveRequest → ℕ → Promotion → Result PromotionError Promotion
unfolding answer_current claim_place set_promotional_trial
reserve_again q id st = elim (matching (is_recyclable q.now) (get id st.reservations)) [
  | none ↦ answer_current q id st
  | some r ↦ do
    throw_if (any (takes_key q id) st.reservations) unique_violation
    claimed ← claim_place q (record st { reservations = put id (recycled q r) st.reservations })
    ok (set_promotional_trial q claimed)
]
