-- ===== src/Promotions/Campaigns/Manage.antt =====
-- What becomes of a place of a campaign, and of the campaign: the other operations of
-- src/promotions/promotions.service.ts.
use next_stock_oficial.Prelude.{
  ℕ, ◌+◌, ◌-◌, Bool, true, false, not, ◌&&◌, Option, none, some, [], ◌∷◌, ltb, leb, ◌==◌,
  if◌then◌else◌,
}
use next_stock_oficial.Prelude.Result.{Result, ok, err}
use next_stock_oficial.Prelude.Table.{Table, get, put, matching, map_rows}
use next_stock_oficial.Billing.Ledger.{
  PromotionReservation, PromotionReservationStatus, PromotionCampaign, converted, released, active,
  exhausted,
}
use next_stock_oficial.Billing.Payments.Referral.{take_place}
use next_stock_oficial.Promotions.Campaigns.{
  Promotion, PromotionError, not_found, no_longer_valid, too_few_places, is_exhausted, is_reserved,
  is_converted, is_active_campaign,
}

-- `convertReservation`
unfoldable pub convert_reservation : ℕ → ℕ → Promotion → Result PromotionError Promotion
unfolding take_place
convert_reservation id now st = elim (get id st.reservations) [
  | none ↦ err not_found
  | some r ↦
      if is_converted r
      then ok st
      else if not (is_reserved r && ltb now r.expires_at)
      then err no_longer_valid
      else elim (get r.campaign_id st.campaigns) [
        | none ↦ err not_found
        | some c ↦ ok (record st {
          reservations =
              put id (record r { status = converted; converted_at = some now }) st.reservations;
          campaigns = put r.campaign_id (take_place now c) st.campaigns;
        })
      ]
]

-- `reservedCount: { gt: 0 }` and its decrement
abbrev pub give_place : PromotionCampaign → PromotionCampaign
give_place c =
    if c.reserved_count == 0 then c else record c { reserved_count = c.reserved_count - 1 }

-- `releaseReservation`, which does nothing to a reservation in another state
unfoldable pub release_reservation : ℕ → Promotion → Result PromotionError Promotion
release_reservation id st = elim (matching is_reserved (get id st.reservations)) [
  | none ↦ ok st
  | some r ↦ elim (get r.campaign_id st.campaigns) [
    | none ↦ err not_found
    | some c ↦ ok (record st {
      reservations = put id (record r { status = released }) st.reservations;
      campaigns = put r.campaign_id (give_place c) st.campaigns;
    })
  ]
]

abbrev pub is_lapsed : ℕ → ℕ → PromotionReservation → Bool
is_lapsed campaign_id now r =
    r.campaign_id == campaign_id && (is_reserved r && leb r.expires_at now)

abbrev pub lapse : ℕ → ℕ → ℕ → PromotionReservation → PromotionReservation
lapse campaign_id now id r =
    if is_lapsed campaign_id now r
    then record r { status = PromotionReservationStatus.expired }
    else r

-- the rows that pass a test
unfoldable pub rows_in {ℓ} : {A : Type ℓ} → (A → Bool) → Table A → ℕ
rows_in q [] = 0
rows_in q (e ∷ rows) = (if q e.1 then 1 else 0) + rows_in q rows

abbrev pub give_places : ℕ → PromotionCampaign → PromotionCampaign
give_places n c =
    if leb n c.reserved_count then record c { reserved_count = c.reserved_count - n } else c

-- `expireReservations`
unfoldable pub expire_reservations : ℕ → ℕ → Promotion → Promotion
unfolding rows_in
expire_reservations campaign_id now st =
    let n = rows_in (is_lapsed campaign_id now) st.reservations in
    record st {
      reservations = map_rows (lapse campaign_id now) st.reservations;
      campaigns = elim (get campaign_id st.campaigns) [
        | none ↦ st.campaigns
        | some c ↦ put campaign_id (give_places n c) st.campaigns
      ];
    }

abbrev pub or_else : Option ℕ → ℕ → Option ℕ
or_else none now = some now
or_else (some t) now = some t

-- `activate`
unfoldable pub activate : ℕ → ℕ → Promotion → Result PromotionError Promotion
activate campaign_id now st = elim (get campaign_id st.campaigns) [
  | none ↦ err not_found
  | some c ↦
      if elim c.status [ exhausted ↦ true | _ ↦ false ]
      then err is_exhausted
      else ok (record st {
        campaigns =
            put campaign_id
              (record c {
                status = active;
                closed_at = none;
                limit_reached = false;
                starts_at = or_else c.starts_at now;
              })
              st.campaigns;
      })
]

-- the transaction of `updateCapacity`, on the campaign that it has locked
unfoldable pub resize : ℕ → ℕ → PromotionCampaign → PromotionCampaign
resize places now c =
    let occupied = c.converted_count + c.reserved_count in
    if (elim c.status [ exhausted ↦ true | _ ↦ false ]) && ltb occupied places
    then record c {
      max_conversions = places;
      status = active;
      closed_at = none;
      limit_reached = false;
    }
    else if is_active_campaign c.status && leb places c.converted_count
    then record c {
      max_conversions = places;
      status = exhausted;
      closed_at = some now;
      limit_reached = true;
    }
    else record c { max_conversions = places }

unfoldable pub update_capacity : ℕ → ℕ → ℕ → Promotion → Result PromotionError Promotion
unfolding resize
update_capacity campaign_id places now st = elim (get campaign_id st.campaigns) [
  | none ↦ err not_found
  | some c ↦
      if ltb places (c.converted_count + c.reserved_count)
      then err too_few_places
      else ok (record st { campaigns = put campaign_id (resize places now c) st.campaigns })
]
