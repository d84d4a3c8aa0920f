-- ===== src/Promotions/Campaigns/Moves.antt =====
-- What becomes of the counters of a campaign when a place is converted, released or lost, or when
-- the campaign changes.
use next_stock_oficial.Prelude.{
  ℕ, ◌+◌, ◌-◌, ◌≤◌, ◌≡◌, ◌≢◌, refl, ◌∙◌, sym, ap, subst, true, false, ◌&&◌, none, some, ltb, arith,
  inl, inr, Bool-cases, Option-cases,
}
use next_stock_oficial.Prelude.Result.{ok, ok-injective}
use next_stock_oficial.Prelude.Table.{Table, get, put, map_rows, matching-cases}
use next_stock_oficial.Billing.Ledger.{
  PromotionReservation, PromotionReservationStatus, PromotionCampaign, PromotionCampaignStatus,
}
use next_stock_oficial.Billing.Payments.Referral.{take_place}
use next_stock_oficial.Promotions.Campaigns.{Promotion, is_reserved, is_converted}
use next_stock_oficial.Promotions.Campaigns.Manage.{
  is_lapsed, lapse, rows_in, convert_reservation, release_reservation, expire_reservations,
  activate, update_capacity, resize, give_place, give_places, or_else,
}
use next_stock_oficial.Promotions.Campaigns.Places.{bit, rows_in-get, holds_place, rows_in-lapse}
use next_stock_oficial.Promotions.Campaigns.Sound.{IsSound, IsSound-put, IsSound-move, IsSound-keep}

pub take_place_reserved :
    (now : ℕ) (p : PromotionCampaign)
    → ((take_place now p).reserved_count ≡ p.reserved_count - 1)
      × ((take_place now p).converted_count ≡ p.converted_count + 1)
      × ((take_place now p).max_conversions ≡ p.max_conversions)
unfolding take_place
take_place_reserved now p = (refl, refl, refl)

-- a reservation that holds a place of its campaign is counted there
pub counted :
    (id : ℕ) (r : PromotionReservation) (p : PromotionCampaign) (st : Promotion)
    → IsSound st
    → get id st.reservations ≡ some r
    → is_reserved r ≡ true
    → get r.campaign_id st.campaigns ≡ some p
    → 1 ≤ p.reserved_count
counted id r p st sound row held there = omega (
  arith,
  rows_in-get (holds_place r.campaign_id) id r st.reservations row (ground (arith, held)),
  (sound r.campaign_id p there).held,
)

pub convert_reservation-IsSound :
    (id now : ℕ) (st : Promotion) {st' : Promotion}
    → IsSound st
    → convert_reservation id now st ≡ ok st'
    → IsSound st'
unfolding convert_reservation
convert_reservation-IsSound id now st {st'} sound h = elim (Option-cases (get id st.reservations)) [
  | inl missing ↦ absurd (ground (arith, missing, h))
  | inr (r, row) ↦ elim (Bool-cases (is_converted r)) [
    | inl done ↦ let same : st ≡ st' = ground (arith, row, done, h) in subst IsSound same sound
    | inr fresh ↦ elim (Bool-cases (is_reserved r && ltb now r.expires_at)) [
      | inr lapsed ↦ absurd (ground (arith, row, fresh, lapsed, h))
      | inl valid ↦ elim (Option-cases (get r.campaign_id st.campaigns)) [
        | inl gone ↦ absurd (ground (arith, row, fresh, valid, gone, h))
        | inr (p, there) ↦
            let held : is_reserved r ≡ true = ground (arith, valid) in
            let some_place = counted id r p st sound row held there in
            let b = record r {
              status = PromotionReservationStatus.converted;
              converted_at = some now;
            } in
            let is = ok-injective (rw (row, fresh, valid, there, convert_reservation) at h) in
            let (less, more, limit) = take_place_reserved now p in
            IsSound-move r.campaign_id id r b p (take_place now p) st st' sound row refl refl there
              (ap (λ x. x.reservations) (sym is)) (ap (λ x. x.campaigns) (sym is))
              (omega (arith, less, some_place, ap bit held)) (omega (arith, more, ap bit fresh))
              (omega (arith, less, more, limit, some_place, (sound r.campaign_id p there).enough))
      ]
    ]
  ]
]

pub release_reservation-IsSound :
    (id : ℕ) (st : Promotion) {st' : Promotion}
    → IsSound st
    → release_reservation id st ≡ ok st'
    → IsSound st'
unfolding release_reservation
release_reservation-IsSound id st {st'} sound h =
    elim (matching-cases is_reserved (get id st.reservations)) [
      | inl other ↦ let same : st ≡ st' = ground (arith, other, h) in subst IsSound same sound
      | inr (r, row, held, matched) ↦ elim (Option-cases (get r.campaign_id st.campaigns)) [
        | inl gone ↦ absurd (ground (arith, matched, gone, h))
        | inr (p, there) ↦
            let some_place = counted id r p st sound row held there in
            let b = record r { status = PromotionReservationStatus.released } in
            let is = ok-injective (rw (matched, there, release_reservation) at h) in
            let enough = (sound r.campaign_id p there).enough in
            IsSound-move r.campaign_id id r b p (give_place p) st st' sound row refl refl there
              (ap (λ x. x.reservations) (sym is)) (ap (λ x. x.campaigns) (sym is))
              (ground (arith, some_place, held)) (ground (arith, held)) (ground (arith, enough))
      ]
    ]

-- the places of the rows that lapse, of the campaign itself
lapsed_places :
    (c now : ℕ) (rows : Table PromotionReservation)
    → rows_in (holds_place c) (map_rows (lapse c now) rows) + rows_in (is_lapsed c now) rows
      ≡ rows_in (holds_place c) rows
lapsed_places c now rows = ground (arith, (rows_in-lapse c c now rows).1)

-- the rows of another campaign do not lapse
lapsed_elsewhere :
    (c x now : ℕ) (rows : Table PromotionReservation)
    → x ≢ c
    → rows_in (holds_place x) (map_rows (lapse c now) rows) ≡ rows_in (holds_place x) rows
lapsed_elsewhere c x now rows other = ground (arith, (rows_in-lapse x c now rows).1, other)

give_places_fit :
    (n held : ℕ) (p : PromotionCampaign)
    → held + n ≤ p.reserved_count
    → (held ≤ (give_places n p).reserved_count)
      × ((give_places n p).reserved_count ≤ p.reserved_count)
give_places_fit n held p le = (ground (arith, le), ground (arith, le))

pub expire_reservations-IsSound :
    (c now : ℕ) (st : Promotion) → IsSound st → IsSound (expire_reservations c now st)
unfolding expire_reservations
expire_reservations-IsSound c now st sound = elim (Option-cases (get c st.campaigns)) [
  | inr (d, found) ↦
      let n = rows_in (is_lapsed c now) st.reservations in
      let old = sound c d found in
      let freed = lapsed_places c now st.reservations in
      let (held, less) =
        give_places_fit n (rows_in (holds_place c) (map_rows (lapse c now) st.reservations)) d
          (omega (arith, freed, old.held)) in
      let taken : (give_places n d).converted_count ≡ d.converted_count = ground arith in
      let limit : (give_places n d).max_conversions ≡ d.max_conversions = ground arith in
      IsSound-put c (give_places n d) st (expire_reservations c now st) sound
        (ground (arith, found))
        (record {
          held = held;
          taken = (rows_in-lapse c c now st.reservations).0 ∙ old.taken ∙ sym taken;
          enough = omega (arith, less, taken, limit, old.enough);
        })
        (λ x other. (
          lapsed_elsewhere c x now st.reservations other,
          (rows_in-lapse x c now st.reservations).0,
        ))
  | inl gone ↦ λ x p there.
      let row : get x st.campaigns ≡ some p = ground (arith, gone, there) in
      let old = sound x p row in
      let (took, held) = rows_in-lapse x c now st.reservations in
      record { held = omega (arith, held, old.held); taken = took ∙ old.taken; enough = old.enough }
]

pub activate-IsSound :
    (c now : ℕ) (st : Promotion) {st' : Promotion}
    → IsSound st
    → activate c now st ≡ ok st'
    → IsSound st'
unfolding activate
activate-IsSound c now st {st'} sound h = elim (Option-cases (get c st.campaigns)) [
  | inl gone ↦ absurd (ground (arith, gone, h))
  | inr (p, there) ↦
      let p' = record p {
        status = PromotionCampaignStatus.active;
        closed_at = none;
        limit_reached = false;
        starts_at = or_else p.starts_at now;
      } in
      let is : record st { campaigns = put c p' st.campaigns } ≡ st' = ground (arith, there, h) in
      IsSound-keep c p p' st st' sound there (ap (λ x. x.reservations) (sym is))
        (ap (λ x. x.campaigns) (sym is)) refl refl (sound c p there).enough
]

resize_counts :
    (places now : ℕ) (p : PromotionCampaign)
    → ((resize places now p).reserved_count ≡ p.reserved_count)
      × ((resize places now p).converted_count ≡ p.converted_count)
      × ((resize places now p).max_conversions ≡ places)
unfolding resize
resize_counts places now p = (ground arith, ground arith, ground arith)

pub update_capacity-IsSound :
    (c places now : ℕ) (st : Promotion) {st' : Promotion}
    → IsSound st
    → update_capacity c places now st ≡ ok st'
    → IsSound st'
unfolding update_capacity
update_capacity-IsSound c places now st {st'} sound h = elim (Option-cases (get c st.campaigns)) [
  | inl gone ↦ absurd (ground (arith, gone, h))
  | inr (p, there) ↦ elim (Bool-cases (ltb places (p.converted_count + p.reserved_count))) [
    | inl few ↦ absurd (ground (arith, there, few, h))
    | inr many ↦
        let is = ok-injective (rw (there, many, update_capacity) at h) in
        let (held, taken, limit) = resize_counts places now p in
        let room : p.converted_count + p.reserved_count ≤ places = ground (arith, many) in
        IsSound-keep c p (resize places now p) st st' sound there
          (ap (λ x. x.reservations) (sym is)) (ap (λ x. x.campaigns) (sym is)) held taken
          (omega (arith, held, taken, limit, room))
  ]
]
