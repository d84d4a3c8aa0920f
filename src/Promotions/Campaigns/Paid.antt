-- ===== src/Promotions/Campaigns/Paid.antt =====
-- The link of a reservation to its checkout, of src/billing/checkout.service.ts.
-- What `convertPromotionReservation` of src/billing/payments.service.ts makes of the places of a
-- campaign, when the checkout that holds one is paid.
use next_stock_oficial.Prelude.{
  ℕ, ◌≡◌, ◌≢◌, refl, ◌∙◌, sym, ap, true, false, Bool, none, some, find, arith, inl, inr,
  Option-cases, Option, is_none, ◌&&◌, ◌==◌,
}
use next_stock_oficial.Prelude.Table.{get, put, matching, matching-cases}
use next_stock_oficial.Prelude.Table.Distinct.{distinct}
use next_stock_oficial.Prelude.Table.Find.{get-find, find-meets}
use next_stock_oficial.Billing.Ledger.{PromotionReservation, PromotionReservationStatus}
use next_stock_oficial.Billing.Subscriptions.{Accounts}
use next_stock_oficial.Billing.Payments.Referral.{
  take_place, is_reservation_of, convert_promotion_reservation,
}
use next_stock_oficial.Promotions.Campaigns.{Promotion, is_reserved, is_converted}
use next_stock_oficial.Promotions.Campaigns.Manage.{rows_in}
use next_stock_oficial.Promotions.Campaigns.Places.{bit, rows_in-put-some, holds_place, took_place}
use next_stock_oficial.Promotions.Campaigns.Sound.{IsSound, IsSound-move}
use next_stock_oficial.Promotions.Campaigns.Moves.{take_place_reserved, counted}

-- The checkout that a reservation is for is written once, where its tenant holds the place; `none`
-- is the conflict, which ends the transaction of the checkout. The claim token that is cleared with
-- it is not in the model.
abbrev is_unlinked : ℕ → PromotionReservation → Bool
is_unlinked tenant_id r = r.tenant_id == tenant_id && is_reserved r && is_none r.checkout_session_id

unfoldable pub link_reservation : ℕ → ℕ → ℕ → Promotion → Option Promotion
link_reservation id tenant_id checkout_id st =
    elim (matching (is_unlinked tenant_id) (get id st.reservations)) [
      | none ↦ none
      | some r ↦ some (record st {
        reservations = put id (record r { checkout_session_id = some checkout_id }) st.reservations;
      })
    ]

-- the tables of the campaigns among all the tables
abbrev pub promotion_in : Accounts → Promotion
promotion_in a = record {
  campaigns = a.campaigns;
  reservations = a.reservations;
  subscriptions = a.subscriptions;
}

-- a row is written over one of which a test says the same
rows_in_alike :
    (q : PromotionReservation → Bool) (k : ℕ) (a b : PromotionReservation) (st st' : Promotion)
    → get k st.reservations ≡ some a
    → st'.reservations ≡ put k b st.reservations
    → q a ≡ q b
    → rows_in q st'.reservations ≡ rows_in q st.reservations
rows_in_alike q k a b st st' row rows same =
    ap (rows_in q) rows ∙ omega (arith, rows_in-put-some q k a b st.reservations row, ap bit same)

-- a row of a campaign that is not there is written, as another row of it
IsSound-orphan :
    (c k : ℕ) (a b : PromotionReservation) (st st' : Promotion)
    → IsSound st
    → get k st.reservations ≡ some a
    → a.campaign_id ≡ c
    → b.campaign_id ≡ c
    → get c st.campaigns ≡ none
    → st'.reservations ≡ put k b st.reservations
    → st'.campaigns ≡ st.campaigns
    → IsSound st'
IsSound-orphan c k a b st st' sound row of_a of_b gone rows kept x p there =
    let before : get x st.campaigns ≡ some p = ap (get x) (sym kept) ∙ there in
    let old = sound x p before in
    let other : c ≢ x = λ is. ground (arith, gone, before, ap (λ i. get i st.campaigns) is) in
    let held =
      rows_in_alike (holds_place x) k a b st st' row rows (ground (arith, of_a, of_b, other)) in
    let taken =
      rows_in_alike (took_place x) k a b st st' row rows (ground (arith, of_a, of_b, other)) in
    record { held = omega (arith, held, old.held); taken = taken ∙ old.taken; enough = old.enough }

reserved_row :
    (tenant_id checkout_id id : ℕ) (r : PromotionReservation)
    → is_reservation_of tenant_id checkout_id (id, r) ≡ true
    → (is_reserved r ≡ true) × (is_converted r ≡ false)
reserved_row tenant_id checkout_id id r h = (ground (arith, h), ground (arith, h))

pub convert_promotion_reservation-IsSound :
    (now tenant_id checkout_id : ℕ) (a : Accounts)
    → distinct a.reservations ≡ true
    → IsSound (promotion_in a)
    → IsSound (promotion_in (convert_promotion_reservation now tenant_id checkout_id a))
unfolding convert_promotion_reservation
convert_promotion_reservation-IsSound now tenant_id checkout_id a d sound =
    let st = promotion_in a in
    let st' = promotion_in (convert_promotion_reservation now tenant_id checkout_id a) in
    elim (Option-cases (find (is_reservation_of tenant_id checkout_id) a.reservations)) [
      | inl missing ↦ rw (missing, convert_promotion_reservation) sound
      | inr ((id, r), found) ↦
          let row = get-find (is_reservation_of tenant_id checkout_id) a.reservations d found in
          let (held, fresh) =
            reserved_row tenant_id checkout_id id r
              (find-meets (is_reservation_of tenant_id checkout_id) a.reservations found) in
          let b = record r {
            status = PromotionReservationStatus.converted;
            converted_at = some now;
          } in
          elim (Option-cases (get r.campaign_id a.campaigns)) [
            | inl gone ↦
                IsSound-orphan r.campaign_id id r b st st' sound row refl refl gone
                  (ground (arith, found)) (ground (arith, found, gone))
            | inr (p, there) ↦
                let some_place = counted id r p st sound row held there in
                let (less, more, limit) = take_place_reserved now p in
                IsSound-move r.campaign_id id r b p (take_place now p) st st' sound row refl refl
                  there (ground (arith, found)) (ground (arith, found, there))
                  (omega (arith, less, some_place, ap bit held)) (omega (arith, more, ap bit fresh))
                  (omega
                    (arith, less, more, limit, some_place, (sound r.campaign_id p there).enough))
          ]
    ]

pub link_reservation-IsSound :
    (id tenant_id checkout_id : ℕ) (st : Promotion) {st' : Promotion}
    → IsSound st
    → link_reservation id tenant_id checkout_id st ≡ some st'
    → IsSound st'
unfolding link_reservation
link_reservation-IsSound id tenant_id checkout_id st {st'} sound h =
    elim (matching-cases (is_unlinked tenant_id) (get id st.reservations)) [
      | inl other ↦ absurd (ground (arith, other, h))
      | inr (r, row, _, matched) ↦
          let b = record r { checkout_session_id = some checkout_id } in
          let rows : st'.reservations ≡ put id b st.reservations = ground (arith, matched, h) in
          let kept : st'.campaigns ≡ st.campaigns = ground (arith, matched, h) in
          λ x p there.
            let old = sound x p (ap (get x) (sym kept) ∙ there) in
            let held = rows_in_alike (holds_place x) id r b st st' row rows refl in
            let taken = rows_in_alike (took_place x) id r b st st' row rows refl in
            record {
              held = omega (arith, held, old.held);
              taken = taken ∙ old.taken;
              enough = old.enough;
            }
    ]
