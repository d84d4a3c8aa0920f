-- ===== src/Promotions/Campaigns/Reserves.antt =====
-- What a reservation makes of the counters of its campaign: `reserveForTenant` of
-- src/promotions/promotions.service.ts.
use next_stock_oficial.Prelude.{
  ℕ, ◌+◌, ◌≤◌, ◌≡◌, refl, ◌∙◌, sym, ap, subst, ◌||◌, none, some, any, is_some, arith, inl, inr,
}
use next_stock_oficial.Prelude.Result.{ok, throw_if, >>=-eq-ok, throw_if_ok, ok-injective}
use next_stock_oficial.Prelude.Table.{get, put, matching-cases}
use next_stock_oficial.Billing.Ledger.{PromotionReservation, PromotionCampaign}
use next_stock_oficial.Promotions.Campaigns.{
  Promotion, ReserveRequest, is_recyclable, has_place, claim_place, set_promotional_trial,
  reserve_new, reserve_again, answer_current, recycled, new_reservation, clashes, takes_key,
  unique_violation,
}
use next_stock_oficial.Promotions.Campaigns.Sound.{IsSound, IsSound-move, IsSound-add}

-- what a claim of a place does
claim_place_ok :
    (q : ReserveRequest) (st : Promotion) {st' : Promotion}
    → claim_place q st ≡ ok st'
    → (p : PromotionCampaign) × (get q.campaign_id st.campaigns ≡ some p)
      × (p.converted_count + p.reserved_count + 1 ≤ p.max_conversions)
      × (st' ≡ record st {
        campaigns =
            put q.campaign_id (record p { reserved_count = p.reserved_count + 1 }) st.campaigns;
      })
unfolding claim_place
claim_place_ok q st h = elim (matching-cases (has_place q.now) (get q.campaign_id st.campaigns)) [
  | inl full ↦ absurd (ground (arith, full, h))
  | inr (p, there, fits, matched) ↦ (p, there, ground (arith, fits), ground (arith, matched, h))
]

pub reserve_new-IsSound :
    (q : ReserveRequest) (st : Promotion) {st' : Promotion}
    → IsSound st
    → reserve_new q st ≡ ok st'
    → IsSound st'
unfolding reserve_new set_promotional_trial
reserve_new-IsSound q st {st'} sound h =
    let (claimed, h1, k1) = >>=-eq-ok (claim_place q st) _ h in
    let (_, h2, k2) =
      >>=-eq-ok
        (throw_if
          (is_some (get q.new_id claimed.reservations) || any (clashes q) claimed.reservations)
          unique_violation)
        _ k1 in
    let (p, there, room, is) = claim_place_ok q st h1 in
    let same : claimed.reservations ≡ st.reservations = ap (λ x. x.reservations) is in
    let busy = throw_if_ok _ _ h2 in
    let unused : get q.new_id claimed.reservations ≡ none = ground (arith, busy) in
    IsSound-add q.campaign_id q.new_id (new_reservation q) p
      (record p { reserved_count = p.reserved_count + 1 }) st st' sound
      (ap (get q.new_id) (sym same) ∙ unused) refl there
      (ap (λ x. x.reservations) (sym (ok-injective k2))
        ∙ ap (put q.new_id (new_reservation q)) same)
      (ap (λ x. x.campaigns) (sym (ok-injective k2)) ∙ ap (λ x. x.campaigns) is) (omega arith)
      (omega arith) (omega (arith, room))

-- the reservation that was found is of the campaign
abbrev pub IsOfCampaign : ReserveRequest → ℕ → Promotion → Type 0
IsOfCampaign q id st =
    (r : PromotionReservation) → get id st.reservations ≡ some r → r.campaign_id ≡ q.campaign_id

answer_current_same :
    (q : ReserveRequest) (id : ℕ) (st : Promotion) {st' : Promotion}
    → answer_current q id st ≡ ok st'
    → st ≡ st'
unfolding answer_current
answer_current_same q id st h = ground (arith, h)

pub reserve_again-IsSound :
    (q : ReserveRequest) (id : ℕ) (st : Promotion) {st' : Promotion}
    → IsSound st
    → IsOfCampaign q id st
    → reserve_again q id st ≡ ok st'
    → IsSound st'
unfolding reserve_again set_promotional_trial
reserve_again-IsSound q id st {st'} sound mine h =
    elim (matching-cases (is_recyclable q.now) (get id st.reservations)) [
      | inl other ↦
          let same : st ≡ st' = answer_current_same q id st (ground (arith, other, h)) in
          subst IsSound same sound
      | inr (r, row, lapsed, matched) ↦
          let b = recycled q r in
          let (_, _, k1) =
            >>=-eq-ok (throw_if (any (takes_key q id) st.reservations) unique_violation) _
              (rw (matched, reserve_again) at h) in
          let (claimed, h2, k2) =
            >>=-eq-ok (claim_place q (record st { reservations = put id b st.reservations })) _
              k1 in
          let (p, there, room, is) = claim_place_ok q _ h2 in
          IsSound-move q.campaign_id id r b p (record p { reserved_count = p.reserved_count + 1 })
            st st' sound row (mine r row) (mine r row) there
            (ap (λ x. x.reservations) (sym (ok-injective k2)) ∙ ap (λ x. x.reservations) is)
            (ap (λ x. x.campaigns) (sym (ok-injective k2)) ∙ ap (λ x. x.campaigns) is)
            (ground arith) (ground (arith, lapsed)) (omega (arith, room))
    ]
