-- ===== src/Promotions/Campaigns/Sound.antt =====
-- The counters of a campaign against its reservations, over a write of either:
-- src/promotions/promotions.service.ts.
use next_stock_oficial.Prelude.{
  ℕ, ◌+◌, ◌≤◌, ◌≡◌, ◌≢◌, ◌∙◌, sym, ap, subst, Bool, false, none, some, ◌==◌, arith, inl, inr,
  Bool-cases, ==→≡,
}
use next_stock_oficial.Prelude.Table.{Table, get, put, get-put, get-put_self}
use next_stock_oficial.Billing.Ledger.{PromotionReservation, PromotionCampaign}
use next_stock_oficial.Promotions.Campaigns.{Promotion, is_reserved, is_converted}
use next_stock_oficial.Promotions.Campaigns.Manage.{rows_in}
use next_stock_oficial.Promotions.Campaigns.Places.{
  bit, rows_in-put-some, rows_in-put-none, holds_place, took_place,
}

-- the counters of a campaign against its reservations
pub record Fits (c : ℕ) (p : PromotionCampaign) (rows : Table PromotionReservation) : Type 0 where
  pub held : rows_in (holds_place c) rows ≤ p.reserved_count
  pub taken : rows_in (took_place c) rows ≡ p.converted_count
  pub enough : p.reserved_count + p.converted_count ≤ p.max_conversions

abbrev pub IsSound : Promotion → Type 0
IsSound st =
    (c : ℕ) (p : PromotionCampaign) → get c st.campaigns ≡ some p → Fits c p st.reservations

-- One campaign and the rows are written; the other campaigns see the same rows of theirs.
pub IsSound-put :
    (c : ℕ) (p' : PromotionCampaign) (st st' : Promotion)
    → IsSound st
    → st'.campaigns ≡ put c p' st.campaigns
    → Fits c p' st'.reservations
    → ((x : ℕ)
        → x ≢ c
        → (rows_in (holds_place x) st'.reservations ≡ rows_in (holds_place x) st.reservations)
          × (rows_in (took_place x) st'.reservations ≡ rows_in (took_place x) st.reservations))
    → IsSound st'
IsSound-put c p' st st' sound wrote fits others x p there = elim (Bool-cases (c == x)) [
  | inl same ↦
      let is : c ≡ x = ==→≡ c x same in
      let row : get c st'.campaigns ≡ some p' = ap (get c) wrote ∙ get-put_self c p' st.campaigns in
      let mine : p' ≡ p = ground (row, there, ap (λ k. get k st'.campaigns) is, arith) in
      subst (λ k. Fits k p st'.reservations) is (subst (λ q. Fits c q st'.reservations) mine fits)
  | inr other ↦
      let row : get x st.campaigns ≡ some p =
        ground (arith, other, get-put c x p' st.campaigns, ap (get x) wrote, there) in
      let (held, taken) = others x (λ is. ground (arith, other, is)) in
      let old = sound x p row in
      record {
        held = omega (arith, held, old.held);
        taken = taken ∙ old.taken;
        enough = old.enough;
      }
]

-- a row of the campaign is written over another one of it
module _ (c k : ℕ) (a b : PromotionReservation) (p p' : PromotionCampaign) (st st' : Promotion)
    (sound : IsSound st) (row : get k st.reservations ≡ some a) (of_a : a.campaign_id ≡ c)
    (of_b : b.campaign_id ≡ c) (there : get c st.campaigns ≡ some p)
    (rows : st'.reservations ≡ put k b st.reservations)
    (wrote : st'.campaigns ≡ put c p' st.campaigns) where
  others_alike :
      (q : ℕ → PromotionReservation → Bool) (x : ℕ)
      → q x a ≡ false
      → q x b ≡ false
      → rows_in (q x) st'.reservations ≡ rows_in (q x) st.reservations
  others_alike q x not_a not_b =
      let n = rows_in-put-some (q x) k a b st.reservations row in
      ap (rows_in (q x)) rows ∙ omega (arith, n, ap bit not_a, ap bit not_b)

  pub IsSound-move :
      bit (is_reserved b) + p.reserved_count ≤ p'.reserved_count + bit (is_reserved a)
      → p'.converted_count + bit (is_converted a) ≡ p.converted_count + bit (is_converted b)
      → p'.reserved_count + p'.converted_count ≤ p'.max_conversions
      → IsSound st'
  IsSound-move held taken enough =
      let old = sound c p there in
      let n = rows_in-put-some (holds_place c) k a b st.reservations row in
      let m = rows_in-put-some (took_place c) k a b st.reservations row in
      let ha : bit (holds_place c a) ≡ bit (is_reserved a) = ground (arith, of_a) in
      let hb : bit (holds_place c b) ≡ bit (is_reserved b) = ground (arith, of_b) in
      let ta : bit (took_place c a) ≡ bit (is_converted a) = ground (arith, of_a) in
      let tb : bit (took_place c b) ≡ bit (is_converted b) = ground (arith, of_b) in
      IsSound-put c p' st st' sound wrote
        (record {
          held = omega (arith, ap (rows_in (holds_place c)) rows, old.held, n, ha, hb, held);
          taken = omega (arith, ap (rows_in (took_place c)) rows, old.taken, m, ta, tb, taken);
          enough = enough;
        })
        (λ x other. (
          others_alike holds_place x (ground (arith, of_a, other)) (ground (arith, of_b, other)),
          others_alike took_place x (ground (arith, of_a, other)) (ground (arith, of_b, other)),
        ))

-- a new row of the campaign
module _ (c k : ℕ) (b : PromotionReservation) (p p' : PromotionCampaign) (st st' : Promotion)
    (sound : IsSound st) (free : get k st.reservations ≡ none) (of_b : b.campaign_id ≡ c)
    (there : get c st.campaigns ≡ some p) (rows : st'.reservations ≡ put k b st.reservations)
    (wrote : st'.campaigns ≡ put c p' st.campaigns) where
  pub IsSound-add :
      bit (is_reserved b) + p.reserved_count ≤ p'.reserved_count
      → p'.converted_count ≡ p.converted_count + bit (is_converted b)
      → p'.reserved_count + p'.converted_count ≤ p'.max_conversions
      → IsSound st'
  IsSound-add held taken enough =
      let old = sound c p there in
      let n = rows_in-put-none (holds_place c) k b st.reservations free in
      let m = rows_in-put-none (took_place c) k b st.reservations free in
      let hb : bit (holds_place c b) ≡ bit (is_reserved b) = ground (arith, of_b) in
      let tb : bit (took_place c b) ≡ bit (is_converted b) = ground (arith, of_b) in
      IsSound-put c p' st st' sound wrote
        (record {
          held = omega (arith, ap (rows_in (holds_place c)) rows, old.held, n, hb, held);
          taken = omega (arith, ap (rows_in (took_place c)) rows, old.taken, m, tb, taken);
          enough = enough;
        })
        (λ x other.
          let hx : holds_place x b ≡ false = ground (arith, of_b, other) in
          let tx : took_place x b ≡ false = ground (arith, of_b, other) in
          (
            ap (rows_in (holds_place x)) rows
                ∙ omega
                    (arith, rows_in-put-none (holds_place x) k b st.reservations free, ap bit hx),
            ap (rows_in (took_place x)) rows
                ∙ omega
                    (arith, rows_in-put-none (took_place x) k b st.reservations free, ap bit tx),
          ))

-- a campaign whose counters stay
pub IsSound-keep :
    (c : ℕ) (p p' : PromotionCampaign) (st st' : Promotion)
    → IsSound st
    → get c st.campaigns ≡ some p
    → st'.reservations ≡ st.reservations
    → st'.campaigns ≡ put c p' st.campaigns
    → p'.reserved_count ≡ p.reserved_count
    → p'.converted_count ≡ p.converted_count
    → p'.reserved_count + p'.converted_count ≤ p'.max_conversions
    → IsSound st'
IsSound-keep c p p' st st' sound there rows wrote held taken enough =
    let old = sound c p there in
    IsSound-put c p' st st' sound wrote
      (record {
        held = omega (arith, ap (rows_in (holds_place c)) rows, old.held, held);
        taken = ap (rows_in (took_place c)) rows ∙ old.taken ∙ sym taken;
        enough = enough;
      })
      (λ x other. (ap (rows_in (holds_place x)) rows, ap (rows_in (took_place x)) rows))
