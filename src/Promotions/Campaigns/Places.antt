-- ===== src/Promotions/Campaigns/Places.antt =====
-- The number of rows that pass a test, over the writes of a table, and the places of a campaign.
use next_stock_oficial.Prelude.{
  ℕ, ◌+◌, ◌≤◌, ◌≡◌, refl, Bool, true, ◌&&◌, none, some, [], ◌∷◌, ◌==◌, if◌then◌else◌, arith, inl,
  inr, Bool-cases,
}
use next_stock_oficial.Prelude.Table.{Table, get, put, map_rows}
use next_stock_oficial.Billing.Ledger.{PromotionReservation}
use next_stock_oficial.Promotions.Campaigns.{is_reserved, is_converted}
use next_stock_oficial.Promotions.Campaigns.Manage.{is_lapsed, lapse, rows_in}

abbrev pub bit : Bool → ℕ
bit b = if b then 1 else 0

module _ {A : Type 0} where
  pub rows_in-put-some :
      (q : A → Bool) (k : ℕ) (a b : A) (t : Table A)
      → get k t ≡ some a
      → rows_in q (put k b t) + bit (q a) ≡ rows_in q t + bit (q b)
  unfolding rows_in get put
  rows_in-put-some q k a b [] h = ground (arith, h)
  rows_in-put-some q k a b ((j, c) ∷ t) h = ground (arith, h, rows_in-put-some q k a b t)

  pub rows_in-put-none :
      (q : A → Bool) (k : ℕ) (b : A) (t : Table A)
      → get k t ≡ none
      → rows_in q (put k b t) ≡ rows_in q t + bit (q b)
  unfolding rows_in get put
  rows_in-put-none q k b [] h = ground (arith, h)
  rows_in-put-none q k b ((j, c) ∷ t) h = ground (arith, h, rows_in-put-none q k b t)

  pub rows_in-get :
      (q : A → Bool) (k : ℕ) (a : A) (t : Table A) → get k t ≡ some a → q a ≡ true → 1 ≤ rows_in q t
  unfolding rows_in get
  rows_in-get q k a [] h m = ground (arith, h)
  rows_in-get q k a ((j, c) ∷ t) h m = elim (Bool-cases (j == k)) [
    | inl here ↦ ground (arith, here, h, m)
    | inr other ↦ ground (arith, rows_in-get q k a t (ground (arith, other, h)) m)
  ]

-- the reservations of a campaign that hold a place, and those that took one
abbrev pub holds_place : ℕ → PromotionReservation → Bool
holds_place c r = r.campaign_id == c && is_reserved r

abbrev pub took_place : ℕ → PromotionReservation → Bool
took_place c r = r.campaign_id == c && is_converted r

-- the rows that lapse no longer hold a place, and none comes to have taken one
pub rows_in-lapse :
    (c campaign_id now : ℕ) (t : Table PromotionReservation)
    → (rows_in (took_place c) (map_rows (lapse campaign_id now) t) ≡ rows_in (took_place c) t)
      × (rows_in (holds_place c) (map_rows (lapse campaign_id now) t)
            + (if c == campaign_id then rows_in (is_lapsed campaign_id now) t else 0)
          ≡ rows_in (holds_place c) t)
unfolding rows_in map_rows
rows_in-lapse c campaign_id now [] = (refl, ground arith)
rows_in-lapse c campaign_id now ((j, r) ∷ t) =
    let (took, held) = rows_in-lapse c campaign_id now t in
    (ground (arith, took), ground (arith, held))
