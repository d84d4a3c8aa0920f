-- ===== src/Tests/Promotions.antt =====
-- The theorems on the places of a promotion, at a campaign of two.
use next_stock_oficial.Prelude.{◌≡◌, refl, true, false, map, none, some, [], ◌∷◌, arith}
use next_stock_oficial.Prelude.Result.{Result, ok, err}
use next_stock_oficial.Prelude.Table.{get, put}
use next_stock_oficial.Prelude.Table.Distinct.{distinct}
use next_stock_oficial.Billing.Subscriptions.{Accounts}
use next_stock_oficial.Billing.Payments.Referral.{convert_promotion_reservation}
use next_stock_oficial.Tests.Subscriptions.{accounts}
use next_stock_oficial.Billing.Plans.{PlanSlug}
use next_stock_oficial.Billing.Ledger.{PromotionCampaign, PromotionCampaignStatus}
use next_stock_oficial.Promotions.Campaigns.{
  Promotion, PromotionError, ReserveRequest, no_place, new_reservation, reserve_new, reserve_again,
  is_reserved,
}
use next_stock_oficial.Promotions.Campaigns.Manage.{convert_reservation, rows_in}
use next_stock_oficial.Promotions.Campaigns.Sound.{IsSound}
use next_stock_oficial.Promotions.Campaigns.Paid.{link_reservation, promotion_in}
use next_stock_oficial.Promotions.Campaigns.Steps.{
  stay, and_then, reserves, links, pays, Steps-IsSound,
}

abbrev launch : PromotionCampaign
launch = record {
  status = PromotionCampaignStatus.active;
  starts_at = none;
  ends_at = none;
  max_conversions = 1;
  reserved_count = 0;
  converted_count = 0;
  closed_at = none;
  limit_reached = false;
}

abbrev promotion : Promotion
promotion = record { campaigns = (9, launch) ∷ []; reservations = []; subscriptions = [] }

abbrev request : ReserveRequest
request = record {
  campaign_id = 9;
  tenant_id = 1;
  idempotency_key = 5;
  plan_slug = PlanSlug.ouro;
  period_months = 3;
  trial_days = 1;
  now = 100;
  new_id = 20;
}

promotion-IsSound : IsSound promotion
unfolding get rows_in
promotion-IsSound c p there = record {
  held = ground arith;
  taken = ground (arith, there);
  enough = ground (arith, there);
}

abbrev promotion_of : Result PromotionError Promotion → Promotion
promotion_of (ok st) = st
promotion_of (err e) = promotion

abbrev reserved_promotion : Promotion
reserved_promotion = promotion_of (reserve_new request promotion)

abbrev converted_promotion : Promotion
converted_promotion = promotion_of (convert_reservation 20 200 reserved_promotion)

has_reserved : reserve_new request promotion ≡ ok reserved_promotion
unfolding reserve_new get put
has_reserved = refl

-- the place is linked to the checkout 30, and its payment converts it
abbrev linked_promotion : Promotion
linked_promotion = elim (link_reservation 20 1 30 reserved_promotion) [
  | none ↦ reserved_promotion
  | some st ↦ st
]

has_linked : link_reservation 20 1 30 reserved_promotion ≡ some linked_promotion
unfolding link_reservation reserve_new get put
has_linked = refl

abbrev linked_accounts : Accounts
linked_accounts = record accounts {
  reservations = linked_promotion.reservations;
  campaigns = linked_promotion.campaigns;
  subscriptions = linked_promotion.subscriptions;
}

abbrev paid_promotion : Promotion
paid_promotion = promotion_in (convert_promotion_reservation 200 1 30 linked_accounts)

linked_distinct : distinct linked_accounts.reservations ≡ true
unfolding link_reservation reserve_new get put
linked_distinct = refl

Steps-IsSound_example : IsSound paid_promotion
Steps-IsSound_example = Steps-IsSound promotion-IsSound (
    and_then (and_then (and_then stay (reserves request has_reserved)) (links 20 1 30 has_linked))
      (pays 200 1 30 linked_accounts linked_distinct refl refl))

converted_by_payment : map (λ e. e.1.converted_count) paid_promotion.campaigns ≡ 1 ∷ []
unfolding convert_promotion_reservation link_reservation reserve_new get put
converted_by_payment = refl

-- the only place is taken
none_left :
    reserve_new
      (record request { tenant_id = 2; idempotency_key = 6; new_id = 21 })
      converted_promotion
    ≡ err no_place
unfolding reserve_new convert_reservation get put
none_left = refl

-- A reservation that has lapsed, but is not marked as expired yet, is counted a second time when its
-- tenant reserves again.
abbrev roomy : Promotion
roomy = record promotion {
  campaigns = (9, record launch { max_conversions = 5; reserved_count = 1 }) ∷ [];
  reservations = (20, new_reservation request) ∷ [];
}

abbrev again : Promotion
again = promotion_of (reserve_again (record request { now = 2000000 }) 20 roomy)

counted_twice :
    get 9 again.campaigns ≡ some (record launch { max_conversions = 5; reserved_count = 2 })
unfolding reserve_again get put
counted_twice = refl

holds_one : rows_in is_reserved again.reservations ≡ 1
unfolding reserve_again get put rows_in
holds_one = refl
