-- ===== src/Promotions/Campaigns/Steps.antt =====
-- The operations of src/promotions/promotions.service.ts on the places of campaigns, with the link to
-- a checkout of src/billing/checkout.service.ts and the conversion by its payment of
-- src/billing/payments.service.ts, in any order.
use next_stock_oficial.Prelude.{ℕ, ◌≡◌, sym, subst, true, some}
use next_stock_oficial.Prelude.Result.{ok}
use next_stock_oficial.Prelude.Table.Distinct.{distinct}
use next_stock_oficial.Billing.Subscriptions.{Accounts}
use next_stock_oficial.Billing.Payments.Referral.{convert_promotion_reservation}
use next_stock_oficial.Promotions.Campaigns.{Promotion, ReserveRequest, reserve_new, reserve_again}
use next_stock_oficial.Promotions.Campaigns.Manage.{
  convert_reservation, release_reservation, expire_reservations, activate, update_capacity,
}
use next_stock_oficial.Promotions.Campaigns.Sound.{IsSound}
use next_stock_oficial.Promotions.Campaigns.Reserves.{
  IsOfCampaign, reserve_new-IsSound, reserve_again-IsSound,
}
use next_stock_oficial.Promotions.Campaigns.Paid.{
  link_reservation, link_reservation-IsSound, promotion_in, convert_promotion_reservation-IsSound,
}
use next_stock_oficial.Promotions.Campaigns.Moves.{
  convert_reservation-IsSound, release_reservation-IsSound, expire_reservations-IsSound,
  activate-IsSound, update_capacity-IsSound,
}

-- One operation on the places that goes through. What a tenant's reservation was found to be is
-- of any earlier time: it is only used as a key.
pub data Step (st st' : Promotion) : Type 0 where
  reserves : (q : ReserveRequest) → reserve_new q st ≡ ok st' → Step st st'
  reserves_again :
      (q : ReserveRequest) (id : ℕ)
      → IsOfCampaign q id st
      → reserve_again q id st ≡ ok st'
      → Step st st'
  converts : (id now : ℕ) → convert_reservation id now st ≡ ok st' → Step st st'
  links :
      (id tenant_id checkout_id : ℕ)
      → link_reservation id tenant_id checkout_id st ≡ some st'
      → Step st st'
  -- the conversion in the transaction of a payment; the reservations have a primary key
  pays :
      (now tenant_id checkout_id : ℕ) (a : Accounts)
      → distinct a.reservations ≡ true
      → promotion_in a ≡ st
      → promotion_in (convert_promotion_reservation now tenant_id checkout_id a) ≡ st'
      → Step st st'
  releases : (id : ℕ) → release_reservation id st ≡ ok st' → Step st st'
  expires : (c now : ℕ) → expire_reservations c now st ≡ st' → Step st st'
  activates : (c now : ℕ) → activate c now st ≡ ok st' → Step st st'
  resizes : (c places now : ℕ) → update_capacity c places now st ≡ ok st' → Step st st'

pub data Steps (st : Promotion) : Promotion → Type 0 where
  stay : Steps st st
  and_then : {mid last : Promotion} → Steps st mid → Step mid last → Steps st last

Step-IsSound : {st st' : Promotion} → IsSound st → Step st st' → IsSound st'
Step-IsSound {st} sound (reserves q h) = reserve_new-IsSound q st sound h
Step-IsSound {st} sound (reserves_again q id mine h) = reserve_again-IsSound q id st sound mine h
Step-IsSound {st} sound (converts id now h) = convert_reservation-IsSound id now st sound h
Step-IsSound {st} sound (links id tenant_id checkout_id h) =
    link_reservation-IsSound id tenant_id checkout_id st sound h
Step-IsSound {st} sound (pays now tenant_id checkout_id a d here there) = subst IsSound there (
    convert_promotion_reservation-IsSound now tenant_id checkout_id a d
      (subst IsSound (sym here) sound))
Step-IsSound {st} sound (releases id h) = release_reservation-IsSound id st sound h
Step-IsSound {st} sound (expires c now h) =
    subst IsSound h (expire_reservations-IsSound c now st sound)
Step-IsSound {st} sound (activates c now h) = activate-IsSound c now st sound h
Step-IsSound {st} sound (resizes c places now h) = update_capacity-IsSound c places now st sound h

-- Over any reservations, their links to checkouts, releases, expiries, activations, changes of
-- capacity and conversions, by the promotions or by a payment, in any order, the reservations of a
-- campaign that hold a place and those that took one stay within its places, where they are
-- counted at the start: those that took one are exactly as many as its counter says, and those
-- that hold one are at most as many. The reservations have distinct keys where a payment converts
-- one.
pub Steps-IsSound : {st st' : Promotion} → IsSound st → Steps st st' → IsSound st'
Steps-IsSound sound stay = sound
Steps-IsSound sound (and_then steps step) = Step-IsSound (Steps-IsSound sound steps) step
