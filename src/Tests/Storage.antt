-- ===== src/Tests/Storage.antt =====
-- The theorems on upload quotas at one tenant's uploads.
use next_stock_oficial.Prelude.{ℕ, ◌≡◌, refl, Bool, true, false, none, some, List, [], ◌∷◌}
use next_stock_oficial.Prelude.Result.{ok}
use next_stock_oficial.Prelude.Table.{get, put}
use next_stock_oficial.Prelude.Text.{Text}
use next_stock_oficial.Storage.Quota.{Usage, tenant_daily, CounterKey, QuotaStore}
use next_stock_oficial.Storage.Quota.Reserve.{
  Intent, QuotaLimits, ReserveInput, reserve, insert_counter, take_counter,
}
use next_stock_oficial.Storage.Quota.Settle.{
  to_confirmed, to_released, transition, settle_counters, reconcile_expired_batch,
}
use next_stock_oficial.Storage.Quota.Counters.{in_bytes, reserved_at}
use next_stock_oficial.Storage.Quota.Ledger.{IsBalanced}
use next_stock_oficial.Storage.Quota.Reconcile.{reconcile_expired_batch-IsBalanced}
use next_stock_oficial.Storage.Quota.Totality.{transition_total}
use next_stock_oficial.Storage.Quota.Steps.{Step, reserves, settles, steps, steps-IsBalanced}

abbrev no_hash : Intent → Text
no_hash i = []

-- every tenant is spelled `t`
abbrev spell : ℕ → Text
spell id = b't' ∷ []

abbrev usage : ℕ → ℕ → Usage
usage b f = record { bytes = b; files = f }

abbrev limits : QuotaLimits
limits = record { total = usage 100 9; daily = usage 50 3; user = usage 40 9 }

abbrev photo : ReserveInput
photo = record {
  tenant_id = 1;
  branch_id = none;
  owner_profile_id = some 5;
  incoming_bytes = 30;
  incoming_files = none;
  idempotency_key = b'k' ∷ [];
  object_keys = (b't' ∷ b'/' ∷ b'p' ∷ []) ∷ [];
  expires_at = none;
}

abbrev empty : QuotaStore
empty = record { counters = []; reservations = [] }

empty-IsBalanced : IsBalanced empty
empty-IsBalanced = record {
  keys = refl;
  checked = record { unique = refl; limits = refl };
  balance = λ m k. refl;
}

abbrev uploads : List Step
uploads = reserves 1000 1001 40 photo ∷ settles to_confirmed 40 ∷ []

steps-IsBalanced_example : IsBalanced (steps no_hash true spell limits uploads empty)
steps-IsBalanced_example =
    steps-IsBalanced no_hash true spell limits uploads empty empty-IsBalanced (refl, (tt, tt))

-- the photo's reservation
abbrev held_photo : QuotaStore
held_photo = steps no_hash true spell limits (reserves 1000 1001 40 photo ∷ []) empty

held_photo-IsBalanced : IsBalanced held_photo
held_photo-IsBalanced =
    steps-IsBalanced no_hash true spell limits (reserves 1000 1001 40 photo ∷ []) empty
      empty-IsBalanced (refl, tt)

transition_total_example : (r : Bool × QuotaStore) × (transition to_released 40 held_photo ≡ ok r)
transition_total_example = transition_total to_released 40 held_photo held_photo-IsBalanced

reconcile_expired_batch-IsBalanced_example :
    IsBalanced (reconcile_expired_batch (λ id. true) (λ id. false) 100 2000000 held_photo).1
    × ((reconcile_expired_batch (λ id. true) (λ id. false) 100 2000000 held_photo).0 ≡ none)
reconcile_expired_batch-IsBalanced_example =
    reconcile_expired_batch-IsBalanced (λ id. true) (λ id. false) 100 2000000 held_photo
      held_photo-IsBalanced

abbrev first_day : CounterKey
first_day = record { tenant_id = 1; scope = tenant_daily; owner = none; window_start = 0 }

held_bytes : reserved_at in_bytes first_day held_photo.counters ≡ 30
unfolding steps reserve insert_counter take_counter get put
held_bytes = refl

-- A reservation that is counted a millisecond before midnight, and whose row is made at midnight:
-- its release gives nothing back to the counter of the day before.
abbrev at_midnight : QuotaStore
at_midnight =
    steps no_hash true spell limits
      (reserves 86399999 86400000 40 photo ∷ settles to_released 40 ∷ []) empty

kept_bytes : reserved_at in_bytes first_day at_midnight.counters ≡ 30
unfolding steps reserve transition settle_counters insert_counter take_counter get put
kept_bytes = refl
