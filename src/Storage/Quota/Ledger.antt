-- ===== src/Storage/Quota/Ledger.antt =====
-- The counters hold what the open reservations have asked for.
use next_stock_oficial.Prelude.{
  ℕ, ◌+◌, ◌≡◌, ◌∙◌, sym, ap, subst, Bool, true, false, ◌&&◌, ◌||◌, not, none, some, List, [], ◌∷◌,
  sum_by, if◌then◌else◌, arith, Option-cases, inl, inr,
}
use next_stock_oficial.Prelude.Result.{ok, >>=-eq-ok, ok-injective}
use next_stock_oficial.Prelude.Table.{Table, get, put}
use next_stock_oficial.Prelude.Table.Distinct.{distinct}
use next_stock_oficial.Storage.Quota.{
  Usage, CounterKey, key_eq, Counter, covers, UploadQuotaReservationState, reserved, expired,
  reconciliation_required, Reservation, QuotaStore, reservation_keys,
}
use next_stock_oficial.Storage.Quota.Reserve.{
  QuotaLimits, limit_of, insert_counter, take_counter, take_quota, take_quotas,
}
use next_stock_oficial.Storage.Quota.Counters.{
  Measure, amount, reserved_at, key_eq→≡, reserved_at-insert_counter, reserved_at-take_counter,
  not_and,
}
use next_stock_oficial.Storage.Quota.Checks.{IsChecked, take_counter-IsChecked}
use next_stock_oficial.Storage.Quota.Inserts.{insert_counter-IsChecked}

-- the states in which a reservation counts as reserved
abbrev pub is_open : UploadQuotaReservationState → Bool
is_open reserved = true
is_open expired = true
is_open reconciliation_required = true
is_open _ = false

-- what a reservation holds under a key
abbrev pub held_by : Measure → CounterKey → Reservation → ℕ
held_by m k r = if is_open r.state && covers (reservation_keys r) k then amount m r.requested else 0

abbrev pub open_at : Measure → CounterKey → Table Reservation → ℕ
open_at m k rows = sum_by (λ e. held_by m k e.1) rows

-- The counters keep their index and checks, and each of them has reserved what the open
-- reservations hold of it.
pub record IsBalanced (st : QuotaStore) : Type 0 where
  pub keys : distinct st.reservations ≡ true
  pub checked : IsChecked st.counters
  pub balance :
      (m : Measure) (k : CounterKey) → reserved_at m k st.counters ≡ open_at m k st.reservations

module _ {ℓ} {A : Type ℓ} where
  pub sum_by-put :
      (f : A → ℕ) (id : ℕ) (old new : A) (rows : Table A)
      → get id rows ≡ some old
      → sum_by (λ e. f e.1) (put id new rows) + f old ≡ sum_by (λ e. f e.1) rows + f new
  unfolding get put
  sum_by-put f id old new [] h = cc
  sum_by-put f id old new ((k, a) ∷ rows) h = ground (arith, h, sum_by-put f id old new rows)

  pub sum_by-put_new :
      (f : A → ℕ) (id : ℕ) (new : A) (rows : Table A)
      → get id rows ≡ none
      → sum_by (λ e. f e.1) (put id new rows) ≡ sum_by (λ e. f e.1) rows + f new
  unfolding get put
  sum_by-put_new f id new [] h = omega arith
  sum_by-put_new f id new ((k, a) ∷ rows) h = ground (arith, h, sum_by-put_new f id new rows)

either :
    (a b : Bool) (n : ℕ)
    → (a ≡ true → b ≡ false)
    → (if a then n else 0) + (if b then n else 0) ≡ (if a || b then n else 0)
either a b n h = ground (arith, h)

-- keys that differ from one another
abbrev pub apart : List CounterKey → Bool
apart [] = true
apart (key ∷ keys) = let rest = apart keys in not (covers keys key) && rest

take_quota_ok :
    (limits : QuotaLimits) (requested : Usage) (key : CounterKey) (counters : List Counter)
    {counters' : List Counter}
    → take_quota limits requested key counters ≡ ok counters'
    → take_counter key requested
        (limit_of limits key.scope)
        (insert_counter key (limit_of limits key.scope) counters)
      ≡ some counters'
unfolding take_quota
take_quota_ok limits requested key counters h =
    elim (Option-cases (
      take_counter key requested (limit_of limits key.scope)
        (insert_counter key (limit_of limits key.scope) counters))) [
          | inl full ↦ absurd (ground (arith, full, h))
          | inr (c, taken) ↦ taken ∙ ap some (ok-injective (rw (taken, take_quota) at h))
        ]

-- What the loop over the scopes does to a counter.
pub take_quotas_ok :
    (limits : QuotaLimits) (requested : Usage) (keys : List CounterKey) (counters : List Counter)
    {counters' : List Counter}
    → apart keys ≡ true
    → IsChecked counters
    → take_quotas limits requested keys counters ≡ ok counters'
    → IsChecked counters'
      × ((m : Measure) (k : CounterKey)
          → reserved_at m k counters'
            ≡ reserved_at m k counters + (if covers keys k then amount m requested else 0))
unfolding take_quotas
take_quotas_ok limits requested [] counters {counters'} a v h =
    let is : counters ≡ counters' = ground (arith, h) in
    (subst IsChecked is v, λ m k. ap (reserved_at m k) (sym is) ∙ omega arith)
take_quotas_ok limits requested (key ∷ keys) counters a v h =
    let (fresh, rest) = not_and (covers keys key) (apart keys) a in
    let (between, h1, h2) = >>=-eq-ok (take_quota limits requested key counters) _ h in
    let limit = limit_of limits key.scope in
    let taken = take_quota_ok limits requested key counters h1 in
    let inserted = insert_counter key limit counters in
    let w =
      take_counter-IsChecked key requested limit inserted
        (insert_counter-IsChecked key limit counters v) taken in
    let (w', later) = take_quotas_ok limits requested keys between rest w h2 in
    (
      w',
      λ m k.
          let single : key_eq key k ≡ true → covers keys k ≡ false =
            λ e. ap (covers keys) (sym (key_eq→≡ key k e)) ∙ fresh in
          omega (
            arith,
            later m k,
            reserved_at-take_counter m k key requested limit inserted taken,
            reserved_at-insert_counter m k key limit counters,
            either (key_eq key k) (covers keys k) (amount m requested) single,
          ),
    )
