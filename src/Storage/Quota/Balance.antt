-- ===== src/Storage/Quota/Balance.antt =====
-- Every operation on the quotas keeps the counters in balance with the reservations.
use next_stock_oficial.Prelude.{
  ℕ, ◌+◌, ◌≡◌, refl, sym, ap, subst, Bool, true, false, ◌&&◌, Option, none, some, List, is_some,
  if◌then◌else◌, arith, Option-cases, inl, inr, ◌⊎◌,
}
use next_stock_oficial.Prelude.Result.{ok, >>=-eq-ok, throw_if, throw_if_ok, ok-injective}
use next_stock_oficial.Prelude.Table.{get, put, matching-cases}
use next_stock_oficial.Prelude.Table.Distinct.{distinct-put}
use next_stock_oficial.Prelude.Text.{Text}
use next_stock_oficial.Storage.Quota.{
  CounterKey, Counter, covers, Reservation, QuotaStore, day_of, quota_keys, reservation_keys,
}
use next_stock_oficial.Storage.Quota.Reserve.{
  QuotaLimits, ReserveInput, ReserveReply, Intent, take_quotas, new_reservation, requested_of,
  reserve_new,
}
use next_stock_oficial.Storage.Quota.Settle.{
  Target, to_confirmed, to_released, is_settleable, settle_counters, transition, target_state,
}
use next_stock_oficial.Storage.Quota.Counters.{
  Measure, amount, reserved_at, has_row, reserved_at_none, reserved_at-settle_counters,
}
use next_stock_oficial.Storage.Quota.Checks.{settle_counters-IsChecked}
use next_stock_oficial.Storage.Quota.Ledger.{
  is_open, held_by, open_at, IsBalanced, sum_by-put, sum_by-put_new, apart, take_quotas_ok,
}

quota_keys-apart : (t : ℕ) (owner : Option ℕ) (day : ℕ) → apart (quota_keys t owner day) ≡ true
quota_keys-apart t none day = ground arith
quota_keys-apart t (some o) day = ground arith

balance_taken :
    (ra rb oa ob n : ℕ) (c c' : Bool)
    → ra ≡ rb + (if c then n else 0)
    → rb ≡ ob
    → oa ≡ ob + (if c' then n else 0)
    → c ≡ c'
    → ra ≡ oa
balance_taken ra rb oa ob n c c' h k l e = ground (arith, h, k, l, e)

module _ (hash : Intent → Text) where
  pub reserve_new-IsBalanced :
      (limits : QuotaLimits) (now created_at new_id : ℕ) (input : ReserveInput) (st : QuotaStore)
      {r : ReserveReply × QuotaStore}
      → IsBalanced st
      → day_of now ≡ day_of created_at
      → reserve_new hash limits now created_at new_id input st ≡ ok r
      → IsBalanced r.1
  unfolding reserve_new
  reserve_new-IsBalanced limits now created_at new_id input st {r} v same h =
      let (_, h1, h2) = >>=-eq-ok (throw_if (is_some (get new_id st.reservations)) _) _ h in
      let fresh = throw_if_ok (is_some (get new_id st.reservations)) _ h1 in
      let (counters, h3, h4) =
        >>=-eq-ok
          (take_quotas limits (requested_of input)
            (quota_keys input.tenant_id input.owner_profile_id (day_of now)) st.counters)
          _ h2 in
      let (checked, moved) =
        take_quotas_ok limits (requested_of input)
          (quota_keys input.tenant_id input.owner_profile_id (day_of now)) st.counters
          (quota_keys-apart input.tenant_id input.owner_profile_id (day_of now)) v.checked h3 in
      let row = new_reservation hash now created_at input in
      subst (λ x. IsBalanced x.1) (ok-injective h4)
        (record {
          keys = distinct-put new_id row st.reservations v.keys;
          checked = checked;
          balance = λ m k.
              balance_taken (reserved_at m k counters) (reserved_at m k st.counters)
                (open_at m k (put new_id row st.reservations)) (open_at m k st.reservations)
                (amount m (requested_of input))
                (covers (quota_keys input.tenant_id input.owner_profile_id (day_of now)) k)
                (covers (reservation_keys row) k) (moved m k) (v.balance m k)
                (sum_by-put_new (held_by m k) new_id row st.reservations (ground (arith, fresh)))
                (ap (λ d. covers (quota_keys input.tenant_id input.owner_profile_id d) k) same);
        })

balance_settled :
    (cov row : Bool) (ra rb oa ob n : ℕ)
    → ra + (if cov && row then n else 0) ≡ rb
    → rb ≡ ob
    → oa + (if cov then n else 0) ≡ ob
    → (row ≡ false → rb ≡ 0)
    → ra ≡ oa
balance_settled cov row ra rb oa ob n h k l z = ground (arith, h, k, l, z)

-- a reservation that is no longer open holds nothing
held_by_closed :
    (m : Measure) (k : CounterKey) (target : Target) (r : Reservation)
    → held_by m k (record r { state = target_state target }) ≡ 0
held_by_closed m k to_confirmed r = refl
held_by_closed m k to_released r = refl

pub held_by_open :
    (m : Measure) (k : CounterKey) (r : Reservation)
    → is_settleable r.state ≡ true
    → held_by m k r ≡ (if covers (reservation_keys r) k then amount m r.requested else 0)
held_by_open m k r h =
    let still : is_open r.state ≡ true = ground (arith, h) in
    ap (λ b. if b && covers (reservation_keys r) k then amount m r.requested else 0) still

-- The parts of a settlement that goes through.
transition_ok :
    (target : Target) (id : ℕ) (st : QuotaStore) {r : Bool × QuotaStore}
    → transition target id st ≡ ok r
    → (r ≡ (false, st))
      ⊎ ((row : Reservation) × (counters : List Counter) × (get id st.reservations ≡ some row)
          × (is_settleable row.state ≡ true)
          × (settle_counters target (reservation_keys row) row.requested st.counters
              ≡ some counters)
          × (r ≡ (
            true,
            record {
              counters = counters;
              reservations = put id (record row { state = target_state target }) st.reservations;
            },
          )))
unfolding transition
transition_ok target id st h =
    elim (matching-cases (λ r. is_settleable r.state) (get id st.reservations)) [
      | inl lost ↦ inl (ground (arith, lost, h))
      | inr (row, found, live, matched) ↦
          elim (Option-cases
            (settle_counters target (reservation_keys row) row.requested st.counters)) [
              | inl failed ↦ absurd (ground (arith, matched, failed, h))
              | inr (counters, done) ↦ inr (
                row,
                counters,
                found,
                live,
                done,
                sym (ok-injective (rw (matched, done, transition) at h)),
              )
            ]
    ]

pub transition-IsBalanced :
    (target : Target) (id : ℕ) (st : QuotaStore) {r : Bool × QuotaStore}
    → IsBalanced st
    → transition target id st ≡ ok r
    → IsBalanced r.1
transition-IsBalanced target id st {r} v h = elim (transition_ok target id st h) [
  | inl same ↦ subst (λ x. IsBalanced x.1) (sym same) v
  | inr (row, counters, found, settleable, done, is) ↦
      let new = record row { state = target_state target } in
      let (checked, _) =
        settle_counters-IsChecked target (reservation_keys row) row.requested st.counters v.checked
          done in
      subst (λ x. IsBalanced x.1) (sym is)
        (record {
          keys = distinct-put id new st.reservations v.keys;
          checked = checked;
          balance = λ m k.
              balance_settled (covers (reservation_keys row) k) (has_row st.counters k)
                (reserved_at m k counters) (reserved_at m k st.counters)
                (open_at m k (put id new st.reservations)) (open_at m k st.reservations)
                (amount m row.requested)
                (reserved_at-settle_counters m k target (reservation_keys row) row.requested
                  st.counters v.checked.unique done)
                (v.balance m k)
                (omega (
                  arith,
                  sum_by-put (held_by m k) id row new st.reservations found,
                  held_by_closed m k target row,
                  held_by_open m k row settleable,
                ))
                (reserved_at_none m k st.counters);
        })
]
