-- ===== src/Storage/Quota/Totality.antt =====
-- A settlement of a reservation always finds enough reserved: no check of the counters stops it.
use next_stock_oficial.Prelude.{
  ℕ, ◌+◌, ◌≤◌, ◌≡◌, refl, ◌∙◌, ap, subst, Bool, true, false, ◌||◌, some, List, [], ◌∷◌, ◌==◌,
  if◌then◌else◌, arith, Bool-cases, inl, inr,
}
use next_stock_oficial.Prelude.Result.{ok}
use next_stock_oficial.Prelude.Table.{Table, get, put, matching-cases}
use next_stock_oficial.Storage.Quota.{
  Usage, within, CounterKey, key_eq, Counter, covers, Reservation, QuotaStore, reservation_keys,
}
use next_stock_oficial.Storage.Quota.Settle.{
  Target, is_settleable, settled_row, settle_counters, transition, target_state,
}
use next_stock_oficial.Storage.Quota.Counters.{
  Measure, in_bytes, in_files, amount, reserved_at, has_row, reserved_at_none, unique_keys, not_and,
  key_eq→≡, key_eq_refl,
}
use next_stock_oficial.Storage.Quota.Ledger.{held_by, open_at, IsBalanced}
use next_stock_oficial.Storage.Quota.Balance.{held_by_open}

-- the amount is reserved under each key that is covered
record IsCovered (keys : List CounterKey) (requested : Usage) (counters : List Counter)
    : Type 0 where
  at :
      (m : Measure) (k : CounterKey)
      → covers keys k ≡ true
      → has_row counters k ≡ true
      → amount m requested ≤ reserved_at m k counters

skip : (b : Bool) (x s : ℕ) → b ≡ false → (if b then x else 0) + s ≡ s
skip b x s h = ground (arith, h)

or_true : (a b : Bool) → b ≡ true → a || b ≡ true
or_true a b h = ground (arith, h)

IsCovered-tail :
    (keys : List CounterKey) (requested : Usage) (c : Counter) (counters : List Counter)
    → unique_keys (c ∷ counters) ≡ true
    → IsCovered keys requested (c ∷ counters)
    → IsCovered keys requested counters
IsCovered-tail keys requested c counters u v =
    let (fresh, _) = not_and (has_row counters c.key) (unique_keys counters) u in
    record {
      at = λ m k meets there.
          let other : key_eq c.key k ≡ false = elim (Bool-cases (key_eq c.key k)) [
            | inr apart ↦ apart
            | inl same ↦ absurd (cc (ap (has_row counters) (key_eq→≡ c.key k same), fresh, there))
          ] in
          subst (λ n. amount m requested ≤ n)
            (skip (key_eq c.key k) (amount m c.reserved) (reserved_at m k counters) other)
            (v.at m k meets (or_true (key_eq c.key k) (has_row counters k) there));
    }

take : (b : Bool) (x s : ℕ) → b ≡ true → s ≡ 0 → (if b then x else 0) + s ≡ x
take b x s h k = ground (arith, h, k)

both_within :
    (a b : Usage)
    → amount in_bytes a ≤ amount in_bytes b
    → amount in_files a ≤ amount in_files b
    → within a b ≡ true
both_within a b h k = ground (arith, h, k)

or_first : (a b : Bool) → a ≡ true → a || b ≡ true
or_first a b h = ground (arith, h)

IsCovered-head :
    (keys : List CounterKey) (requested : Usage) (c : Counter) (counters : List Counter)
    → unique_keys (c ∷ counters) ≡ true
    → covers keys c.key ≡ true
    → IsCovered keys requested (c ∷ counters)
    → within requested c.reserved ≡ true
IsCovered-head keys requested c counters u meets v =
    let (fresh, _) = not_and (has_row counters c.key) (unique_keys counters) u in
    let one = λ (m : Measure).
      subst (λ n. amount m requested ≤ n)
        (take (key_eq c.key c.key) (amount m c.reserved) (reserved_at m c.key counters)
          (key_eq_refl c.key) (reserved_at_none m c.key counters fresh))
        (v.at m c.key meets
          (or_first (key_eq c.key c.key) (has_row counters c.key) (key_eq_refl c.key))) in
    both_within requested c.reserved (one in_bytes) (one in_files)

settle_counters_total :
    (target : Target) (keys : List CounterKey) (requested : Usage) (counters : List Counter)
    → unique_keys counters ≡ true
    → IsCovered keys requested counters
    → (settled : List Counter) × (settle_counters target keys requested counters ≡ some settled)
unfolding settle_counters
settle_counters_total target keys requested [] u v = ([], refl)
settle_counters_total target keys requested (c ∷ counters) u v =
    let (_, unique) = not_and (has_row counters c.key) (unique_keys counters) u in
    let (rest, done) =
      settle_counters_total target keys requested counters unique
        (IsCovered-tail keys requested c counters u v) in
    elim (Bool-cases (covers keys c.key)) [
      | inr apart ↦ (c ∷ rest, ground (arith, done, apart))
      | inl meets ↦
          let fits = IsCovered-head keys requested c counters u meets v in
          (settled_row target requested c ∷ rest, ground (arith, done, meets, fits))
    ]

open_at_le :
    (m : Measure) (k : CounterKey) (id : ℕ) (row : Reservation) (rows : Table Reservation)
    → get id rows ≡ some row
    → held_by m k row ≤ open_at m k rows
unfolding get
open_at_le m k id row [] h = cc
open_at_le m k id row ((j, a) ∷ rows) h = elim (Bool-cases (j == id)) [
  | inl same ↦
      let is : a ≡ row = ground (arith, same, h) in
      subst (λ x. held_by m k x ≤ held_by m k a + open_at m k rows) is (omega arith)
  | inr other ↦ omega (arith, open_at_le m k id row rows (ground (arith, other, h)))
]

given : (b : Bool) (n : ℕ) → b ≡ true → (if b then n else 0) ≡ n
given b n h = ground (arith, h)

-- Where the counters are in balance with the reservations, `confirm` and `release` never throw: no
-- counter falls below zero.
pub transition_total :
    (target : Target) (id : ℕ) (st : QuotaStore)
    → IsBalanced st
    → (r : Bool × QuotaStore) × (transition target id st ≡ ok r)
unfolding transition
transition_total target id st v =
    elim (matching-cases (λ r. is_settleable r.state) (get id st.reservations)) [
      | inl lost ↦ ((false, st), ground (arith, lost))
      | inr (row, found, live, matched) ↦
          let covered : IsCovered (reservation_keys row) row.requested st.counters = record {
            at = λ m k meets there.
                let held =
                  held_by_open m k row live
                  ∙ given (covers (reservation_keys row) k) (amount m row.requested) meets in
                omega (arith, held, open_at_le m k id row st.reservations found, v.balance m k);
          } in
          let (counters, done) =
            settle_counters_total target (reservation_keys row) row.requested st.counters
              v.checked.unique covered in
          (
            (
              true,
              record {
                counters = counters;
                reservations = put id (record row { state = target_state target }) st.reservations;
              },
            ),
            ground (arith, matched, done),
          )
    ]
