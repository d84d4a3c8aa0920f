-- ===== src/Storage/Quota/Settle.antt =====
-- `confirm`, `release`, `requireReconciliation`, `claimExpired` and `reconcileExpiredBatch` of
-- src/storage/upload-quota.service.ts.
use next_stock_oficial.Prelude.{
  ℕ, min, max, Bool, true, false, ◌&&◌, ◌||◌, not, Option, none, some, List, [], ◌∷◌, map, select,
  leb, ltb, ◌==◌, if◌then◌else◌,
}
use next_stock_oficial.Prelude.Result.{Result, ok, err}
use next_stock_oficial.Prelude.Table.{Table, get, put, matching, map_rows}
use next_stock_oficial.Prelude.Table.Distinct.{is_among}
use next_stock_oficial.Prelude.Sort.{sort_by, first_rows}
use next_stock_oficial.Storage.Quota.{
  Usage, add_usage, sub_usage, within, no_usage, CounterKey, Counter, covers,
  UploadQuotaReservationState, reserved, confirmed, released, expired, reconciliation_required,
  Reservation, QuotaStore, reservation_keys,
}
use next_stock_oficial.Storage.Quota.Reserve.{QuotaError, negative_counter}

-- 'CONFIRMED' | 'RELEASED'
pub data Target : Type 0 where
  to_confirmed to_released : Target

abbrev pub target_state : Target → UploadQuotaReservationState
target_state to_confirmed = confirmed
target_state to_released = released

abbrev pub is_reserved : UploadQuotaReservationState → Bool
is_reserved reserved = true
is_reserved _ = false

-- `"state" IN ('RESERVED', 'EXPIRED')`
abbrev pub is_settleable : UploadQuotaReservationState → Bool
is_settleable reserved = true
is_settleable expired = true
is_settleable _ = false

abbrev pub moved_usage : Target → Usage → Usage
moved_usage to_confirmed requested = requested
moved_usage to_released requested = no_usage

abbrev pub settled_row : Target → Usage → Counter → Counter
settled_row target requested c = record c {
  reserved = sub_usage c.reserved requested;
  confirmed = add_usage c.confirmed (moved_usage target requested);
}

-- the UPDATE of the counters of `keys`; `none` where a check of the table fails
unfoldable pub settle_counters :
    Target → List CounterKey → Usage → List Counter → Option (List Counter)
settle_counters target keys requested [] = some []
settle_counters target keys requested (c ∷ counters) =
    elim (settle_counters target keys requested counters) [
      | none ↦ none
      | some settled ↦
          if covers keys c.key
          then (if within requested c.reserved
              then some (settled_row target requested c ∷ settled)
              else none)
          else some (c ∷ settled)
    ]

-- `transition`; the reply tells whether there was something to settle
unfoldable pub transition : Target → ℕ → QuotaStore → Result QuotaError (Bool × QuotaStore)
unfolding settle_counters
transition target id st = elim (matching (λ r. is_settleable r.state) (get id st.reservations)) [
  | none ↦ ok (false, st)
  | some r ↦ elim (settle_counters target (reservation_keys r) r.requested st.counters) [
    | none ↦ err negative_counter
    | some counters ↦ ok (
      true,
      record {
        counters = counters;
        reservations = put id (record r { state = target_state target }) st.reservations;
      },
    )
  ]
]

unfoldable pub confirm : ℕ → QuotaStore → Result QuotaError (Bool × QuotaStore)
unfolding transition
confirm id st = transition to_confirmed id st

unfoldable pub release : ℕ → QuotaStore → Result QuotaError (Bool × QuotaStore)
unfolding transition
release id st = transition to_released id st

unfoldable pub require_reconciliation : ℕ → QuotaStore → QuotaStore
require_reconciliation id st =
    elim (matching (λ r. is_settleable r.state) (get id st.reservations)) [
      | none ↦ st
      | some r ↦ record st {
        reservations = put id (record r { state = reconciliation_required }) st.reservations;
      }
    ]

-- ORDER BY "expires_at", "id"
abbrev pub expires_before : ℕ × Reservation → ℕ × Reservation → Bool
expires_before a b =
    ltb a.1.expires_at b.1.expires_at || a.1.expires_at == b.1.expires_at && leb a.0 b.0

abbrev pub is_expired : (ℕ → Bool) → ℕ → ℕ × Reservation → Bool
is_expired locked now e = is_reserved e.1.state && leb e.1.expires_at now && not (locked e.0)

-- the rows that `claimExpired` takes; `locked` tells those that other transactions hold
unfoldable pub expired_candidates : (ℕ → Bool) → ℕ → ℕ → QuotaStore → Table Reservation
unfolding sort_by
expired_candidates locked limit now st =
    first_rows (min (max limit 1) 500)
      (sort_by expires_before (select (is_expired locked now) st.reservations))

abbrev pub expire_row : Table Reservation → ℕ → Reservation → Reservation
expire_row chosen id r = if is_among chosen id then record r { state = expired } else r

-- the reply is the ids of the rows
unfoldable pub claim_expired : (ℕ → Bool) → ℕ → ℕ → QuotaStore → List ℕ × QuotaStore
unfolding expired_candidates map_rows
claim_expired locked limit now st =
    let chosen = expired_candidates locked limit now st in
    (
      map (λ e. e.0) chosen,
      record st { reservations = map_rows (expire_row chosen) st.reservations },
    )

-- the state after a statement of its own transaction
abbrev pub settled_store : QuotaStore → Result QuotaError (Bool × QuotaStore) → QuotaStore
settled_store st (ok r) = r.1
settled_store st (err e) = st

-- One round of `reconcileExpiredBatch`, in transactions of its own; `has_file` tells the
-- reservations with an active file.
unfoldable pub reconcile_one : (ℕ → Bool) → ℕ → QuotaStore → Result QuotaError QuotaStore
unfolding confirm require_reconciliation
reconcile_one has_file id st =
    if has_file id
    then elim (confirm id st) [ err e ↦ err e | ok r ↦ ok r.1 ]
    else ok (require_reconciliation id st)

-- the loop, which a `confirm` that throws ends
unfoldable pub reconcile_ids : (ℕ → Bool) → List ℕ → QuotaStore → Option QuotaError × QuotaStore
unfolding reconcile_one
reconcile_ids has_file [] st = (none, st)
reconcile_ids has_file (id ∷ ids) st = elim (reconcile_one has_file id st) [
  | err e ↦ (some e, st)
  | ok st' ↦ reconcile_ids has_file ids st'
]

unfoldable pub reconcile_expired_batch :
    (ℕ → Bool) → (ℕ → Bool) → ℕ → ℕ → QuotaStore → Option QuotaError × QuotaStore
unfolding claim_expired reconcile_ids
reconcile_expired_batch has_file locked limit now st =
    let taken = claim_expired locked limit now st in reconcile_ids has_file taken.0 taken.1
