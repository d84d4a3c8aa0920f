-- ===== src/Storage/Quota.antt =====
-- src/storage/upload-quota.service.ts: the counters of a tenant's uploads, and the reservations
-- that an upload holds until it is confirmed or released.
pub mod Reserve
pub mod Settle
pub mod Counters
pub mod Checks
pub mod Inserts
pub mod Ledger
pub mod Balance
pub mod Totality
pub mod Reconcile
pub mod Steps
use next_stock_oficial.Prelude.{
  ℕ, ◌+◌, ◌-◌, ◌*◌, ◌/◌, Bool, true, false, ◌&&◌, Option, none, some, List, [], ◌∷◌, any, eq_option,
  leb, ◌==◌, if◌then◌else◌,
}
use next_stock_oficial.Prelude.Table.{Table}
use next_stock_oficial.Prelude.Text.{Text}

-- an amount of bytes and files
pub record Usage : Type 0 where
  pub bytes : ℕ
  pub files : ℕ

abbrev pub add_usage : Usage → Usage → Usage
add_usage a b = record { bytes = a.bytes + b.bytes; files = a.files + b.files }

abbrev pub sub_usage : Usage → Usage → Usage
sub_usage a b = record { bytes = a.bytes - b.bytes; files = a.files - b.files }

abbrev pub within : Usage → Usage → Bool
within a limit = leb a.bytes limit.bytes && leb a.files limit.files

abbrev pub no_usage : Usage
no_usage = record { bytes = 0; files = 0 }

pub data UploadQuotaScope : Type 0 where
  tenant_total tenant_daily user_daily : UploadQuotaScope

abbrev pub scope_eq : UploadQuotaScope → UploadQuotaScope → Bool
scope_eq tenant_total tenant_total = true
scope_eq tenant_daily tenant_daily = true
scope_eq user_daily user_daily = true
scope_eq _ _ = false

-- the unique key of a counter; a window is the number of its UTC day
pub record CounterKey : Type 0 where
  pub tenant_id : ℕ
  pub scope : UploadQuotaScope
  pub owner : Option ℕ
  pub window_start : ℕ

abbrev pub key_eq : CounterKey → CounterKey → Bool
key_eq a b =
    a.tenant_id == b.tenant_id
    && scope_eq a.scope b.scope
    && eq_option a.owner b.owner
    && a.window_start == b.window_start

-- a row of `upload_quota_counters`
pub record Counter : Type 0 where
  pub key : CounterKey
  pub limit : Usage
  pub confirmed : Usage
  pub reserved : Usage

pub data UploadQuotaReservationState : Type 0 where
  reserved confirmed released expired reconciliation_required : UploadQuotaReservationState

-- a row of `upload_quota_reservations`
pub record Reservation : Type 0 where
  pub tenant_id : ℕ
  pub branch_id : Option ℕ
  pub owner_profile_id : Option ℕ
  pub idempotency_key : Text
  pub intent_hash : Text
  pub requested : Usage
  pub state : UploadQuotaReservationState
  pub object_keys : List Text
  pub expires_at : ℕ
  pub created_at : ℕ

pub record QuotaStore : Type 0 where
  pub counters : List Counter
  pub reservations : Table Reservation

-- `setUTCHours(0, 0, 0, 0)`, as the number of the day
abbrev pub day_of : ℕ → ℕ
day_of t = t / 86400000

abbrev counter_key : ℕ → UploadQuotaScope → Option ℕ → ℕ → CounterKey
counter_key tenant_id scope owner window = record {
  tenant_id = tenant_id;
  scope = scope;
  owner = owner;
  window_start = window;
}

abbrev user_keys : ℕ → Option ℕ → ℕ → List CounterKey
user_keys tenant_id none day = []
user_keys tenant_id (some owner) day = counter_key tenant_id user_daily (some owner) day ∷ []

-- the counters that an upload of a day falls under
abbrev pub quota_keys : ℕ → Option ℕ → ℕ → List CounterKey
quota_keys tenant_id owner day =
    counter_key tenant_id tenant_total none 0
    ∷ counter_key tenant_id tenant_daily none day
    ∷ user_keys tenant_id owner day

-- those of a reservation, by the time at which its row was made
abbrev pub reservation_keys : Reservation → List CounterKey
reservation_keys r = quota_keys r.tenant_id r.owner_profile_id (day_of r.created_at)

abbrev pub covers : List CounterKey → CounterKey → Bool
covers keys k = any (λ j. key_eq j k) keys
