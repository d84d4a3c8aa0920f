-- ===== src/Storage/Quota/Reserve.antt =====
-- `reserve` of src/storage/upload-quota.service.ts. The limits are arguments, as `limit` computes
-- them from the tenant's plan and the environment; so are the hash of an intent (SHA-256) and the
-- spelling of a tenant's id.
use next_stock_oficial.Prelude.{
  ℕ, ◌+◌, ◌*◌, Bool, true, false, ◌&&◌, ◌||◌, not, Option, none, some, List, [], ◌∷◌, ◌++◌, any,
  find, is_some, or_default, ◌==◌, if◌then◌else◌,
}
use next_stock_oficial.Prelude.Result.{Result, ok, err, ◌>>=◌, ◌>>◌, throw_if}
use next_stock_oficial.Prelude.Table.{get, put}
use next_stock_oficial.Prelude.Text.{starts_with, Text, text_eq}
use next_stock_oficial.Storage.Quota.{
  Usage, add_usage, within, no_usage, UploadQuotaScope, user_daily, CounterKey, key_eq, Counter,
  UploadQuotaReservationState, Reservation, QuotaStore, day_of, quota_keys, scope_eq,
}

pub data QuotaError : Type 0 where
  -- TypeError
  not_positive : QuotaError
  -- ConflictException
  key_reused invalid_object_key : QuotaError
  -- PayloadTooLargeException
  user_quota_exceeded tenant_quota_exceeded : QuotaError
  -- the primary key of the reservations
  duplicate_id : QuotaError
  -- the check `upload_quota_counters_nonnegative`
  negative_counter : QuotaError

-- ReserveInput; a byte count is a natural number already
pub record ReserveInput : Type 0 where
  pub tenant_id : ℕ
  pub branch_id : Option ℕ
  pub owner_profile_id : Option ℕ
  pub incoming_bytes : ℕ
  pub incoming_files : Option ℕ
  pub idempotency_key : Text
  pub object_keys : List Text
  pub expires_at : Option ℕ

-- what the hash of an intent is taken of
pub record Intent : Type 0 where
  pub tenant_id : ℕ
  pub branch_id : Option ℕ
  pub owner_profile_id : Option ℕ
  pub requested : Usage
  pub object_keys : List Text

-- UploadQuotaReservation
pub record ReserveReply : Type 0 where
  pub id : ℕ
  pub state : UploadQuotaReservationState
  pub object_keys : List Text

pub record QuotaLimits : Type 0 where
  pub total : Usage
  pub daily : Usage
  pub user : Usage

abbrev pub limit_of : QuotaLimits → UploadQuotaScope → Usage
limit_of limits UploadQuotaScope.tenant_total = limits.total
limit_of limits UploadQuotaScope.tenant_daily = limits.daily
limit_of limits UploadQuotaScope.user_daily = limits.user

-- `key.includes('..')`
abbrev has_dots : Text → Bool
has_dots [] = false
has_dots (c ∷ s) = let rest = has_dots s in c == b'.' && starts_with (b'.' ∷ []) s || rest

abbrev bad_object_key : Text → Text → Bool
bad_object_key tenant key =
    not (starts_with (tenant ++ (b'/' ∷ [])) key)
    || has_dots key
    || any (λ c. c == b'\\') key
    || starts_with (b'/' ∷ []) key

abbrev pub bad_object_keys : Text → List Text → Bool
bad_object_keys tenant [] = true
bad_object_keys tenant (key ∷ keys) = any (bad_object_key tenant) (key ∷ keys)

-- a row with the defaults of its columns
abbrev pub fresh_counter : CounterKey → Usage → Counter
fresh_counter key limit = record {
  key = key;
  limit = limit;
  confirmed = no_usage;
  reserved = no_usage;
}

-- INSERT ... ON CONFLICT DO NOTHING
unfoldable pub insert_counter : CounterKey → Usage → List Counter → List Counter
insert_counter key limit counters =
    if any (λ c. key_eq c.key key) counters
    then counters
    else counters ++ (fresh_counter key limit ∷ [])

-- the UPDATE under its limits; `none` where it changes no row
unfoldable pub take_counter : CounterKey → Usage → Usage → List Counter → Option (List Counter)
take_counter key requested limit [] = none
take_counter key requested limit (c ∷ counters) =
    let rest = take_counter key requested limit counters in
    if key_eq c.key key
    then (if within (add_usage (add_usage c.confirmed c.reserved) requested) limit
        then some (record c { reserved = add_usage c.reserved requested; limit = limit } ∷ counters)
        else none)
    else elim rest [ none ↦ none | some taken ↦ some (c ∷ taken) ]

abbrev exceeded : UploadQuotaScope → QuotaError
exceeded scope = if scope_eq scope user_daily then user_quota_exceeded else tenant_quota_exceeded

-- one round of the loop over the scopes
unfoldable pub take_quota :
    QuotaLimits → Usage → CounterKey → List Counter → Result QuotaError (List Counter)
unfolding insert_counter take_counter
take_quota limits requested key counters =
    let limit = limit_of limits key.scope in
    elim (take_counter key requested limit (insert_counter key limit counters)) [
      | none ↦ err (exceeded key.scope)
      | some counters' ↦ ok counters'
    ]

unfoldable pub take_quotas :
    QuotaLimits → Usage → List CounterKey → List Counter → Result QuotaError (List Counter)
unfolding take_quota
take_quotas limits requested [] counters = ok counters
take_quotas limits requested (key ∷ keys) counters = do
  counters' ← take_quota limits requested key counters
  take_quotas limits requested keys counters'

abbrev pub has_key : ReserveInput → ℕ × Reservation → Bool
has_key input e =
    e.1.tenant_id == input.tenant_id && text_eq e.1.idempotency_key input.idempotency_key

abbrev to_result : ℕ → Reservation → ReserveReply
to_result id r = record { id = id; state = r.state; object_keys = r.object_keys }

abbrev pub requested_of : ReserveInput → Usage
requested_of input = record {
  bytes = input.incoming_bytes;
  files = or_default input.incoming_files 1;
}

module _ (hash : Intent → Text) where
  abbrev pub intent_hash : ReserveInput → Text
  intent_hash input = hash (record {
    tenant_id = input.tenant_id;
    branch_id = input.branch_id;
    owner_profile_id = input.owner_profile_id;
    requested = requested_of input;
    object_keys = input.object_keys;
  })

  -- the row, where `now` is the service's clock and `created_at` what the row's default gives
  abbrev pub new_reservation : ℕ → ℕ → ReserveInput → Reservation
  new_reservation now created_at input = record {
    tenant_id = input.tenant_id;
    branch_id = input.branch_id;
    owner_profile_id = input.owner_profile_id;
    idempotency_key = input.idempotency_key;
    intent_hash = intent_hash input;
    requested = requested_of input;
    state = UploadQuotaReservationState.reserved;
    object_keys = input.object_keys;
    expires_at = or_default input.expires_at (now + 15 * 60 * 1000);
    created_at = created_at;
  }

  -- The transaction, for a key that is not in use.
  unfoldable pub reserve_new :
      QuotaLimits
      → ℕ
      → ℕ
      → ℕ
      → ReserveInput
      → QuotaStore
      → Result QuotaError (ReserveReply × QuotaStore)
  unfolding take_quotas
  reserve_new limits now created_at new_id input st = do
    throw_if (is_some (get new_id st.reservations)) duplicate_id
    counters ←
        take_quotas limits (requested_of input)
          (quota_keys input.tenant_id input.owner_profile_id (day_of now)) st.counters
    let row = new_reservation now created_at input
    ok (
      to_result new_id row,
      record { counters = counters; reservations = put new_id row st.reservations },
    )

  unfoldable pub reserve_tx :
      QuotaLimits
      → ℕ
      → ℕ
      → ℕ
      → ReserveInput
      → QuotaStore
      → Result QuotaError (ReserveReply × QuotaStore)
  unfolding reserve_new
  reserve_tx limits now created_at new_id input st = elim (find (has_key input) st.reservations) [
    | none ↦ reserve_new limits now created_at new_id input st
    | some e ↦
        if text_eq e.1.intent_hash (intent_hash input)
        then ok (to_result e.0 e.1, st)
        else err key_reused
  ]

  -- `enabled` is UPLOAD_ENABLE_QUOTAS; without it there is no reservation.
  unfoldable pub reserve :
      Bool
      → (ℕ → Text)
      → QuotaLimits
      → ℕ
      → ℕ
      → ℕ
      → ReserveInput
      → QuotaStore
      → Result QuotaError (Option ReserveReply × QuotaStore)
  unfolding reserve_tx
  reserve enabled spell limits now created_at new_id input st =
      if not enabled then ok (none, st) else do
        throw_if ((requested_of input).files == 0) not_positive
        throw_if (bad_object_keys (spell input.tenant_id) input.object_keys) invalid_object_key
        r ← reserve_tx limits now created_at new_id input st
        ok (some r.0, r.1)
