-- ===== src/Storage/Quota/Steps.antt =====
-- Uploads and the reconciliation job on one set of quotas: their steps, in any order.
use next_stock_oficial.Prelude.{
  ℕ, ◌≡◌, sym, subst, Bool, Option, List, [], ◌∷◌, find, All, ◌==◌, arith, Bool-cases, Option-cases,
  inl, inr,
}
use next_stock_oficial.Prelude.Result.{Result, ok, err, Result-cases, >>=-eq-ok, throw_if}
use next_stock_oficial.Prelude.Text.{Text, text_eq}
use next_stock_oficial.Storage.Quota.{QuotaStore, day_of}
use next_stock_oficial.Storage.Quota.Reserve.{
  QuotaError, QuotaLimits, ReserveInput, ReserveReply, Intent, intent_hash, reserve_tx, reserve,
  has_key, requested_of, bad_object_keys,
}
use next_stock_oficial.Storage.Quota.Settle.{
  Target, transition, require_reconciliation, settled_store, reconcile_expired_batch,
}
use next_stock_oficial.Storage.Quota.Ledger.{IsBalanced}
use next_stock_oficial.Storage.Quota.Balance.{reserve_new-IsBalanced, transition-IsBalanced}
use next_stock_oficial.Storage.Quota.Reconcile.{
  require_reconciliation-IsBalanced, reconcile_expired_batch-IsBalanced,
}

-- `now` is the clock of the service, and `created_at` that of the row.
pub data Step : Type 0 where
  reserves : (now created_at new_id : ℕ) → ReserveInput → Step
  settles : Target → ℕ → Step
  requires_reconciliation : ℕ → Step
  reconciles : (has_file locked : ℕ → Bool) → (limit now : ℕ) → Step

-- the two clocks of a reservation read the same UTC day
abbrev pub Punctual : Step → Type 0
Punctual (reserves now created_at new_id input) = day_of now ≡ day_of created_at
Punctual _ = Unit

abbrev reserved_store :
    QuotaStore → Result QuotaError (Option ReserveReply × QuotaStore) → QuotaStore
reserved_store st (ok r) = r.1
reserved_store st (err e) = st

-- UPLOAD_ENABLE_QUOTAS, and the parameters of `reserve`
module _ (hash : Intent → Text) (enabled : Bool) (spell : ℕ → Text) (limits : QuotaLimits) where
  unfoldable pub step : Step → QuotaStore → QuotaStore
  step (reserves now created_at new_id input) st =
      reserved_store st (reserve hash enabled spell limits now created_at new_id input st)
  step (settles target id) st = settled_store st (transition target id st)
  step (requires_reconciliation id) st = require_reconciliation id st
  step (reconciles has_file locked limit now) st =
      (reconcile_expired_batch has_file locked limit now st).1

  unfoldable pub steps : List Step → QuotaStore → QuotaStore
  unfolding step
  steps [] st = st
  steps (s ∷ ss) st = steps ss (step s st)

  reserve_tx-IsBalanced :
      (now created_at new_id : ℕ) (input : ReserveInput) (st : QuotaStore)
      {r : ReserveReply × QuotaStore}
      → IsBalanced st
      → day_of now ≡ day_of created_at
      → reserve_tx hash limits now created_at new_id input st ≡ ok r
      → IsBalanced r.1
  unfolding reserve_tx
  reserve_tx-IsBalanced now created_at new_id input st v same h =
      elim (Option-cases (find (has_key input) st.reservations)) [
        | inl absent ↦
            reserve_new-IsBalanced hash limits now created_at new_id input st v same
              (rw (absent, reserve_tx) at h)
        | inr (e, found) ↦ elim (Bool-cases (text_eq e.1.intent_hash (intent_hash hash input))) [
          | inr differs ↦ absurd (ground (arith, found, differs, h))
          | inl equal ↦ subst IsBalanced (ground (arith, found, equal, h)) v
        ]
      ]

  reserve-IsBalanced :
      (now created_at new_id : ℕ) (input : ReserveInput) (st : QuotaStore)
      {r : Option ReserveReply × QuotaStore}
      → IsBalanced st
      → day_of now ≡ day_of created_at
      → reserve hash enabled spell limits now created_at new_id input st ≡ ok r
      → IsBalanced r.1
  unfolding reserve
  reserve-IsBalanced now created_at new_id input st {r} v same h = elim (Bool-cases enabled) [
    | inr off ↦ subst IsBalanced (ground (arith, off, h)) v
    | inl on ↦
        let (_, h1, h2) = >>=-eq-ok (throw_if ((requested_of input).files == 0) _) _ (rw on at h) in
        let (_, h3, h4) =
          >>=-eq-ok (throw_if (bad_object_keys (spell input.tenant_id) input.object_keys) _) _ h2 in
        let (reply, h5, h6) =
          >>=-eq-ok (reserve_tx hash limits now created_at new_id input st) _ h4 in
        let is : reply.1 ≡ r.1 = ground (arith, h6) in
        subst IsBalanced is (reserve_tx-IsBalanced now created_at new_id input st v same h5)
  ]

  step-IsBalanced :
      (s : Step) (st : QuotaStore) → IsBalanced st → Punctual s → IsBalanced (step s st)
  unfolding step
  step-IsBalanced (reserves now created_at new_id input) st v p =
      elim (Result-cases (reserve hash enabled spell limits now created_at new_id input st)) [
        | inr (e, failed) ↦ subst (λ x. IsBalanced (reserved_store st x)) (sym failed) v
        | inl (r, done) ↦
            subst (λ x. IsBalanced (reserved_store st x)) (sym done)
              (reserve-IsBalanced now created_at new_id input st v p done)
      ]
  step-IsBalanced (settles target id) st v p = elim (Result-cases (transition target id st)) [
    | inr (e, failed) ↦ subst (λ x. IsBalanced (settled_store st x)) (sym failed) v
    | inl (r, done) ↦
        subst (λ x. IsBalanced (settled_store st x)) (sym done)
          (transition-IsBalanced target id st v done)
  ]
  step-IsBalanced (requires_reconciliation id) st v p = require_reconciliation-IsBalanced id st v
  step-IsBalanced (reconciles has_file locked limit now) st v p =
      (reconcile_expired_batch-IsBalanced has_file locked limit now st v).0

  -- Over any steps of uploads and reconciliations whose reservations are made within one UTC day,
  -- the counters stay in balance: each has reserved exactly what the open reservations hold of it,
  -- and what it has confirmed and reserved is within its limit.
  pub steps-IsBalanced :
      (ss : List Step) (st : QuotaStore)
      → IsBalanced st
      → All Punctual ss
      → IsBalanced (steps ss st)
  unfolding steps
  steps-IsBalanced [] st v p = v
  steps-IsBalanced (s ∷ ss) st v (p, ps) =
      steps-IsBalanced ss (step s st) (step-IsBalanced s st v p) ps
