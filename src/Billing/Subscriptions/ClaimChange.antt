-- ===== src/Billing/Subscriptions/ClaimChange.antt =====
-- The claim of `requestPlanChange` of src/billing/subscriptions.service.ts: what it has found, and
-- what it leaves.
use next_stock_oficial.Prelude.{
  ℕ, ◌+◌, ◌≡◌, refl, ◌∙◌, sym, ap, Bool, true, false, Option, none, some, [], ◌∷◌, any, ltb, ◌==◌,
  ==→≡, arith, inl, inr, Bool-cases, if◌then◌else◌,
}
use next_stock_oficial.Prelude.Result.{ok, Result-cases}
use next_stock_oficial.Prelude.Table.{Table, get, put, matching-cases, get-put_self}
use next_stock_oficial.Billing.Entitlement.{Subscription}
use next_stock_oficial.Billing.Subscriptions.{
  Accounts, SubscriptionOperation, is_pending, is_other_pending, put_operation, create_operation,
  newest_row, later_row,
}
use next_stock_oficial.Billing.Subscriptions.PlanChange.{
  PlanChangeRequest, PlanChangeReads, claim_plan_change, still_active, request_name,
}

-- the row of a key is one of the rows
pub any-get :
    (p : ℕ × SubscriptionOperation → Bool) (id : ℕ) (o : SubscriptionOperation)
    (t : Table SubscriptionOperation)
    → get id t ≡ some o
    → p (id, o) ≡ true
    → any p t ≡ true
unfolding get
any-get p id o [] h m = absurd (ground (arith, h))
any-get p id o ((j, q) ∷ t) h m = elim (Bool-cases (j == id)) [
  | inr other ↦ ground (arith, any-get p id o t (ground (arith, other, h)) m)
  | inl same ↦
      let is : q ≡ o = ground (arith, same, h) in
      let first : p (j, q) ≡ true =
        ap (λ k. p (k, q)) (==→≡ j id same) ∙ ap (λ x. p (id, x)) is ∙ m in
      ground (arith, first)
]

-- the key and the time of a row, which decide what the newest is
abbrev pub mark : Option (ℕ × Subscription) → Option (ℕ × ℕ)
mark none = none
mark (some e) = some (e.0, e.1.created_at)

abbrev later_mark : ℕ × ℕ → Option (ℕ × ℕ) → Option (ℕ × ℕ)
later_mark e none = some e
later_mark e (some f) = if ltb e.1 f.1 then some f else some e

mark-later_row :
    (e : ℕ × Subscription) (o : Option (ℕ × Subscription))
    → mark (later_row e o) ≡ later_mark (e.0, e.1.created_at) (mark o)
mark-later_row e none = refl
mark-later_row e (some f) = elim (Bool-cases (ltb e.1.created_at f.1.created_at)) [
  | inl older ↦ ground (arith, older)
  | inr newer ↦ ground (arith, newer)
]

mark-newest_row_cons :
    (tenant_id : ℕ) (e : ℕ × Subscription) (rows : Table Subscription)
    → mark (newest_row tenant_id (e ∷ rows)) ≡ (
        let rest = mark (newest_row tenant_id rows) in
        if e.1.tenant_id == tenant_id then later_mark (e.0, e.1.created_at) rest else rest)
unfolding newest_row
mark-newest_row_cons tenant_id e rows = elim (Bool-cases (e.1.tenant_id == tenant_id)) [
  | inl own ↦ rw own (mark-later_row e (newest_row tenant_id rows))
  | inr other ↦ rw other refl
]

-- a row that keeps its tenant and its time leaves the newest one
pub mark-newest_row :
    (tenant_id k : ℕ) (a b : Subscription) (rows : Table Subscription)
    → get k rows ≡ some a
    → b.tenant_id ≡ a.tenant_id
    → b.created_at ≡ a.created_at
    → mark (newest_row tenant_id (put k b rows)) ≡ mark (newest_row tenant_id rows)
unfolding get put
mark-newest_row tenant_id k a b [] h same time = absurd (ground (arith, h))
mark-newest_row tenant_id k a b ((j, c) ∷ rows) h same time = elim (Bool-cases (j == k)) [
  | inr other ↦
      let there : get k rows ≡ some a = ground (arith, other, h) in
      let is : put k b ((j, c) ∷ rows) ≡ (j, c) ∷ put k b rows = ground (arith, other) in
      ap (λ x. mark (newest_row tenant_id x)) is
      ∙ mark-newest_row_cons tenant_id (j, c) (put k b rows)
      ∙ ap (λ m. if c.tenant_id == tenant_id then later_mark (j, c.created_at) m else m)
          (mark-newest_row tenant_id k a b rows there same time)
      ∙ sym (mark-newest_row_cons tenant_id (j, c) rows)
  | inl here ↦
      let is : put k b ((j, c) ∷ rows) ≡ (j, b) ∷ rows = ground (arith, here, ==→≡ j k here) in
      let it : c ≡ a = ground (arith, here, h) in
      let rest = mark (newest_row tenant_id rows) in
      ap (λ x. mark (newest_row tenant_id x)) is
      ∙ mark-newest_row_cons tenant_id (j, b) rows
      ∙ ap (λ u. if u == tenant_id then later_mark (j, b.created_at) rest else rest)
          (same ∙ ap (λ x. x.tenant_id) (sym it))
      ∙ ap (λ u. if c.tenant_id == tenant_id then later_mark (j, u) rest else rest)
          (time ∙ ap (λ x. x.created_at) (sym it))
      ∙ sym (mark-newest_row_cons tenant_id (j, c) rows)
]

pub marked :
    (o : Option (ℕ × Subscription)) {id t : ℕ}
    → mark o ≡ some (id, t)
    → (s : Subscription) × (o ≡ some (id, s))
marked none h = absurd (ground (arith, h))
marked (some e) h = (e.1, ap (λ k. some (k, e.1)) (ground (arith, h)))

create_operation_ok :
    (id : ℕ) (o : SubscriptionOperation) (st : Accounts) {st' : Accounts}
    → is_pending o.state ≡ true
    → create_operation id o st ≡ ok st'
    → (get id st.operations ≡ none)
      × (any (is_other_pending id o) st.operations ≡ false)
      × (st' ≡ record st { operations = put id o st.operations })
unfolding create_operation put_operation
create_operation_ok id o st p h = (ground (arith, p, h), ground (arith, p, h), ground (arith, p, h))

-- what a claim has found, and what it leaves
pub record IsClaim (r : PlanChangeRequest) (reads : PlanChangeReads) (st st' : Accounts)
    : Type 0 where
  pub row : Subscription
  pub there : get reads.id st.subscriptions ≡ some row
  pub free : get r.new_id st.operations ≡ none
  pub no_other :
      any (is_other_pending r.new_id (request_name r reads.id reads.target_id)) st.operations
      ≡ false
  pub bumped :
      st'.subscriptions ≡ put reads.id (record row { version = row.version + 1 }) st.subscriptions
  pub made : get r.new_id st'.operations ≡ some (request_name r reads.id reads.target_id)

pub claim_plan_change_ok :
    (has_gateway : ℕ → Bool) (r : PlanChangeRequest) (reads : PlanChangeReads) (st : Accounts)
    {st' : Accounts}
    → claim_plan_change has_gateway r reads st ≡ ok st'
    → IsClaim r reads st st'
unfolding claim_plan_change
claim_plan_change_ok has_gateway r reads st {st'} h =
    elim (Bool-cases (has_gateway reads.provider)) [
      | inr gone ↦ absurd (ground (arith, gone, h))
      | inl there ↦ elim (matching-cases (still_active r reads) (get reads.id st.subscriptions)) [
        | inl changed ↦ absurd (ground (arith, there, changed, h))
        | inr (s, row, same, matched) ↦
            let bumped = record s { version = s.version + 1 } in
            let st1 = record st { subscriptions = put reads.id bumped st.subscriptions } in
            let o = request_name r reads.id reads.target_id in
            elim (Result-cases (create_operation r.new_id o st1)) [
              | inr (e, clash) ↦ absurd (ground (arith, there, matched, clash, h))
              | inl (made, created) ↦
                  let is : made ≡ st' = ground (arith, there, matched, created, h) in
                  let (free, alone, wrote) = create_operation_ok r.new_id o st1 refl created in
                  record {
                    row = s;
                    there = row;
                    free = free;
                    no_other = alone;
                    bumped = ap (λ x. x.subscriptions) (sym is ∙ wrote);
                    made =
                        ap (λ x. get r.new_id x.operations) (sym is ∙ wrote)
                        ∙ get-put_self r.new_id o st.operations;
                  }
            ]
      ]
    ]
