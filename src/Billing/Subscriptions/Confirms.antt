-- ===== src/Billing/Subscriptions/Confirms.antt =====
-- What a confirmation makes of a plan change and of its checkout: `confirmPlanChangeFromWebhook` of
-- src/billing/subscriptions.service.ts.
use next_stock_oficial.Prelude.{
  ℕ, ◌≡◌, refl, ◌∙◌, ap, true, false, some, arith, inl, inr, Bool-cases, Option-cases, ◌≢◌, ◌*◌, [],
  ◌∷◌, ==→≡,
}
use next_stock_oficial.Prelude.Result.{ok, ok-injective}
use next_stock_oficial.Prelude.Table.{get, matching-cases, get-put_self}
use next_stock_oficial.Prelude.Text.{Text, text_eq}
use next_stock_oficial.Billing.Plans.{PlanInterval, recurrence}
use next_stock_oficial.Billing.Entitlement.{Subscription}
use next_stock_oficial.Billing.Subscriptions.{
  Accounts, CheckoutSession, Plan, SubscriptionOperation, processing, unknown,
}
use next_stock_oficial.Billing.Subscriptions.Newest.{IsNewest, find_checkout-IsNewest}
use next_stock_oficial.Billing.Subscriptions.PlanChange.{is_unknown}
use next_stock_oficial.Billing.Subscriptions.Confirm.{
  ConfirmReads, SubscriptionTerms, terms_match, find_checkout, confirmed, apply_plan_change,
  confirm_plan_change,
}

-- The provider asks for what the plan costs, in its currency and as often.
pub record Agrees (to_upper : Text → Text) (plan : Plan) (terms : SubscriptionTerms) : Type 0 where
  pub authorized : terms.is_authorized ≡ true
  pub price : terms.amount_cents ≡ plan.price_cents
  pub currency : terms.currency ≡ to_upper plan.currency
  pub months : terms.in_months ≡ true
  pub by_months : plan.interval ≡ PlanInterval.monthly → terms.frequency ≡ plan.interval_count
  pub by_years : plan.interval ≡ PlanInterval.yearly → terms.frequency ≡ 12 * plan.interval_count
  pub recurs : plan.interval ≢ PlanInterval.lifetime

text_eq→≡ : (s t : Text) → text_eq s t ≡ true → s ≡ t
text_eq→≡ [] [] h = refl
text_eq→≡ [] (d ∷ t) h = absurd (ground (arith, h))
text_eq→≡ (c ∷ s) [] h = absurd (ground (arith, h))
text_eq→≡ (c ∷ s) (d ∷ t) h =
    let first : c ≡ d = ==→≡ c d (ground (arith, h)) in
    ap (λ x. x ∷ s) first ∙ ap (λ x. d ∷ x) (text_eq→≡ s t (ground (arith, h)))

terms_match-Agrees :
    (to_upper : Text → Text) (plan : Plan) (months : ℕ) (terms : SubscriptionTerms)
    → recurrence plan.interval plan.interval_count ≡ some months
    → terms_match to_upper plan months terms ≡ true
    → Agrees to_upper plan terms
unfolding recurrence
terms_match-Agrees to_upper plan months terms regular h = record {
  authorized = ground (arith, h);
  price = ground (arith, h);
  currency = text_eq→≡ terms.currency (to_upper plan.currency) (ground (arith, h));
  months = ground (arith, h);
  by_months = λ is. ground (arith, h, is, regular);
  by_years = λ is. ground (arith, h, is, regular);
  recurs = λ is. ground (arith, is, regular);
}

-- What a confirmation that goes through has seen and done.
pub record Confirms (to_upper : Text → Text) (remote : ℕ) (reads : ConfirmReads)
    (terms : SubscriptionTerms) (st st' : Accounts) : Type 0 where
  pub agreed : Agrees to_upper reads.target terms
  pub operation : SubscriptionOperation
  pub there : get reads.operation_id st.operations ≡ some operation
  pub was_unknown : operation.state ≡ unknown
  pub now_processing :
      get reads.operation_id st'.operations ≡ some (record operation { state = processing })
  pub checkout_id : ℕ
  pub checkout : CheckoutSession
  pub newest :
      IsNewest reads.subscription.tenant_id reads.id remote st.checkouts (checkout_id, checkout)
  pub repriced :
      get checkout_id st'.checkouts
      ≡ some (record checkout {
        plan_id = reads.target_id;
        expected_amount_cents = reads.target.price_cents;
        currency = reads.target.currency;
      })
  pub plan_stays : st'.subscriptions ≡ st.subscriptions

is_unknown-true : (o : SubscriptionOperation) → is_unknown o.state ≡ true → o.state ≡ unknown
is_unknown-true o h = ground (arith, h)

apply_plan_change_ok :
    (id : ℕ) (s : Subscription) (remote operation_id target_id : ℕ) (target : Plan) (st : Accounts)
    {st' : Accounts}
    → apply_plan_change id s remote operation_id target_id target st ≡ (true, st')
    → (c : ℕ × CheckoutSession) × (o : SubscriptionOperation) × (find_checkout s.tenant_id id remote
          st.checkouts
        ≡ some c)
      × (get operation_id st.operations ≡ some o)
      × (is_unknown o.state ≡ true)
      × (st' ≡ confirmed id s operation_id o target_id target c st)
unfolding apply_plan_change
apply_plan_change_ok id s remote operation_id target_id target st {st'} h =
    elim (Option-cases (find_checkout s.tenant_id id remote st.checkouts)) [
      | inl missing ↦ absurd (ground (arith, missing, ap (λ x. x.0) h))
      | inr (c, found) ↦
          elim (matching-cases (λ o. is_unknown o.state) (get operation_id st.operations)) [
            | inl lost ↦ absurd (ground (arith, found, lost, ap (λ x. x.0) h))
            | inr (o, row, unclear, matched) ↦
                (c, o, found, row, unclear, ground (arith, found, matched, ap (λ x. x.1) h))
          ]
    ]

confirm_plan_change_ok :
    (to_upper : Text → Text) (remote : ℕ) (reads : ConfirmReads) (terms : SubscriptionTerms)
    (st : Accounts) {st' : Accounts}
    → confirm_plan_change to_upper remote reads terms st ≡ ok (true, st')
    → (months : ℕ) × (recurrence reads.target.interval reads.target.interval_count ≡ some months)
      × (terms_match to_upper reads.target months terms ≡ true)
      × (apply_plan_change reads.id reads.subscription remote reads.operation_id reads.target_id
            reads.target st
          ≡ (true, st'))
unfolding confirm_plan_change
confirm_plan_change_ok to_upper remote reads terms st h =
    let t = reads.target in
    elim (Option-cases (recurrence t.interval t.interval_count)) [
      | inl irregular ↦ absurd (ground (arith, irregular, h))
      | inr (months, regular) ↦ elim (Bool-cases (terms_match to_upper t months terms)) [
        | inr other ↦ absurd (ground (arith, regular, other, h))
        | inl agreed ↦
            (months, regular, agreed, ok-injective (rw (regular, agreed, confirm_plan_change) at h))
      ]
    ]

-- a second confirmation finds the operation no longer unknown
confirm_again :
    (to_upper : Text → Text) (remote : ℕ) (reads : ConfirmReads) (terms : SubscriptionTerms)
    (st : Accounts) {o : SubscriptionOperation} {months : ℕ}
    → recurrence reads.target.interval reads.target.interval_count ≡ some months
    → get reads.operation_id st.operations ≡ some o
    → is_unknown o.state ≡ false
    → confirm_plan_change to_upper remote reads terms st ≡ ok (false, st)
unfolding confirm_plan_change apply_plan_change
confirm_again to_upper remote reads terms st regular row known =
    elim (Option-cases (find_checkout reads.subscription.tenant_id reads.id remote st.checkouts)) [
      | inl missing ↦ ground (arith, regular, missing)
      | inr (c, found) ↦ ground (arith, regular, found, row, known)
    ]

-- A confirmation that goes through has seen the provider ask for the price, the currency and the
-- months of the target plan, by month or by year. The operation was unknown and is being processed
-- now, a checkout of the tenant's remote subscription, of which none is newer, expects the new
-- price, and the subscription keeps the plan that is paid for. A second confirmation with the same
-- reads, whatever the terms, changes nothing.
pub confirm_plan_change_once :
    (to_upper : Text → Text) (remote : ℕ) (reads : ConfirmReads) (terms : SubscriptionTerms)
    (st : Accounts) {st' : Accounts}
    → confirm_plan_change to_upper remote reads terms st ≡ ok (true, st')
    → Confirms to_upper remote reads terms st st'
      × ((terms' : SubscriptionTerms)
          → confirm_plan_change to_upper remote reads terms' st' ≡ ok (false, st'))
confirm_plan_change_once to_upper remote reads terms st {st'} h =
    let (months, regular, agreed, applied) =
      confirm_plan_change_ok to_upper remote reads terms st h in
    let (c, o, found, row, unclear, is) =
      apply_plan_change_ok reads.id reads.subscription remote reads.operation_id reads.target_id
        reads.target st applied in
    let now = record o { state = processing } in
    let settled =
      ap (λ x. get reads.operation_id x.operations) is
      ∙ get-put_self reads.operation_id now st.operations in
    (
      record {
        agreed = terms_match-Agrees to_upper reads.target months terms regular agreed;
        operation = o;
        there = row;
        was_unknown = is_unknown-true o unclear;
        now_processing = settled;
        checkout_id = c.0;
        checkout = c.1;
        newest =
            find_checkout-IsNewest reads.subscription.tenant_id reads.id remote st.checkouts found;
        repriced =
            ap (λ x. get c.0 x.checkouts) is
            ∙ get-put_self c.0
                (record c.1 {
                  plan_id = reads.target_id;
                  expected_amount_cents = reads.target.price_cents;
                  currency = reads.target.currency;
                })
                st.checkouts;
        plan_stays = ap (λ x. x.subscriptions) is;
      },
      λ terms'. confirm_again to_upper remote reads terms' st' regular settled refl,
    )
