-- ===== src/Billing/Subscriptions/Newest.antt =====
-- The checkout that a plan change is of: the newest one of the remote subscription, as
-- `confirmPlanChangeFromWebhook` of src/billing/subscriptions.service.ts asks for it.
use next_stock_oficial.Prelude.{
  ℕ, ◌≤◌, ◌≡◌, refl, true, none, some, [], ◌∷◌, All, Any, ltb, arith, inl, inr, Bool-cases,
  Option-cases, subst,
}
use next_stock_oficial.Prelude.Table.{Table}
use next_stock_oficial.Billing.Subscriptions.{CheckoutSession}
use next_stock_oficial.Billing.Subscriptions.PlanChange.{is_checkout_of}
use next_stock_oficial.Billing.Subscriptions.Confirm.{find_checkout, newest_checkout}

-- a checkout of a tenant's subscription that the provider has under `remote`
pub record IsCheckoutOf (tenant_id subscription_id remote : ℕ) (c : CheckoutSession) : Type 0 where
  pub tenant : c.tenant_id ≡ tenant_id
  pub subscription : c.subscription_id ≡ some subscription_id
  pub its_remote : c.gateway_checkout_id ≡ some remote

-- one of the rows, and none of that subscription is newer
pub record IsNewest (tenant_id subscription_id remote : ℕ) (rows : Table CheckoutSession)
    (c : ℕ × CheckoutSession) : Type 0 where
  pub its : IsCheckoutOf tenant_id subscription_id remote c.1
  pub stands : Any (λ e. e ≡ c) rows
  pub newest :
      All
        (λ e. IsCheckoutOf tenant_id subscription_id remote e.1 → e.1.created_at ≤ c.1.created_at)
        rows

module _ (tenant_id subscription_id remote : ℕ) where
  abbrev Fits : ℕ × CheckoutSession → Type 0
  Fits e = is_checkout_of tenant_id subscription_id remote e ≡ true

  Fits-IsCheckoutOf :
      (e : ℕ × CheckoutSession) → Fits e → IsCheckoutOf tenant_id subscription_id remote e.1
  Fits-IsCheckoutOf e h = record {
    tenant = ground (arith, h);
    subscription = ground (arith, h);
    its_remote = ground (arith, h);
  }

  IsCheckoutOf-Fits :
      (e : ℕ × CheckoutSession) → IsCheckoutOf tenant_id subscription_id remote e.1 → Fits e
  IsCheckoutOf-Fits e is = ground (arith, is.tenant, is.subscription, is.its_remote)

  -- no row of the subscription is there
  find_checkout-none :
      (rows : Table CheckoutSession) (t : ℕ)
      → find_checkout tenant_id subscription_id remote rows ≡ none
      → All (λ e. IsCheckoutOf tenant_id subscription_id remote e.1 → e.1.created_at ≤ t) rows
  unfolding find_checkout
  find_checkout-none [] t h = tt
  find_checkout-none (e ∷ rows) t h =
      elim (Bool-cases (is_checkout_of tenant_id subscription_id remote e)) [
        | inl own ↦ absurd (ground (arith, own, h))
        | inr other ↦ (
          λ is. absurd (ground (arith, other, IsCheckoutOf-Fits e is)),
          find_checkout-none rows t (ground (arith, other, h)),
        )
      ]

  -- none of the rows of the subscription is newer than `t`
  abbrev UpTo : ℕ → Table CheckoutSession → Type 0
  UpTo t rows =
      All (λ e. IsCheckoutOf tenant_id subscription_id remote e.1 → e.1.created_at ≤ t) rows

  later : (rows : Table CheckoutSession) (t u : ℕ) → t ≤ u → UpTo t rows → UpTo u rows
  later [] t u le h = tt
  later (e ∷ rows) t u le (first, rest) =
      (λ is. omega (arith, first is, le), later rows t u le rest)

  newest_with :
      (e f : ℕ × CheckoutSession) (rows : Table CheckoutSession)
      → Fits e
      → IsNewest tenant_id subscription_id remote rows f
      → IsNewest tenant_id subscription_id remote (e ∷ rows) (newest_checkout (some f) e)
  newest_with e f rows own rest = elim (Bool-cases (ltb e.1.created_at f.1.created_at)) [
    | inl older ↦
        let is : f ≡ newest_checkout (some f) e = ground (arith, older) in
        subst (IsNewest tenant_id subscription_id remote (e ∷ rows)) is (record {
          its = rest.its;
          stands = inr rest.stands;
          newest = (λ _. ground (arith, older), rest.newest);
        })
    | inr newer ↦
        let is : e ≡ newest_checkout (some f) e = ground (arith, newer) in
        subst (IsNewest tenant_id subscription_id remote (e ∷ rows)) is (record {
          its = Fits-IsCheckoutOf e own;
          stands = inl refl;
          newest = (
            λ _. omega arith,
            later rows f.1.created_at e.1.created_at (ground (arith, newer)) rest.newest,
          );
        })
  ]

  pub find_checkout-IsNewest :
      (rows : Table CheckoutSession) {c : ℕ × CheckoutSession}
      → find_checkout tenant_id subscription_id remote rows ≡ some c
      → IsNewest tenant_id subscription_id remote rows c
  unfolding find_checkout
  find_checkout-IsNewest [] h = absurd (ground (arith, h))
  find_checkout-IsNewest (e ∷ rows) {c} h =
      elim (Bool-cases (is_checkout_of tenant_id subscription_id remote e)) [
        | inr other ↦
            let rest : IsNewest tenant_id subscription_id remote rows c =
              find_checkout-IsNewest rows (ground (arith, other, h)) in
            record {
              its = rest.its;
              stands = inr rest.stands;
              newest = (λ is. absurd (ground (arith, other, IsCheckoutOf-Fits e is)), rest.newest);
            }
        | inl own ↦ elim (Option-cases (find_checkout tenant_id subscription_id remote rows)) [
          | inl alone ↦
              let is : e ≡ c = ground (arith, own, alone, h) in
              subst (IsNewest tenant_id subscription_id remote (e ∷ rows)) is (record {
                its = Fits-IsCheckoutOf e own;
                stands = inl refl;
                newest = (λ _. omega arith, find_checkout-none rows e.1.created_at alone);
              })
          | inr (f, found) ↦
              let is : newest_checkout (some f) e ≡ c = ground (arith, own, found, h) in
              subst (IsNewest tenant_id subscription_id remote (e ∷ rows)) is
                (newest_with e f rows own (find_checkout-IsNewest rows found))
        ]
      ]
