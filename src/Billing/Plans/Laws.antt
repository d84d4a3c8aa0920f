-- ===== src/Billing/Plans/Laws.antt =====
-- Who may change to which plan.
use next_stock_oficial.Prelude.{
  ℕ, ◌≤◌, ◌<◌, ◌≡◌, ◌⊎◌, inl, inr, refl, Option, none, some, leb, arith, Bool-cases,
}
use next_stock_oficial.Prelude.Int.{ℤ, pos, negsuc}
use next_stock_oficial.Billing.Plans.{
  PlanSlug, eligible, server_usage_limit_cents, check_downgrade, check_limits,
  check_plan_change_eligibility,
}

-- the usage of the last complete cycle is known, and below the limit
abbrev UsedLess : Option ℤ → ℕ → Type 0
UsedLess none limit = ⊥
UsedLess (some (pos n)) limit = n < limit
UsedLess (some (negsuc n)) limit = ⊥

check_downgrade_eligible :
    (limit : ℕ) (usage : Option ℤ) → check_downgrade limit usage ≡ eligible → UsedLess usage limit
unfolding check_downgrade
check_downgrade_eligible limit none h = cc
check_downgrade_eligible limit (some (pos n)) h = ground (arith, h)
check_downgrade_eligible limit (some (negsuc n)) h = absurd (ground (arith, h))

-- the limits of both plans are known, and the new one is no lower or is not used up
pub record MayChange (current : Option PlanSlug) (target : PlanSlug) (usage : Option ℤ)
    : Type 0 where
  pub current_limit : ℕ
  pub target_limit : ℕ
  pub is_current : server_usage_limit_cents current ≡ some current_limit
  pub is_target : server_usage_limit_cents (some target) ≡ some target_limit
  pub room : (current_limit ≤ target_limit) ⊎ UsedLess usage target_limit

check_limits_eligible :
    (c t : Option ℕ) (usage : Option ℤ)
    → check_limits c t usage ≡ eligible
    → (m : ℕ) × (n : ℕ) × (c ≡ some m) × (t ≡ some n) × ((m ≤ n) ⊎ UsedLess usage n)
unfolding check_limits
check_limits_eligible none t usage h = cc
check_limits_eligible (some m) none usage h = cc
check_limits_eligible (some m) (some n) usage h = elim (Bool-cases (leb m n)) [
  | inl up ↦ (m, n, refl, refl, inl (ground (arith, up)))
  | inr down ↦
      (m, n, refl, refl, inr (check_downgrade_eligible n usage (rw (down, check_limits) at h)))
]

-- A change is eligible only between two plans with limits, and then to a limit that is no lower, or
-- that the last complete cycle, where its usage is known, has not reached.
pub eligible_MayChange :
    (current : Option PlanSlug) (target : PlanSlug) (usage : Option ℤ)
    → check_plan_change_eligibility current target usage ≡ eligible
    → MayChange current target usage
unfolding check_plan_change_eligibility
eligible_MayChange current target usage h =
    let (m, n, c, t, room) =
      check_limits_eligible (server_usage_limit_cents current)
        (server_usage_limit_cents (some target)) usage h in
    record { current_limit = m; target_limit = n; is_current = c; is_target = t; room = room }
