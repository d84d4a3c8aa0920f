-- ===== src/Billing/Plans.antt =====
-- The plans of a subscription: src/billing/server-usage-policy.ts, plan-change-eligibility.ts and
-- src/promotions/promotion-plan-change-policy.ts.
pub mod Laws
use next_stock_oficial.Prelude.{
  ℕ, ◌*◌, Bool, true, false, not, ◌&&◌, ◌||◌, Option, none, some, List, [], ◌∷◌, ltb, leb, ◌==◌,
  if◌then◌else◌,
}
use next_stock_oficial.Prelude.Int.{ℤ, pos, ltb_ℤ, leb_ℤ}

-- the slug of a plan; all others have no limit of their own
pub data PlanSlug : Type 0 where
  ouro esmeralda diamante : PlanSlug
  other_plan : ℕ → PlanSlug

abbrev pub slug_eq : PlanSlug → PlanSlug → Bool
slug_eq ouro ouro = true
slug_eq esmeralda esmeralda = true
slug_eq diamante diamante = true
slug_eq (other_plan n) (other_plan m) = n == m
slug_eq _ _ = false

pub data PlanInterval : Type 0 where
  monthly yearly lifetime : PlanInterval

-- `serverUsageLimitCents`, which is `null` where there is no plan or no limit
unfoldable pub server_usage_limit_cents : Option PlanSlug → Option ℕ
server_usage_limit_cents none = none
server_usage_limit_cents (some ouro) = some 2500
server_usage_limit_cents (some esmeralda) = some 5000
server_usage_limit_cents (some diamante) = some 15000
server_usage_limit_cents (some (other_plan n)) = none

pub data Eligibility : Type 0 where
  plan_limit_unavailable eligible : Eligibility
  last_cycle_usage_unavailable downgrade_limit_exceeded : Eligibility

-- a downgrade by the usage of the last complete cycle, which is `null` or a number
unfoldable pub check_downgrade : ℕ → Option ℤ → Eligibility
check_downgrade target_limit none = last_cycle_usage_unavailable
check_downgrade target_limit (some usage) =
    if ltb_ℤ usage (pos 0)
    then last_cycle_usage_unavailable
    else if ltb_ℤ usage (pos target_limit)
    then eligible
    else downgrade_limit_exceeded

unfoldable pub check_limits : Option ℕ → Option ℕ → Option ℤ → Eligibility
unfolding check_downgrade
check_limits none target_limit usage = plan_limit_unavailable
check_limits (some current_limit) none usage = plan_limit_unavailable
check_limits (some current_limit) (some target_limit) usage =
    if leb current_limit target_limit then eligible else check_downgrade target_limit usage

unfoldable pub check_plan_change_eligibility : Option PlanSlug → PlanSlug → Option ℤ → Eligibility
unfolding check_limits server_usage_limit_cents
check_plan_change_eligibility current_slug target_slug last_complete_cycle_cost_cents =
    check_limits (server_usage_limit_cents current_slug)
      (server_usage_limit_cents (some target_slug)) last_complete_cycle_cost_cents

pub data PromotionChangeCode : Type 0 where
  promotional_end_unavailable promotional_period_active : PromotionChangeCode
  promotional_option_available usage_unavailable : PromotionChangeCode
  esmeralda_usage_limit_reached esmeralda_usage_below_limit : PromotionChangeCode

-- the two options that are ever offered
pub data PromotionOption : Type 0 where
  esmeralda_promocional diamante_normal : PromotionOption

pub record PromotionChange : Type 0 where
  pub available : Bool
  pub code : PromotionChangeCode
  pub options : List PromotionOption

pub data PromotionalPlan : Type 0 where
  ouro esmeralda : PromotionalPlan

abbrev refuse : PromotionChangeCode → PromotionChange
refuse code = record { available = false; code = code; options = [] }

abbrev offer : PromotionChangeCode → PromotionOption → PromotionChange
offer code option = record { available = true; code = code; options = option ∷ [] }

-- the decision by the usage of a tenant of the plan esmeralda, under its limit
unfoldable pub by_usage : Option ℤ → Option ℕ → PromotionChange
by_usage none limit = refuse usage_unavailable
by_usage (some usage) none = refuse usage_unavailable
by_usage (some usage) (some limit) =
    if ltb_ℤ usage (pos 0) || limit == 0
    then refuse usage_unavailable
    else if leb_ℤ (pos limit) usage
    then offer esmeralda_usage_limit_reached diamante_normal
    else refuse esmeralda_usage_below_limit

-- `promotionChangeOptions`, with an end that is `null` or a valid date
unfoldable pub promotion_change_options :
    Option ℕ → ℕ → PromotionalPlan → Option ℤ → PromotionChange
unfolding by_usage server_usage_limit_cents
promotion_change_options none now plan usage = refuse promotional_end_unavailable
promotion_change_options (some end) now PromotionalPlan.ouro usage =
    if ltb now end
    then refuse promotional_period_active
    else offer promotional_option_available esmeralda_promocional
promotion_change_options (some end) now PromotionalPlan.esmeralda usage =
    if ltb now end
    then refuse promotional_period_active
    else by_usage usage (server_usage_limit_cents (some PlanSlug.esmeralda))

-- `recurrence`: the months between two payments, or `none` for the exception
unfoldable pub recurrence : PlanInterval → ℕ → Option ℕ
recurrence lifetime n = none
recurrence monthly n = if n == 0 then none else some n
recurrence yearly n = if n == 0 then none else some (n * 12)
