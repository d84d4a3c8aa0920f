-- ===== src/Sales/Payment.antt =====
-- `loadPaymentMachine` and `validatePayment` of src/sales/sales.service.ts.
use next_stock_oficial.Prelude.{
  ℕ, ◌-◌, Bool, true, false, not, ◌&&◌, Option, none, some, is_none, is_some, ltb, ◌==◌,
  if◌then◌else◌,
}
use next_stock_oficial.Prelude.Result.{Result, ok, err}
use next_stock_oficial.Prelude.Table.{Table, get, matching}
use next_stock_oficial.Store.{
  Context, OrderPaymentMethod, PaymentMachine, in_scope, cash, credit_card, debit_card,
}
use next_stock_oficial.Sales.Errors.{
  SaleError, machine_required, machine_not_allowed, machine_unavailable, payment_short,
  payment_not_exact,
}

abbrev pub is_card : OrderPaymentMethod → Bool
is_card credit_card = true
is_card debit_card = true
is_card _ = false

abbrev pub is_cash : OrderPaymentMethod → Bool
is_cash cash = true
is_cash _ = false

abbrev pub machine_usable : Context → PaymentMachine → Bool
machine_usable ctx m = in_scope ctx m.tenant_id m.branch_id && m.is_active && is_none m.deleted_at

-- the id of the machine, or `none` where the method needs none
unfoldable pub load_payment_machine :
    Context → Table PaymentMachine → OrderPaymentMethod → Option ℕ → Result SaleError (Option ℕ)
load_payment_machine ctx machines method machine_id =
    if is_card method && is_none machine_id
    then err machine_required
    else if not (is_card method) && is_some machine_id
    then err machine_not_allowed
    else elim machine_id [
      | none ↦ ok none
      | some id ↦ elim (matching (machine_usable ctx) (get id machines)) [
        | none ↦ err machine_unavailable
        | some m ↦ ok (some id)
      ]
    ]

-- the change to give back
unfoldable pub validate_payment : OrderPaymentMethod → ℕ → ℕ → Result SaleError ℕ
validate_payment method paid_cents total_cents =
    if ltb paid_cents total_cents
    then err payment_short
    else if not (is_cash method) && not (paid_cents == total_cents)
    then err payment_not_exact
    else ok (paid_cents - total_cents)
