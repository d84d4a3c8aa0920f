-- ===== src/Orders/Status.antt =====
-- src/orders/order-status-transitions.ts: the state machine of an order's status.
pub mod Laws
use next_stock_oficial.Prelude.{ℕ, Bool, ◌||◌, List, [], ◌∷◌, any, select, ◌==◌}

-- the enumeration OrderStatus of the database schema
pub data OrderStatus : Type 0 where
  pending paid preparing delivered canceled refunded : OrderStatus

abbrev code : OrderStatus → ℕ
code pending = 0
code paid = 1
code preparing = 2
code delivered = 3
code canceled = 4
code refunded = 5

-- `a === b`
abbrev pub status_eq : OrderStatus → OrderStatus → Bool
status_eq a b = code a == code b

-- `statuses.includes(s)`
abbrev pub includes : List OrderStatus → OrderStatus → Bool
includes l s = any (λ x. status_eq x s) l

unfoldable pub order_status_transitions : OrderStatus → List OrderStatus
order_status_transitions pending = preparing ∷ paid ∷ delivered ∷ canceled ∷ []
order_status_transitions preparing = paid ∷ delivered ∷ canceled ∷ []
order_status_transitions paid = delivered ∷ refunded ∷ []
order_status_transitions delivered = refunded ∷ []
order_status_transitions canceled = []
order_status_transitions refunded = []

-- `Object.keys(ORDER_STATUS_TRANSITIONS)`, in the order of the literal
abbrev statuses : List OrderStatus
statuses = pending ∷ preparing ∷ paid ∷ delivered ∷ canceled ∷ refunded ∷ []

unfoldable pub sources_for : OrderStatus → List OrderStatus
unfolding order_status_transitions
sources_for next = select (λ current. includes (order_status_transitions current) next) statuses

unfoldable pub can_transition : OrderStatus → OrderStatus → Bool
unfolding order_status_transitions
can_transition current next =
    status_eq current next || includes (order_status_transitions current) next
