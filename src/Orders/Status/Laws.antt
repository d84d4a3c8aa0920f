-- ===== src/Orders/Status/Laws.antt =====
-- The transition table of src/orders/order-status-transitions.ts: its two readings agree, and it
-- has no way back.
use next_stock_oficial.Prelude.{ℕ, ◌<◌, ◌≤◌, ◌≡◌, true, arith}
use next_stock_oficial.Orders.Status.{
  OrderStatus, pending, paid, preparing, delivered, canceled, refunded, includes,
  order_status_transitions, sources_for, can_transition,
}

-- `sourcesFor` is the transition table read backwards: a status is among the sources of `next`
-- exactly when `next` is among the successors of that status.
pub includes-sources_for :
    (current next : OrderStatus)
    → includes (sources_for next) current ≡ includes (order_status_transitions current) next
unfolding sources_for
includes-sources_for pending next = ground arith
includes-sources_for paid next = ground arith
includes-sources_for preparing next = ground arith
includes-sources_for delivered next = ground arith
includes-sources_for canceled next = ground arith
includes-sources_for refunded next = ground arith

-- how far an order has come
abbrev pub stage : OrderStatus → ℕ
stage pending = 0
stage preparing = 1
stage paid = 2
stage delivered = 3
stage canceled = 4
stage refunded = 4

-- Each transition of the table leads to a later stage.
pub stage_grows :
    (current next : OrderStatus)
    → includes (order_status_transitions current) next ≡ true
    → stage current < stage next
unfolding order_status_transitions
stage_grows pending next h = ground arith
stage_grows paid next h = ground arith
stage_grows preparing next h = ground arith
stage_grows delivered next h = ground arith
stage_grows canceled next h = ground arith
stage_grows refunded next h = ground arith

-- A status that may follow another stands at the same stage or later.
pub stage_le : (s t : OrderStatus) → can_transition s t ≡ true → stage s ≤ stage t
unfolding can_transition
stage_le s t h = ground arith
