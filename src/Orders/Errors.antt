-- ===== src/Orders/Errors.antt =====
-- The exceptions of src/orders/orders.service.ts, one for each message.
use next_stock_oficial.Sales.Errors.{SaleError}

pub data OrderError : Type 0 where
  -- NotFoundException('Pedido nao encontrado.')
  order_not_found : OrderError
  -- BadRequestException('Produto do pedido nao pertence a filial atual.')
  product_not_in_branch : OrderError
  -- BadRequestException(`Estoque insuficiente para ${product.name}.`)
  product_short : OrderError
  -- BadRequestException('Estoque insuficiente para concluir o pedido.')
  stock_short : OrderError
  -- BadRequestException('Pedido pago, cancelado ou estornado nao pode ser alterado.')
  order_final : OrderError
  -- BadRequestException('Pedido entregue nao pode ser alterado.')
  order_already_delivered : OrderError
  -- ConflictException('Pedido foi alterado por outro usuario. ...')
  version_conflict : OrderError
  -- ConflictException('Status do pedido mudou durante ...')
  status_changed : OrderError
  -- ConflictException('Pedido pago possui venda vinculada. ...')
  sale_linked : OrderError
  -- the primary key of the orders, code P2002
  duplicate_id : OrderError
  -- what `SalesService.createFromOrder` throws
  sale_failed : SaleError → OrderError
