-- ===== src/Sales/Errors.antt =====
-- The exceptions of src/sales/sales.service.ts that the modelled methods throw.
pub data SaleError : Type 0 where
  -- NotFoundException('Pedido nao encontrado.')
  order_not_found : SaleError
  -- NotFoundException('Venda nao encontrada.')
  sale_not_found : SaleError
  -- ConflictException('Status do pedido mudou durante o pagamento.')
  status_changed : SaleError
  -- the unique index on `orderId`, code P2002
  unique_violation : SaleError
  -- BadRequestException('Pagamento com cartao exige uma maquininha ativa da filial.')
  machine_required : SaleError
  -- BadRequestException('Maquininha so pode ser informada para pagamento com cartao.')
  machine_not_allowed : SaleError
  -- BadRequestException('Maquina de pagamento nao pertence a filial atual ou esta inativa.')
  machine_unavailable : SaleError
  -- BadRequestException('O pagamento informado nao cobre o total da venda.')
  payment_short : SaleError
  -- BadRequestException('PIX e cartao devem usar exatamente o total da venda.')
  payment_not_exact : SaleError
  -- BadRequestException('Informe desconto estruturado ou discountCents, nunca os dois.')
  discount_both : SaleError
  -- BadRequestException('Tipo e valor do desconto devem ser informados juntos.')
  discount_half : SaleError
  -- the three messages for a discount above the limit or above the subtotal
  discount_over_limit discount_over_subtotal discount_not_integer : SaleError
  -- BadRequestException('Venda ja esta cancelada.')
  already_canceled : SaleError
  -- BadRequestException('Venda estornada nao pode ser cancelada.')
  already_refunded : SaleError
  -- BadRequestException('A venda deve conter pelo menos um produto ou produto diverso.')
  no_items : SaleError
  -- BadRequestException('Produto da venda nao pertence ao tenant/filial atual.')
  product_not_in_branch : SaleError
  -- the three messages of `normalizeQuantity`
  quantity_not_positive quantity_too_large quantity_too_precise : SaleError
  -- BadRequestException('O produto ... aceita apenas quantidade inteira.')
  quantity_not_whole : SaleError
  -- BadRequestException('Estoque insuficiente para ...')
  product_short : SaleError
  -- BadRequestException('Estoque insuficiente para concluir a venda.')
  stock_short : SaleError
