-- ===== src/Promotions.antt =====
-- src/promotions/promotions.service.ts: the places of a promotion.
pub mod Campaigns
