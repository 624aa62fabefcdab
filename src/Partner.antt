-- ===== src/Partner.antt =====
-- Webhooks to the partner: the delivery over the network (core/partnerWebhooks/dispatch.ts), and the
-- delivery with its audit log (emit.ts there).
pub mod Dispatch
pub mod Emit
