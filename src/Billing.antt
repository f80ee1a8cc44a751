-- ===== src/Billing.antt =====
-- Billing (src/modules/billing): the GST engine.
pub mod Gst
