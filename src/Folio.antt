-- ===== src/Folio.antt =====
-- A stay's folio (src/modules/folio/folio.service.ts): its charges, its payments and refunds, its
-- summary and balance, and the lemmas on them.
pub mod Charges
pub mod Receipts
pub mod Summary
pub mod Payments
pub mod Lines
