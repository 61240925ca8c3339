-- ===== src/Fulfillment.antt =====
-- Transfers from the warehouse (Galpão) to Mercado Livre's fulfillment centre (Full), and their
-- reconciliation with what Mercado Livre reports.
pub mod Transfer
pub mod Event
pub mod Fifo
pub mod Windows
pub mod Paging
pub mod Catalog
pub mod Drain
pub mod Scan
pub mod Request
pub mod Send
