-- ===== src/Stock.antt =====
-- The stock of a product as Tiny and Mercado Livre report it.
pub mod Deposits
pub mod Full
pub mod Item
pub mod Detection
