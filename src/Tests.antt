-- ===== src/Tests.antt =====
-- The theorems at concrete inputs.
mod Samples
mod Reception
mod Drain
mod Scan
mod Send
mod Sales
mod Sync
mod Stock
mod Item
mod Pricing
mod Caps
mod Promotions
mod Resubscribe
mod Routes
mod RateLimiter
mod Rotation
