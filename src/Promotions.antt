-- ===== src/Promotions.antt =====
-- src/tiny_mirror/services/ml_promotion_service.py: the promotions that Mercado Livre offers for a
-- listing, the engine that decides about them, and the table of its decisions. Amounts are whole
-- cents, percentages hundredths of a percent; a quotient is rounded once, a half to the even one.
pub mod Score
pub mod Decide
pub mod Decisions
pub mod Bulk
pub mod Stale
pub mod Enumerate
pub mod Generate
pub mod Reconcile
pub mod Write
pub mod Apply
pub mod Routes
pub mod Resubscribe
use tiny_mirror.Prelude.{ℕ, String, Bool, true, false, Option, none, some, ℤ, pos}

-- What `GET /seller-promotions/items/{MLB}` says of one promotion.
pub record Offer : Type 0 where
  pub id : Option String
  pub type : Option String
  pub name : Option String
  pub status : Option String
  pub price : Option ℤ
  pub original_price : Option ℕ
  pub meli_percentage : Option ℤ
  pub seller_percentage : Option ℤ
  pub fixed_percentage : Option ℤ
  pub min_discounted_price : Option ℤ
  pub max_discounted_price : Option ℤ
  pub suggested_discounted_price : Option ℤ
  pub stock_min : Option ℕ
  pub stock_max : Option ℕ
  pub start_date : Option String
  pub finish_date : Option String

-- `float(x or 0)`
abbrev pub or_zero : Option ℤ → ℤ
or_zero none = pos 0
or_zero (some z) = z

-- `x or ""`
abbrev pub or_empty : Option String → String
or_empty none = ""
or_empty (some text) = text
