-- ===== src/Promotions/Routes/Serve.antt =====
-- The requests that the routes of a decision serve (src/tiny_mirror/api/routers/ml_promotions.py).
use tiny_mirror.Prelude.{ℕ, String, Bool, Option, List}
use tiny_mirror.Fulfillment.Transfer.{Time}
use tiny_mirror.Promotions.Decisions.{Row, reject, ignore}
use tiny_mirror.Promotions.Write.{Request, WriteResult}
use tiny_mirror.Promotions.Routes.{
  DecideIn, Response, settle_route, undo_decision, approve_decision, retry_decision_ml,
}

pub data Route : Type 0 where
  approve_one : (flag : Bool) (now : Time) (id : ℕ) (body : DecideIn) → Route
  retry_one : (flag : Bool) (now : Time) (id : ℕ) → Route
  reject_one : (now : Time) (id : ℕ) (body : DecideIn) → Route
  ignore_one : (now : Time) (id : ℕ) (body : DecideIn) → Route
  undo_one : (id : ℕ) → Route

module _ (upper : String → String) (dates : String × String) (write : Request → Option WriteResult)
    (annotate : Bool → Bool → Option String → Option String) where
  unfoldable pub serve_route : Route → List Row → Response × List Row
  serve_route (approve_one flag now id body) rows =
      approve_decision upper dates write annotate flag now id body rows
  serve_route (retry_one flag now id) rows =
      retry_decision_ml upper dates write annotate flag now id rows
  serve_route (reject_one now id body) rows = settle_route reject now id body rows
  serve_route (ignore_one now id body) rows = settle_route ignore now id body rows
  serve_route (undo_one id) rows = undo_decision id rows
