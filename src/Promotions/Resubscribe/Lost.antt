-- ===== src/Promotions/Resubscribe/Lost.antt =====
-- A re-subscription whose request is lost (src/tiny_mirror/services/ml_resubscribe_service.py over
-- `_ml_write` of src/tiny_mirror/services/ml_promotion_service.py).
use tiny_mirror.Prelude.{
  ℕ, ◌≡◌, ap, ◌∙◌, String, false, ◌||◌, Option, none, some, List, ℤ, leb, ◌==◌, nat_eq, string_eq,
  Bool-cases, inl, inr,
}
use tiny_mirror.Promotions.{Offer}
use tiny_mirror.Promotions.Write.{
  Request, WriteAnswer, transport, written, status_of_write, ml_write, ml_send, after_first,
  create_price_discount, modify_promotion,
}
use tiny_mirror.Promotions.Resubscribe.{Job, mark_done}
use tiny_mirror.Promotions.Resubscribe.Poll.{
  PollContext, resubscribed, or_id, offer_of, or_scheduled, enrol, after_enrol, try_candidate,
  unless_active, after_offers, process_one,
}

module _ (upper lower : String → String) (to_float : String → Option ℤ)
    (send : Request → ℕ → String → Option WriteAnswer) (token : String) (refreshed : Option String)
    (lost : (r : Request) → send r 0 token ≡ none) where
  -- The poller's world, where every write goes through `_ml_write`.
  abbrev over : PollContext → PollContext
  over w = record w { write = λ r. ml_write to_float (send r) (some token) refreshed }

  lost_write :
      (r : Request)
      → ml_write to_float (send r) (some token) refreshed
        ≡ some (record { ok = false; status_code = none; error = some transport })
  unfolding ml_write ml_send after_first
  lost_write r = ap (λ a. written (after_first to_float (send r) refreshed token a)) (lost r)

  lost_discount :
      (dates : String × String) (mlb_id : String) (price : ℤ)
      → create_price_discount
          (λ r. ml_write to_float (send r) (some token) refreshed)
          dates
          mlb_id
          price
        ≡ some none
  unfolding create_price_discount
  lost_discount dates mlb_id price = ap (status_of_write (λ r. none) dates) (lost_write _)

  lost_campaign :
      (dates : String × String) (mlb_id : String) (price : ℤ) (id type : String)
      → modify_promotion
          (λ r. ml_write to_float (send r) (some token) refreshed)
          dates
          mlb_id
          price
          id
          type
        ≡ some none
  unfolding modify_promotion
  lost_campaign dates mlb_id price id type = ap (status_of_write (λ r. none) dates) (lost_write _)

  lost_enrol :
      (w : PollContext) (j : Job) (id : Option String) → enrol upper lower (over w) j id ≡ some none
  unfolding enrol
  lost_enrol w j none = lost_discount w.dates j.mlb_id j.target_price
  lost_enrol w j (some id) =
      elim (Bool-cases (upper j.promo_type == "PRICE_DISCOUNT" || id == "")) [
        | inl discount ↦ rw discount (lost_discount w.dates j.mlb_id j.target_price)
        | inr campaign ↦ rw campaign (lost_campaign w.dates j.mlb_id j.target_price id j.promo_type)
      ]

  -- Before the deadline of a job whose promotion is offered again and does not run: where the request
  -- that enrols gets a transport error for an answer, the job is marked as done and counted as
  -- re-subscribed.
  pub lost_request_done :
      (w : PollContext) (j : Job) (promos : List Offer) (candidate : Offer)
      → leb j.deadline w.ref ≡ false
      → w.fetch j.mlb_id ≡ some promos
      → or_scheduled upper lower w j promos
          (offer_of upper lower w j promos "started" j.strict_promo_id)
        ≡ none
      → offer_of upper lower w j promos "candidate" j.strict_promo_id ≡ some candidate
      → process_one upper lower (over w) j
        ≡ some (record {
          job = mark_done w.clock j;
          outcome = resubscribed (or_id candidate.id j.promo_id);
        })
  unfolding process_one after_offers unless_active try_candidate after_enrol
  lost_request_done w j promos candidate early listed idle offered = rw early (
      ap (after_offers upper lower (over w) j) listed
      ∙ ap (unless_active upper lower (over w) j promos) idle
      ∙ ap (try_candidate upper lower (over w) j) offered
      ∙ ap (after_enrol upper lower (over w) j (or_id candidate.id j.promo_id))
          (lost_enrol w j (or_id candidate.id j.promo_id)))
