-- ===== src/Promotions/Reconcile.antt =====
-- `reconcile_started_promos` (src/tiny_mirror/services/ml_promotion_service.py): the rows of what runs
-- are brought up to what Mercado Livre lists, for every active listing.
pub mod Mirror
pub mod Outage
use tiny_mirror.Prelude.{
  ℕ, suc, String, Bool, true, false, ◌&&◌, ◌||◌, Option, none, some, List, [], ◌∷◌, map, filter, ℤ,
  pos, ltb_ℤ, ◌==◌, string_eq, if◌then◌else◌,
}
use tiny_mirror.Fulfillment.Transfer.{Time}
use tiny_mirror.Fulfillment.Catalog.{Listing, holds}
use tiny_mirror.Caps.{CostsSnapshot}
use tiny_mirror.Promotions.{Offer, or_zero, or_empty}
use tiny_mirror.Promotions.Score.{Constraint, started}
use tiny_mirror.Promotions.Decisions.{Row, upsert_started}
use tiny_mirror.Promotions.Stale.{snapshot_of}
use tiny_mirror.Promotions.Generate.{
  Decided, promo_key_of, row_of_offer, list_price_of, forget_ended,
}

abbrev pub sku_or : Option String → String → String
sku_or none mlb_id = mlb_id
sku_or (some sku) mlb_id = if sku == "" then mlb_id else sku

module _ (upper lower : String → String) (parse_iso : Option String → Option Time)
    (now : Time) where
  -- A promotion that runs, at a price.
  abbrev pub runs_at_price : Offer → Bool
  runs_at_price p = lower (or_empty p.status) == "started" && ltb_ℤ (pos 0) (or_zero p.price)

  abbrev pub key_of_started : Offer → String
  key_of_started p = promo_key_of p.id started

  unfoldable pub store_started : String → String → Option ℕ → List Offer → Decided → Decided
  unfolding upsert_started promo_key_of
  store_started mlb_id sku list_price [] t = t
  store_started mlb_id sku list_price (p ∷ promos) t =
      store_started mlb_id sku list_price promos (record {
        rows =
            upsert_started t.next_id now (or_zero p.price)
              (row_of_offer upper lower parse_iso now mlb_id sku (key_of_started p) list_price p)
              t.rows;
        next_id = suc t.next_id;
      })

  -- One listing that has been asked about.
  unfoldable pub reconcile_promos : String → String → Option ℕ → List Offer → Decided → Decided
  unfolding store_started forget_ended promo_key_of
  reconcile_promos mlb_id sku list_price promos t =
      let running = filter runs_at_price promos in
      forget_ended upper lower parse_iso now mlb_id (map key_of_started running)
        (store_started mlb_id sku list_price running t)

  module _ (snapshots : List CostsSnapshot) where
    -- A listing whose list of promotions could not be fetched is left as it is.
    unfoldable pub reconcile_fetched : Listing → Option (List Offer) → Decided → Decided
    unfolding reconcile_promos list_price_of snapshot_of
    reconcile_fetched l none t = t
    reconcile_fetched l (some promos) t =
        reconcile_promos l.mlb_id (sku_or l.sku l.mlb_id)
          (list_price_of (snapshot_of snapshots l.mlb_id) promos) promos t

  module _ (fetch : String → Option (List Offer)) (snapshots : List CostsSnapshot) where
    unfoldable pub reconcile_one : Listing → Decided → Decided
    unfolding reconcile_fetched
    reconcile_one l t = reconcile_fetched snapshots l (fetch l.mlb_id) t

    abbrev pub reconcile_each : List Listing → Decided → Decided
    reconcile_each [] t = t
    reconcile_each (l ∷ ls) t = reconcile_each ls (reconcile_one l t)

    -- The listings that are active, or only the one that is asked for.
    abbrev pub is_target : Option String → Listing → Bool
    is_target none l = holds l.status "active"
    is_target (some mlb_id) l = (mlb_id == "" || l.mlb_id == mlb_id) && holds l.status "active"

    unfoldable pub reconcile_started_promos : Option String → List Listing → Decided → Decided
    unfolding reconcile_one
    reconcile_started_promos only_mlb listings t =
        reconcile_each (filter (is_target only_mlb) listings) t
