-- ===== src/Promotions/Reconcile/Outage.antt =====
-- `reconcile_started_promos` over `fetch_eligible_promos` (src/tiny_mirror/services/ml_promotion_service.py)
-- while Mercado Livre answers with errors.
use tiny_mirror.Prelude.{
  ◌≡◌, refl, ap, ◌∙◌, String, true, false, Option, some, List, [], any, ◌==◌, nat_eq,
}
use tiny_mirror.Fulfillment.Transfer.{Time}
use tiny_mirror.Fulfillment.Catalog.{Listing}
use tiny_mirror.Caps.{CostsSnapshot}
use tiny_mirror.Promotions.Generate.{Decided, list_price_of}
use tiny_mirror.Promotions.Stale.{snapshot_of}
use tiny_mirror.Promotions.Write.{Listed, is_failure, listed_after, fetch_eligible_promos}
use tiny_mirror.Promotions.Reconcile.{sku_or, reconcile_fetched, reconcile_one}
use tiny_mirror.Promotions.Reconcile.Mirror.{shows, reconcile_mirrors}

module _ (get : String → String → Option Listed) (token : String) (refreshed : Option String)
    (mlb_id : String) where
  failed_lists_nothing :
      (a : Listed)
      → get mlb_id token ≡ some a
      → a.status_code == 401 ≡ false
      → is_failure a.status_code ≡ true
      → fetch_eligible_promos get refreshed mlb_id (some token) ≡ some []
  unfolding fetch_eligible_promos
  failed_lists_nothing a answered known failed =
      ap (listed_after get refreshed mlb_id) answered ∙ rw known (rw failed refl)

module _ (upper lower : String → String) (parse_iso : Option String → Option Time) (now : Time)
    (get : String → String → Option Listed) (token : String) (refreshed : Option String)
    (snapshots : List CostsSnapshot) where
  -- Where the list of promotions of a listing is answered by an error other than 401, say a 429 or a
  -- 500, no row of the listing shows a promotion as running any more.
  pub outage_ends_all :
      (l : Listing) (t : Decided) (a : Listed) (k : String)
      → get l.mlb_id token ≡ some a
      → a.status_code == 401 ≡ false
      → is_failure a.status_code ≡ true
      → any
          (shows l.mlb_id k)
          (reconcile_one upper lower parse_iso now
            (λ m. fetch_eligible_promos get refreshed m (some token))
            snapshots
            l
            t).rows
        ≡ false
  unfolding reconcile_one reconcile_fetched
  outage_ends_all l t a k answered known failed =
      ap
        (λ fetched.
          any (shows l.mlb_id k)
            (reconcile_fetched upper lower parse_iso now snapshots l fetched t).rows)
        (failed_lists_nothing get token refreshed l.mlb_id a answered known failed)
      ∙ reconcile_mirrors upper lower parse_iso now l.mlb_id (sku_or l.sku l.mlb_id)
          (list_price_of (snapshot_of snapshots l.mlb_id) []) [] t k
