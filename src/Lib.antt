-- ===== src/Lib.antt =====
-- tiny_mirror: a service that mirrors the stock, orders and prices of a shop from the Tiny ERP and
-- follows the shop's shipments to Mercado Livre's fulfilment centre ("Full"). The Python package is
-- src/tiny_mirror; paths below are in it.
--
-- The parts that are modelled, and their files:
--
-- Fulfillment. A row of the table fulfillment_transfers is a shipment to Full. Fulfillment/Transfer is
--   the table (infrastructure/orm/models.py) and the repository over it
--   (infrastructure/repositories/fulfillment_transfer_repository.py), each operation a function of the
--   list of rows. The other files are services/fulfillment_reception_service.py. Fulfillment/Windows
--   and Fulfillment/Paging are the loops of `_fetch_inbound_events` and `_fetch_chunk_inbound`, which
--   read the fulfilment log of an inventory by windows of 59 days and pages of 50;
--   Fulfillment/Event decodes one operation of that log; Fulfillment/Fifo is
--   `_fifo_match_with_chronology`, which credits the units that arrived to the transfers, oldest
--   first, and whose decisions `apply_partial_reception` (`receive`) stores.
--   Fulfillment/Catalog has the listings, products and kits, and the inventories in which a SKU's units
--   arrive: the inline queries of `scan_and_reconcile` (`inventory_map`) and the query of
--   `_inventory_map_for`. Fulfillment/Drain is `drain_stale_phantoms`, which cancels pending rows that stayed out for too
--   long; Fulfillment/Scan is `scan_and_reconcile`, which fetches, matches and stores for the
--   pending rows, SKU by SKU, after `_cancel_non_fulfillment_pending`. Fulfillment/Send is
--   services/fulfillment_transfer_service.py: the two stock movements of a shipment and its row; the
--   movements go through Fulfillment/Request, `_request` of infrastructure/external/tiny_client.py with its
--   retries.
-- Token. services/token_service.py, with domain/models.py and save_token of
--   infrastructure/repositories/token_repository.py: the rotation of Tiny's pair of tokens over a
--   store that holds the table's row, the cached access token, the stash of a pending rotation and the
--   lock. A call is a function of the store, the clock and the endpoint's state. What is written
--   before an exception stays written.
-- Sales. services/sale_bucket_service.py with the writes of
--   infrastructure/repositories/sale_bucket_repository.py: the buckets of a period, computed anew from
--   its orders, and their replacement in the table.
-- Sync. Sync/Log is infrastructure/repositories/sync_log_repository.py, the table of the
--   synchronisations' logs. Sync/Fanout is one fan-out of services/product_sync_service.py or
--   services/stock_sync_service.py: each commit that the producer, a consumer or the watchdog makes to
--   the log is an action, and a schedule is any list of them.
-- Stock. services/stock_sync_service.py with mappers/stock_mapper.py. Stock/Deposits decodes and stores
--   the deposits of a product (infrastructure/repositories/stock_repository.py) and has the two writes
--   of Mercado Livre's numbers; Stock/Full is what Mercado Livre holds of a SKU
--   (`_fetch_ml_full_breakdown`); Stock/Detection is `_maybe_record_webhook_transfer`, which takes
--   two readings of a product's stock for a shipment; Stock/Item is `process_stock_item`, which calls
--   these and counts the item in its log.
-- Pricing. services/pricing_service.py: the margin of a price under banded fees, the calibration of the
--   fees, and the search for the lowest price that leaves a margin.
-- Caps. services/cap_recompute_service.py: the cap and the floor of a listing's promotions, from those
--   that are live or, where there are none, from its costs. Caps/Recompute is the pass over all
--   listings, `recompute_all_caps`, with the costs that a listing inherits from another of its SKU and
--   the upsert of infrastructure/repositories/ml_promo_repository.py.
-- Promotions. services/ml_promotion_service.py, and MLPromoDecisionRepository of
--   infrastructure/repositories/ml_promo_repository.py. Promotions/Score is `score_candidate_promo`, which
--   puts an offered promotion against a listing's cap and floor; Promotions/Decide is
--   `decide_for_item`. Promotions/Decisions is the table ml_promo_decisions, each operation a function
--   of its rows; Promotions/Enumerate and Promotions/Generate are the pass that proposes decisions,
--   Promotions/Reconcile the one that follows what runs, Promotions/Stale the expiry of decisions whose
--   inputs have changed, and Promotions/Bulk `bulk_decide_pending`. Promotions/Write is what is sent to
--   Mercado Livre, `fetch_eligible_promos` and `_ml_write`. Promotions/Resubscribe is the queue
--   ml_promo_resubscribe_jobs (MLPromoResubscribeRepository) and, in Resubscribe/Poll, the poller of
--   services/ml_resubscribe_service.py, which enrols a listing again once its promotion is offered.
--   Promotions/Apply is what an approved decision sends, and Promotions/Routes the routes approve,
--   retry-ml, reject, ignore and undo of api/routers/ml_promotions.py.
-- RateLimiter. infrastructure/external/rate_limiter.py: the budget of requests that Tiny's answers
--   report, in two keys of Redis, and the sleep of a caller that finds it nearly used up.
--
-- Json is decoded JSON, Sort is Python's stable `sorted`, Prelude has integers over the native natural
-- numbers, list functions and the Boolean tests.
--
-- Numbers: the source's integers are unbounded, and so are ℤ and ℕ here. A moment is the number of
-- microseconds from datetime.min, and of milliseconds in the rate limiter. Durations of a token are
-- not negative.
--
-- Loops: the loop over windows and the loop over pages take fuel. As much fuel as there are
-- microseconds between the oldest transfer and now is enough for the first; as many pages as hold
-- the total that the service reports is enough for the second. The retries of a change, and those of
-- a request to Tiny, are a recursion on those that are left.
--
-- Parameters: the HTTP calls (`list_operations`, `get_inventory_stock`, `ml`, `get_product`,
-- `get_stock`, `exchange`, `post`), the refresh of Tiny's token (`refresh_ok`), whether the database
-- stores a row (`stores`), `datetime.fromisoformat` (`read`), `float` and `Decimal` of a
-- value (`to_float`, `decimal`), the match of a regular expression (`quantity_kit`), the search in
-- a lowered name (`mentions`), `str.lower` and `str.upper` (`lower`, `upper`), `_parse_iso_dt`
-- (`parse_iso`), the kit prefix of a SKU (`family`), the promotion types that a cap leaves out
-- (`excluded`), the promotions that Mercado Livre lists (`fetch`, in `service`), the requests to it and
-- the token they carry (`get`, `send`, `token`, `refreshed`), a change that it is sent (`write`), the
-- default dates of a discount (`dates`), the warnings in a note (`annotate`), a listing's
-- calibrated fees (`calib_of`), the numbers and texts of the rate limiter (`to_int`, `to_moment`,
-- `text_of`), and what other workers do to the store while a call sleeps (`others`). The texts that
-- are only stored are parameters too: the reason of a drain (`reason`), the watchdog's message
-- (`text`), the note of a detected shipment (`note`). So are the moment at which a SKU is scanned
-- (`clock`), the product and the kits that a stock item reads (`product_of`, `parent_kits`), which
-- of its writes the database refuses, whether its detection goes through (`detects`), and for the
-- buckets the types and components of products (`is_kit`, `components_of`) and the test for a blank
-- name (`is_blank`). A witness or a test instantiates each.
--
-- Not modelled: log calls; the expiry of Redis keys by time (the time to live given to the cache is
-- modelled, the lock's 30 seconds are not); floats that are not finite and the rounding of sums of
-- floats; the waits between requests; the parts of the service that are not named above.
pub mod Prelude
pub mod Json
pub mod Sort
pub mod Fulfillment
pub mod Token
pub mod Sales
pub mod Sync
pub mod Stock
pub mod Pricing
pub mod Caps
pub mod Promotions
pub mod RateLimiter
pub mod Tests
