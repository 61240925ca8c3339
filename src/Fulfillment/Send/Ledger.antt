-- ===== src/Fulfillment/Send/Ledger.antt =====
-- What is recorded, in Tiny and in the table, whichever way a transfer to Full ends.
use tiny_mirror.Prelude.{
  ℕ, ◌≡◌, ◌≤◌, refl, ap, sym, ◌∙◌, ◌⊎◌, arith, String, Bool, true, false, Option, none, some, List,
  [], ◌∷◌, ◌++◌, ℤ, Bool-cases, inl, inr,
}
use tiny_mirror.Json.{Json, Fields}
use tiny_mirror.Fulfillment.Transfer.{Time, Table, Transfer, pending}
use tiny_mirror.Fulfillment.Catalog.{Product}
use tiny_mirror.Fulfillment.Request.{max_retries}
use tiny_mirror.Fulfillment.Send.Copies.{
  copies, IsCopied, IsHonest, append_assoc, append_nil, request-IsCopied,
}
use tiny_mirror.Fulfillment.Send.{
  post_movement, Dyadic, Movement, exit, entry, Exchange, Books, SendError, client_error,
  database_error, Sent, sent, failed, is_below, movement, record_row, record_stock_movement,
  move_units, if_available, with_cost, after_get_stock, after_get_product, if_found,
  transfer_to_full, extract_deposit_available, extract_cost, tiny_id_of, deposit_galpao,
}

-- What the movements were of a call that posted some: copies of the exit, and then of the entry.
pub record IsMoved (quantity : ℤ) (tiny_id : ℕ) (cost : ℤ) (before after : Books) : Type 0 where
  pub exits : ℕ
  pub entries : ℕ
  pub moved :
      after.movements
      ≡ before.movements
        ++ (copies exits (movement exit tiny_id quantity cost)
            ++ copies entries (movement entry tiny_id quantity cost))
  pub exits_le : exits ≤ 7
  pub entries_le : entries ≤ 7
  pub in_order : 1 ≤ entries → 1 ≤ exits

-- One row, of units that left one deposit and entered the other.
pub record IsRecorded (quantity : ℤ) (before after : Books) (row : Transfer) : Type 0 where
  pub cost : ℤ
  pub moves : IsMoved quantity row.product_tiny_id cost before after
  pub entered : 1 ≤ moves.entries
  pub stored : after.table.rows ≡ before.table.rows ++ row ∷ []
  pub same_units : row.quantity ≡ quantity
  pub waits : row.status ≡ pending

-- No row, and nothing moved unless the client or the database raised.
pub record IsFailed (quantity : ℤ) (before after : Books) (e : SendError) : Type 0 where
  pub no_row : after.table ≡ before.table
  pub moves :
      (after.movements ≡ before.movements)
      ⊎ ((e ≡ client_error) ⊎ (e ≡ database_error))
        × ((tiny_id : ℕ) × ((cost : ℤ) × IsMoved quantity tiny_id cost before after))

abbrev pub Ends : ℤ → Books → Sent × Books → Type 0
Ends quantity before (sent row, after) = IsRecorded quantity before after row
Ends quantity before (failed e, after) = IsFailed quantity before after e

untouched : (quantity : ℤ) (b : Books) (e : SendError) → IsFailed quantity b b e
untouched quantity b e = record { no_row = refl; moves = inl refl }

same_front : (xs ys zs : List Transfer) → xs ≡ ys → xs ++ zs ≡ ys ++ zs
same_front xs ys zs h = ap (λ r. r ++ zs) h

module _ (to_float : String → Option Dyadic) (decimal : Json → Option ℤ)
    (get_product get_stock : ℕ → Option Fields) (exchange : List Movement → Movement → ℕ → Exchange)
    (refresh_ok stores : Bool) (now : Time) where
  abbrev client_posts : Movement → List Movement → Bool × List Movement
  client_posts = post_movement to_float decimal get_product get_stock exchange refresh_ok stores now

  abbrev moving : String → ℕ → ℤ → ℤ → Books → Sent × Books
  moving = move_units to_float decimal get_product get_stock exchange refresh_ok stores now

  posted-IsCopied :
      IsHonest exchange → (mv : Movement) (s : List Movement) → IsCopied mv 7 s (client_posts mv s)
  unfolding post_movement
  posted-IsCopied honest mv s = request-IsCopied exchange honest mv refresh_ok max_retries 0 s

  abbrev with_table :
      {quantity cost : ℤ} {tiny_id : ℕ} {before b : Books} (t : Table)
      → IsMoved quantity tiny_id cost before b
      → IsMoved quantity tiny_id cost before (record b { table = t })
  with_table t m = record {
    exits = m.exits;
    entries = m.entries;
    moved = m.moved;
    exits_le = m.exits_le;
    entries_le = m.entries_le;
    in_order = m.in_order;
  }

  row-Ends :
      (sku : String) (tiny_id : ℕ) (quantity cost : ℤ) (before b : Books)
      → b.table ≡ before.table
      → (m : IsMoved quantity tiny_id cost before b) → 1 ≤ m.entries
      → Ends quantity before (
          record_row to_float decimal get_product get_stock exchange refresh_ok stores now sku
            tiny_id quantity cost b)
  unfolding record_row
  row-Ends sku tiny_id quantity cost before b same m in_full = elim (Bool-cases stores) [
    | inl stored ↦ rw stored (record {
      cost = cost;
      moves = with_table _ m;
      entered = in_full;
      stored = same_front _ _ _ (ap (λ (t : Table). t.rows) same);
      same_units = refl;
      waits = refl;
    })
    | inr refused ↦
        rw refused (record { no_row = same; moves = inr (inr refl, (tiny_id, (cost, m))) })
  ]

  move_units-Ends :
      IsHonest exchange
      → (sku : String) (tiny_id : ℕ) (quantity cost : ℤ) (b : Books)
      → Ends quantity b (moving sku tiny_id quantity cost b)
  unfolding move_units record_stock_movement
  move_units-Ends honest sku tiny_id quantity cost b =
      let out = movement exit tiny_id quantity cost in
      let into = movement entry tiny_id quantity cost in
      let left = client_posts out b.movements in
      let went = posted-IsCopied honest out b.movements in
      elim (Bool-cases left.0) [
        | inr refused ↦ rw refused (record {
          no_row = refl;
          moves = inr (
            inl refl,
            (
              tiny_id,
              (
                cost,
                record {
                  exits = went.count;
                  entries = 0;
                  moved = went.moved ∙ ap (λ r. b.movements ++ r) (sym (append_nil _));
                  exits_le = went.count_le;
                  entries_le = omega arith;
                  in_order = λ none_in. absurd (omega arith);
                },
              ),
            ),
          );
        })
        | inl out_ok ↦
            let came = posted-IsCopied honest into left.1 in
            let both =
              came.moved
              ∙ ap (λ r. r ++ copies came.count into) went.moved
              ∙ append_assoc b.movements (copies went.count out) (copies came.count into) in
            let moves : IsMoved quantity tiny_id cost b
                (record b { movements = (client_posts into left.1).1 }) =
              record {
                exits = went.count;
                entries = came.count;
                moved = both;
                exits_le = went.count_le;
                entries_le = came.count_le;
                in_order = λ some_in. went.returned out_ok;
              } in
            elim (Bool-cases (client_posts into left.1).0) [
              | inr refused ↦
                  rw (out_ok, refused)
                    (record { no_row = refl; moves = inr (inl refl, (tiny_id, (cost, moves))) })
              | inl in_ok ↦
                  rw (out_ok, in_ok)
                    (row-Ends sku tiny_id quantity cost b _ refl moves (came.returned in_ok))
            ]
      ]

  if_available-Ends :
      IsHonest exchange
      → (sku : String) (tiny_id : ℕ) (quantity cost : ℤ) (available : Option Dyadic) (b : Books)
      → Ends quantity b (
          if_available to_float decimal get_product get_stock exchange refresh_ok stores now sku
            tiny_id quantity cost available b)
  unfolding if_available
  if_available-Ends honest sku tiny_id quantity cost none b = untouched quantity b _
  if_available-Ends honest sku tiny_id quantity cost (some available) b =
      elim (Bool-cases (is_below available quantity)) [
        | inl short ↦ rw short (untouched quantity b _)
        | inr enough ↦ rw enough (move_units-Ends honest sku tiny_id quantity cost b)
      ]

  after_get_stock-Ends :
      IsHonest exchange
      → (sku : String) (tiny_id : ℕ) (quantity cost : ℤ) (stock : Option Fields) (b : Books)
      → Ends quantity b (
          after_get_stock to_float decimal get_product get_stock exchange refresh_ok stores now sku
            tiny_id quantity cost stock b)
  unfolding after_get_stock
  after_get_stock-Ends honest sku tiny_id quantity cost none b = untouched quantity b client_error
  after_get_stock-Ends honest sku tiny_id quantity cost (some stock) b =
      if_available-Ends honest sku tiny_id quantity cost
        (extract_deposit_available to_float decimal stock deposit_galpao) b

  with_cost-Ends :
      IsHonest exchange
      → (sku : String) (tiny_id : ℕ) (quantity : ℤ) (cost : Option ℤ) (b : Books)
      → Ends quantity b (
          with_cost to_float decimal get_product get_stock exchange refresh_ok stores now sku
            tiny_id quantity cost b)
  unfolding with_cost
  with_cost-Ends honest sku tiny_id quantity none b = untouched quantity b _
  with_cost-Ends honest sku tiny_id quantity (some cost) b =
      after_get_stock-Ends honest sku tiny_id quantity cost (get_stock tiny_id) b

  after_get_product-Ends :
      IsHonest exchange
      → (sku : String) (tiny_id : ℕ) (quantity : ℤ) (product : Option Fields) (b : Books)
      → Ends quantity b (
          after_get_product to_float decimal get_product get_stock exchange refresh_ok stores now
            sku tiny_id quantity product b)
  unfolding after_get_product
  after_get_product-Ends honest sku tiny_id quantity none b = untouched quantity b client_error
  after_get_product-Ends honest sku tiny_id quantity (some product) b =
      with_cost-Ends honest sku tiny_id quantity (extract_cost to_float decimal product) b

  if_found-Ends :
      IsHonest exchange
      → (sku : String) (quantity : ℤ) (found : Option ℕ) (b : Books)
      → Ends quantity b (
          if_found to_float decimal get_product get_stock exchange refresh_ok stores now sku
            quantity found b)
  unfolding if_found
  if_found-Ends honest sku quantity none b = untouched quantity b _
  if_found-Ends honest sku quantity (some tiny_id) b =
      after_get_product-Ends honest sku tiny_id quantity (get_product tiny_id) b

  -- Suppose that Tiny has recorded a movement when it answers its request by success. Where the call
  -- returns a transfer, it is the one new row, pending, of the asked units, and Tiny has recorded
  -- their exit from Galpão and then their entry into Full, each at least once and at most seven times,
  -- since the client repeats requests that fail. Where the call raises there is no new row; if
  -- the client or the database raised, up to seven exits and then up to seven entries may have been
  -- recorded, an entry only after an exit, and otherwise nothing.
  pub transfer_to_full-Ends :
      IsHonest exchange
      → (products : List Product) (sku : String) (quantity : ℤ) (b : Books)
      → Ends quantity b (
          transfer_to_full to_float decimal get_product get_stock exchange refresh_ok stores now
            products sku quantity b)
  unfolding transfer_to_full
  transfer_to_full-Ends honest products sku quantity b =
      if_found-Ends honest sku quantity (tiny_id_of to_float decimal sku products) b

  -- Units that Tiny lets out of Galpão and whose entry into Full the client gives up are in no row: the
  -- exit is not undone.
  pub exit_without_entry :
      (sku : String) (tiny_id : ℕ) (quantity cost : ℤ) (b : Books)
      → (client_posts (movement exit tiny_id quantity cost) b.movements).0 ≡ true
      → (client_posts
          (movement entry tiny_id quantity cost)
          (client_posts (movement exit tiny_id quantity cost) b.movements).1).0
        ≡ false
      → (moving sku tiny_id quantity cost b).0 ≡ failed client_error
  unfolding move_units record_stock_movement
  exit_without_entry sku tiny_id quantity cost b left refused = rw (left, refused) refl

  -- A product that is found, with a readable cost and at least the asked units in Galpão, is sent if the
  -- client returns from both movements and the database takes the row.
  pub transfer_to_full_sends :
      (products : List Product) (sku : String) (quantity : ℤ) (b : Books) {tiny_id : ℕ}
      {product stock : Fields} {cost : ℤ} {available : Dyadic}
      → tiny_id_of to_float decimal sku products ≡ some tiny_id
      → get_product tiny_id ≡ some product
      → extract_cost to_float decimal product ≡ some cost
      → get_stock tiny_id ≡ some stock
      → extract_deposit_available to_float decimal stock deposit_galpao ≡ some available
      → is_below available quantity ≡ false
      → (client_posts (movement exit tiny_id quantity cost) b.movements).0 ≡ true
      → (client_posts
          (movement entry tiny_id quantity cost)
          (client_posts (movement exit tiny_id quantity cost) b.movements).1).0
        ≡ true
      → stores ≡ true
      → (row : Transfer) × ((transfer_to_full to_float decimal get_product get_stock exchange
            refresh_ok stores now products sku quantity b).0
          ≡ sent row)
  unfolding transfer_to_full if_found after_get_product with_cost after_get_stock if_available
      move_units record_stock_movement record_row
  transfer_to_full_sends products sku quantity b found e₁ e₂ e₃ e₄ enough left entered taken =
      rw (found, e₁, e₂, e₃, e₄, enough, left, entered, taken) (_, refl)
