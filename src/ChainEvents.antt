-- ===== src/ChainEvents.antt =====
-- Settlement events and the chain cursor: `ChainEventProcessor` of
-- coordinator/src/services/chain-events.ts with the cursor and event statements of
-- coordinator/src/persistence/orders-repo.ts.
pub mod Cursor
pub mod Frame
pub mod Once
use over_sync.Prelude.{
  ℕ, ◌+◌, Bool, true, false, not, ◌&&◌, ◌||◌, Option, none, some, List, [], ◌∷◌, ◌++◌, ltb, leb,
  ◌=ℕ◌, ◌==◌, if◌then◌else◌, find, any, is_empty, Text, text, text_eq, option_eq, to_lower_case,
}
use over_sync.Decimal.{to_string}
use over_sync.Status.{OrderStatus, refunded, status_eq}
use over_sync.Order.{Chain, ethereum, stellar, OrderRow}
use over_sync.Errors.{
  Result, ok, err, ServiceError, preimage_mismatch, preimage_reused, bad_secret_format,
  cursor_mismatch, is_validation_error, Action, pure, throw, gets, modify, ◌>>=◌, ◌>>◌,
}
use over_sync.Store.{
  Store, ChainName, ChainCursor, chain_name_beq, find_by_src_order_id, find_by_dst_order_id,
}
use over_sync.Service.{record_refund}
use over_sync.Secrets

pub data SettlementKind : Type 0 where
  claimed_event refunded_event : SettlementKind

pub record SettlementEvent : Type 0 where
  pub chain : ChainName
  pub kind : SettlementKind
  pub onchain_order_id : Text
  pub tx_hash : Text
  pub log_index : ℕ
  pub position : ℕ
  pub preimage : Option Text

pub data ProcessOutcome : Type 0 where
  applied duplicate ignored : ProcessOutcome

-- `ORDER_CHAIN`
abbrev pub order_chain : ChainName → Chain
order_chain ChainName.ethereum = ethereum
order_chain ChainName.soroban = stellar

abbrev pub chain_text : ChainName → Text
chain_text ChainName.ethereum = text "ethereum"
chain_text ChainName.soroban = text "soroban"

abbrev pub kind_text : SettlementKind → Text
kind_text claimed_event = text "claimed"
kind_text refunded_event = text "refunded"

-- `getChainCursor`
unfoldable pub get_chain_cursor : ChainName → Action Store (Option ChainCursor)
get_chain_cursor chain = gets (λ s. find (λ c. chain_name_beq c.chain chain) s.chain_cursors)

-- `upsertCursorStmt`: a row of the chain is replaced only for the same network and not by an earlier
-- position.
unfoldable pub upsert_cursor : ChainCursor → List ChainCursor → List ChainCursor
upsert_cursor new [] = new ∷ []
upsert_cursor new (row ∷ rows) =
    if chain_name_beq row.chain new.chain
    then (if row.network_id == new.network_id && leb row.position new.position then new else row)
      ∷ rows
    else row ∷ upsert_cursor new rows

unfoldable pub save_chain_cursor : ChainCursor → Action Store (Unit {0})
save_chain_cursor new = modify (λ s. record s { chain_cursors = upsert_cursor new s.chain_cursors })

unfoldable pub has_processed_event : Text → Action Store Bool
has_processed_event key = gets (λ s. any (λ k. k == key) s.processed_events)

-- `markEventProcessed`: ON CONFLICT DO NOTHING.
unfoldable pub mark_event_processed : Text → Action Store (Unit {0})
mark_event_processed key = modify (λ s. record s {
  processed_events =
      if any (λ k. k == key) s.processed_events
      then s.processed_events
      else key ∷ s.processed_events;
})

abbrev pub check_network :
    ChainName → Text → Option ChainCursor → Action Store (Option (ℕ × Option Text))
check_network chain network_id none = pure none
check_network chain network_id (some saved) =
    if saved.network_id == network_id
    then pure (some (saved.position, saved.cursor))
    else throw (cursor_mismatch saved.network_id network_id)

unfoldable pub resume : ChainName → Text → Action Store (Option (ℕ × Option Text))
unfolding get_chain_cursor
resume chain network_id = get_chain_cursor chain >>= check_network chain network_id

unfoldable pub advance : ChainName → Text → ℕ → Option Text → Action Store (Unit {0})
unfolding resume save_chain_cursor
advance chain network_id position cursor =
    resume chain network_id
    >> save_chain_cursor
        (record { chain = chain; network_id = network_id; position = position; cursor = cursor })

-- `a ?? b` of two look-ups.
abbrev pub or_find :
    Action Store (Option OrderRow) → Option OrderRow → Action Store (Option OrderRow)
or_find next none = next
or_find next (some order) = pure (some order)

unfoldable pub find_order : SettlementEvent → Action Store (Option OrderRow)
unfolding find_by_src_order_id find_by_dst_order_id
find_order ev =
    find_by_src_order_id (order_chain ev.chain) ev.onchain_order_id
    >>= or_find (find_by_dst_order_id (order_chain ev.chain) ev.onchain_order_id)

-- `err instanceof OrderValidationError`, or a message that starts with "preimage ".
abbrev pub is_permanent : ServiceError → Bool
is_permanent preimage_mismatch = true
is_permanent preimage_reused = true
is_permanent bad_secret_format = true
is_permanent e = is_validation_error e

-- The `catch`.
abbrev pub settle_result : Result ProcessOutcome → Result ProcessOutcome
settle_result (ok outcome) = ok outcome
settle_result (err e) = if is_permanent e then ok ignored else err e

unfoldable pub event_key : Text → SettlementEvent → Text
event_key network_id ev =
    chain_text ev.chain
    ++ (text ":"
        ++ (network_id
            ++ (text ":"
                ++ (to_lower_case ev.tx_hash
                    ++ (text ":" ++ (to_string ev.log_index ++ (text ":" ++ kind_text ev.kind)))))))

-- The order of a batch: by position, then by log index; the sort is stable.
abbrev pub is_before : SettlementEvent → SettlementEvent → Bool
is_before a b =
    ltb a.position b.position || (a.position =ℕ b.position && ltb a.log_index b.log_index)

unfoldable pub insert_event : SettlementEvent → List SettlementEvent → List SettlementEvent
insert_event ev [] = ev ∷ []
insert_event ev (x ∷ xs) = if is_before x ev then x ∷ insert_event ev xs else ev ∷ x ∷ xs

unfoldable pub sort_events : List SettlementEvent → List SettlementEvent
unfolding insert_event
sort_events [] = []
sort_events (ev ∷ evs) = insert_event ev (sort_events evs)

pub record Counts : Type 0 where
  pub applied_count : ℕ
  pub duplicates : ℕ
  pub ignored_count : ℕ

abbrev pub no_counts : Counts
no_counts = record { applied_count = 0; duplicates = 0; ignored_count = 0 }

abbrev pub count : ProcessOutcome → Counts → Counts
count applied c = record c { applied_count = c.applied_count + 1 }
count duplicate c = record c { duplicates = c.duplicates + 1 }
count ignored c = record c { ignored_count = c.ignored_count + 1 }

-- `sha256` is viem's hash, `now` the clock of the secret service in milliseconds.
module _ (sha256 : List ℕ → Text) (now : ℕ) where
  abbrev pub apply_refunded : SettlementEvent → OrderRow → Action Store ProcessOutcome
  apply_refunded ev order =
      if order.status == refunded
      then pure duplicate
      else record_refund order.public_id ev.tx_hash none >> pure applied

  -- `order.secretRevealedTx === ev.txHash && order.preimage`
  abbrev pub is_recorded : SettlementEvent → OrderRow → Bool
  is_recorded ev order = order.secret_revealed_tx == some ev.tx_hash && holds order.preimage
    where
      holds : Option Text → Bool
      holds none = false
      holds (some p) = not (is_empty p)

  abbrev pub apply_claimed : SettlementEvent → OrderRow → Option Text → Action Store ProcessOutcome
  apply_claimed ev order none = pure ignored
  apply_claimed ev order (some preimage) =
      if is_empty preimage
      then pure ignored
      else if is_recorded ev order
      then pure duplicate
      else Secrets.reveal sha256 now order.public_id preimage ev.tx_hash >> pure applied

  abbrev pub apply_kind : SettlementKind → SettlementEvent → OrderRow → Action Store ProcessOutcome
  apply_kind refunded_event ev order = apply_refunded ev order
  apply_kind claimed_event ev order = apply_claimed ev order ev.preimage

  abbrev pub catching : Action Store ProcessOutcome → Action Store ProcessOutcome
  catching m s = let (r, s') = m s in (settle_result r, s')

  abbrev pub apply_found : SettlementEvent → Option OrderRow → Action Store ProcessOutcome
  apply_found ev none = pure ignored
  apply_found ev (some order) = catching (apply_kind ev.kind ev order)

  unfoldable pub apply : SettlementEvent → Action Store ProcessOutcome
  unfolding find_order
  apply ev = find_order ev >>= apply_found ev

  abbrev pub process_unseen : Text → SettlementEvent → Action Store ProcessOutcome
  process_unseen key ev = do outcome ← apply ev; mark_event_processed key; pure outcome

  abbrev pub process_seen : Text → SettlementEvent → Bool → Action Store ProcessOutcome
  process_seen key ev true = pure duplicate
  process_seen key ev false = process_unseen key ev

  unfoldable pub process : Text → SettlementEvent → Action Store ProcessOutcome
  unfolding has_processed_event mark_event_processed
  process network_id ev =
      has_processed_event (event_key network_id ev) >>= process_seen (event_key network_id ev) ev

  -- The loop of `processBatch`.
  unfoldable pub process_all : Text → List SettlementEvent → Counts → Action Store Counts
  process_all network_id [] counts = pure counts
  process_all network_id (ev ∷ evs) counts = do
    outcome ← process network_id ev
    process_all network_id evs (count outcome counts)

  unfoldable pub process_batch :
      Text → ChainName → List SettlementEvent → ℕ → Option Text → Action Store Counts
  unfolding sort_events process_all advance
  process_batch network_id chain events up_to cursor = do
    counts ← process_all network_id (sort_events events) no_counts
    advance chain network_id up_to cursor
    pure counts
