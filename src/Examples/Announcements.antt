-- ===== src/Examples/Announcements.antt =====
-- The announcement of an order with a quote.
use over_sync.Prelude.{
  ◌≡◌, refl, some, none, [], ◌∷◌, ◌++◌, replicate, text, text_beq, to_lower_case,
}
use over_sync.Decimal.{to_string, to_bigint, value_from}
use over_sync.Order.{OrderRow, AnnounceOrderInput, ethereum, stellar, eth_to_xlm}
use over_sync.Errors.{ok}
use over_sync.Store
use over_sync.Store.{
  Store, announced_row, find_row, find_by_hashlock, find_by_public_id, insert_order,
}
use over_sync.Quotes
use over_sync.Quotes.{
  PriceQuote, Quotes, bind_order_terms, assert_fresh, check_amount, set_terms, is_base_unit_integer,
}
use over_sync.Announce.{AnnounceInput, World, announce, lowered, is_hex_address, is_stellar_address}
use over_sync.Announce.Accepted.{TermsBound, AcceptedBy, TermsBound, announce-AcceptedBy}
use over_sync.Examples.Data.{book}

abbrev terms : AnnounceOrderInput
terms = record {
  direction = eth_to_xlm;
  hashlock = text "0xCD";
  src_chain = ethereum;
  src_address = text "0x" ++ replicate 40 b'1';
  src_asset = text "ETH";
  src_amount = text "5";
  src_safety_deposit = text "1";
  dst_chain = stellar;
  dst_address = text "G" ++ replicate 55 b'A';
  dst_asset = text "XLM";
  dst_amount = text "9";
}

abbrev input : AnnounceInput
input = record { order = terms; quote_id = some (text "q") }

abbrev quoted : PriceQuote
quoted = record {
  quote_id = text "q";
  issued_terms = none;
  src_usd = none;
  dst_usd = none;
  source = Quotes.coingecko;
  issued_at = 1000;
  expires_at = 31000;
  amount_base_units = some (text "5");
  terms = none;
}

abbrev world : World
world = record { store = book; quotes = some (record { quotes = quoted ∷ []; price_cache = none }) }

abbrev new_order : OrderRow
new_order = announced_row (text "new") (lowered terms) book

announce_runs : (announce 2000 (text "new") input world).0 ≡ ok new_order
unfolding announce is_hex_address is_stellar_address bind_order_terms text_beq check_amount
    set_terms is_base_unit_integer to_string to_bigint value_from to_lower_case Store.announce
    find_row
announce_runs = refl

announce-AcceptedBy_example :
    AcceptedBy (text "new") 2000 input book (announce 2000 (text "new") input world).1 new_order
    × TermsBound 2000 input world
announce-AcceptedBy_example =
    announce-AcceptedBy 2000 (text "new") input world new_order announce_runs
