-- ===== src/Examples/Money.antt =====
-- Amounts and quotes.
use over_sync.Prelude.{◌≡◌, ◌↔◌, Option, none, some, [], ◌∷◌, pos, negsuc, text}
use over_sync.Sdk.Amounts.{
  ok, err, negative, wei_to_stroops, stroops_to_wei, parse_decimal_to_atomic,
  format_atomic_to_decimal,
}
use over_sync.Sdk.Amounts.Exact.{wei_to_stroops-stroops_to_wei}
use over_sync.Sdk.Amounts.RoundTrip.{parse-format}
use over_sync.Quotes
use over_sync.Quotes.{
  Fetched, PriceQuote, Quotes, cache_ttl_ms, assert_fresh, evict_expired, quote_eth_xlm,
  issue_quote, set_quote, parse_base_unit_integer, check_amount,
}

parse-format_example :
    (parse_decimal_to_atomic (format_atomic_to_decimal (pos 1500000) 7) 7 ≡ ok (pos 1500000))
    × (parse_decimal_to_atomic (format_atomic_to_decimal (negsuc 1500000) 7) 7 ≡ err negative)
parse-format_example = parse-format 1500000 7

wei_to_stroops-stroops_to_wei_example :
    (wei_to_stroops (pos 300000000000) ≡ ok (pos 3))
    ↔ (stroops_to_wei (pos 3) ≡ ok (pos 300000000000))
wei_to_stroops-stroops_to_wei_example = wei_to_stroops-stroops_to_wei (pos 300000000000) (pos 3)

abbrev no_quotes : Quotes
no_quotes = record { quotes = []; price_cache = none }

abbrev prices : Option Fetched
prices = some (record { eth_usd = some (text "3000"); xlm_usd = some (text "0.1") })

abbrev quoted : PriceQuote
quoted = record {
  quote_id = text "q";
  issued_terms = none;
  src_usd = some (text "3000");
  dst_usd = some (text "0.1");
  source = Quotes.coingecko;
  issued_at = 1000;
  expires_at = 31000;
  amount_base_units = none;
  terms = none;
}

abbrev one_quote : Quotes
one_quote = record { quotes = quoted ∷ []; price_cache = none }
