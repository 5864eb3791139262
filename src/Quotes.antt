-- ===== src/Quotes.antt =====
-- The quote service, coordinator/src/services/quote-service.ts: the quotes issued so far and the
-- cached price. The clock (unix milliseconds), the random quote ids and the answer of CoinGecko are
-- arguments.
pub mod Amount
pub mod Freshness
use over_sync.Prelude.{
  ℕ, ◌+◌, ◌*◌, ◌^◌, ◌≡◌, Bool, true, false, not, ◌&&◌, ◌||◌, Option, none, some, List, [], ◌∷◌,
  ◌++◌, ltb, leb, ◌=ℕ◌, ◌==◌, if◌then◌else◌, find, select, length, is_empty, every, is_digit, Text,
  text, text_eq, option_eq,
}
use over_sync.Decimal.{to_bigint, to_string, pad_end, trim, span_digits}
use over_sync.Order.{Chain, chain_beq}
use over_sync.Errors.{QuoteError, not_found, expired, amount_mismatch, terms_mismatch, amount_parse}

-- `QuoteTerms`
pub record QuoteTerms : Type 0 where
  pub src_chain : Chain
  pub src_asset : Text
  pub src_amount : Text
  pub dst_chain : Chain
  pub dst_asset : Text
  pub dst_amount : Text

-- The terms that an announced order binds to a quote.
pub record OrderTerms : Type 0 where
  pub from_asset : Text
  pub to_asset : Text
  pub amount : Text
  pub from_network : Chain
  pub to_network : Chain

pub data PriceSource : Type 0 where
  coingecko cache unknown : PriceSource

-- `PriceQuote`; the six optional fields of the terms are set together, since `issueQuote` spreads
-- the whole record or nothing.
pub record PriceQuote : Type 0 where
  pub quote_id : Text
  pub issued_terms : Option QuoteTerms
  pub src_usd : Option Text
  pub dst_usd : Option Text
  pub source : PriceSource
  pub issued_at : ℕ
  pub expires_at : ℕ
  pub amount_base_units : Option Text
  pub terms : Option OrderTerms

pub record CachedPrice : Type 0 where
  pub src_usd : Option Text
  pub dst_usd : Option Text
  pub expires_at : ℕ

-- `quotes` is a `Map` by quote id, in the order of insertion.
pub record Quotes : Type 0 where
  pub quotes : List PriceQuote
  pub price_cache : Option CachedPrice

pub data QuoteResult (A : Type 0) : Type 0 where
  ok : A → QuoteResult A
  err : QuoteError → QuoteResult A

-- `/^(0|[1-9]\d*)$/`
unfoldable pub is_base_unit_integer : Text → Bool
is_base_unit_integer [] = false
is_base_unit_integer (c ∷ s) =
    (c =ℕ b'0' && is_empty s) || (leb b'1' c && leb c b'9' && every is_digit s)

unfoldable pub parse_base_unit_integer : Text → QuoteResult Text
parse_base_unit_integer value =
    if is_base_unit_integer value then ok (to_string (to_bigint value)) else err amount_parse

unfoldable pub get_by_id : Text → Quotes → Option PriceQuote
get_by_id quote_id qs = find (λ q. q.quote_id == quote_id) qs.quotes

-- The amount test at the end of `assertFresh`.
unfoldable pub check_amount : PriceQuote → Option Text → Option Text → QuoteResult PriceQuote
unfolding parse_base_unit_integer
check_amount quote (some quoted) (some announced) = elim (parse_base_unit_integer announced) [
  | err e ↦ err e
  | ok amount ↦ if amount == quoted then ok quote else err amount_mismatch
]
check_amount quote _ _ = ok quote

unfoldable pub check_fresh : ℕ → Option Text → Option PriceQuote → QuoteResult PriceQuote
check_fresh now amount none = err not_found
check_fresh now amount (some quote) =
    if ltb quote.expires_at now
    then err expired
    else check_amount quote quote.amount_base_units amount

unfoldable pub assert_fresh : ℕ → Text → Option Text → Quotes → QuoteResult PriceQuote
unfolding get_by_id check_fresh
assert_fresh now quote_id amount qs = check_fresh now amount (get_by_id quote_id qs)

-- The test of `bindOrderTerms`: a quote with terms fills only an order with these terms.
abbrev pub binds : Option QuoteTerms → OrderTerms → Bool
binds none terms = true
binds (some issued) terms =
    chain_beq issued.src_chain terms.from_network
    && issued.src_asset == terms.from_asset
    && issued.src_amount == terms.amount
    && chain_beq issued.dst_chain terms.to_network
    && issued.dst_asset == terms.to_asset

-- `quote.terms = terms` on the object that the map holds.
unfoldable pub set_terms : Text → OrderTerms → List PriceQuote → List PriceQuote
set_terms quote_id terms [] = []
set_terms quote_id terms (q ∷ qs) =
    (if q.quote_id == quote_id then record q { terms = some terms } else q)
    ∷ set_terms quote_id terms qs

unfoldable pub bind_fresh :
    Text → OrderTerms → Quotes → QuoteResult PriceQuote → QuoteResult PriceQuote × Quotes
bind_fresh quote_id terms qs (err e) = (err e, qs)
bind_fresh quote_id terms qs (ok quote) =
    if binds quote.issued_terms terms
    then (
      ok (record quote { terms = some terms }),
      record qs { quotes = set_terms quote_id terms qs.quotes },
    )
    else (err terms_mismatch, qs)

unfoldable pub bind_order_terms : ℕ → Text → OrderTerms → Quotes → QuoteResult PriceQuote × Quotes
unfolding assert_fresh bind_fresh
bind_order_terms now quote_id terms qs =
    bind_fresh quote_id terms qs (assert_fresh now quote_id none qs)

-- `quote.x !== terms.x` for each of the six terms; an unset term differs from every value.
abbrev pub matches : Option QuoteTerms → QuoteTerms → Bool
matches none terms = false
matches (some issued) terms =
    chain_beq issued.src_chain terms.src_chain
    && issued.src_asset == terms.src_asset
    && issued.src_amount == terms.src_amount
    && chain_beq issued.dst_chain terms.dst_chain
    && issued.dst_asset == terms.dst_asset
    && issued.dst_amount == terms.dst_amount

unfoldable pub assert_matches : ℕ → Text → QuoteTerms → Quotes → QuoteResult PriceQuote
unfolding assert_fresh
assert_matches now quote_id terms qs = elim (assert_fresh now quote_id none qs) [
  | err e ↦ err e
  | ok quote ↦ if matches quote.issued_terms terms then ok quote else err terms_mismatch
]

-- The quotes that are left, and how many went.
unfoldable pub evict_expired : ℕ → Quotes → ℕ × Quotes
evict_expired now qs = (
  length (select (λ q. ltb q.expires_at now) qs.quotes),
  record qs { quotes = select (λ q. not (ltb q.expires_at now)) qs.quotes },
)

-- `this.quotes.set(quote.quoteId, quote)`
unfoldable pub set_quote : PriceQuote → List PriceQuote → List PriceQuote
set_quote quote [] = quote ∷ []
set_quote quote (q ∷ qs) =
    if q.quote_id == quote.quote_id then quote ∷ qs else q ∷ set_quote quote qs

unfoldable pub issue_quote : PriceQuote → Quotes → QuoteResult PriceQuote × Quotes
unfolding set_quote
issue_quote quote qs = (ok quote, record qs { quotes = set_quote quote qs.quotes })

abbrev pub cache_ttl_ms : ℕ
cache_ttl_ms = 30000

-- What CoinGecko answered: the two prices, or nothing if the call failed.
pub record Fetched : Type 0 where
  pub eth_usd : Option Text
  pub xlm_usd : Option Text

abbrev fetched_price : Option Fetched → ℕ → CachedPrice
fetched_price none expires = record { src_usd = none; dst_usd = none; expires_at = expires }
fetched_price (some f) expires = record {
  src_usd = f.eth_usd;
  dst_usd = f.xlm_usd;
  expires_at = expires;
}

abbrev fetched_source : Option Fetched → PriceSource
fetched_source none = unknown
fetched_source (some f) = coingecko

abbrev fresh_cache : ℕ → Option CachedPrice → Option CachedPrice
fresh_cache now none = none
fresh_cache now (some c) = if ltb now c.expires_at then some c else none

-- `amountBaseUnits === undefined ? undefined : parseBaseUnitInteger(amountBaseUnits)`
abbrev parse_optional : Option Text → QuoteResult (Option Text)
parse_optional none = ok none
parse_optional (some amount) = elim (parse_base_unit_integer amount) [
  | err e ↦ err e
  | ok canonical ↦ ok (some canonical)
]

-- A quote at a price: the last step of `quoteEthXlm`.
abbrev quote_at :
    Text → Option QuoteTerms → CachedPrice → PriceSource → ℕ → Option Text → PriceQuote
quote_at quote_id terms price source now amount = record {
  quote_id = quote_id;
  issued_terms = terms;
  src_usd = price.src_usd;
  dst_usd = price.dst_usd;
  source = source;
  issued_at = now;
  expires_at = price.expires_at;
  amount_base_units = amount;
  terms = none;
}

abbrev quote_price :
    ℕ
    → Text
    → Option Fetched
    → Option Text
    → Option QuoteTerms
    → Option CachedPrice
    → Quotes
    → QuoteResult PriceQuote × Quotes
quote_price now quote_id fetched amount terms (some cached) qs =
    issue_quote (quote_at quote_id terms cached cache now amount) qs
quote_price now quote_id fetched amount terms none qs =
    let price = fetched_price fetched (now + cache_ttl_ms) in
    issue_quote (quote_at quote_id terms price (fetched_source fetched) now amount)
      (record qs { price_cache = some price })

unfoldable pub quote_parsed :
    ℕ
    → Text
    → Option Fetched
    → Option QuoteTerms
    → Quotes
    → QuoteResult (Option Text)
    → QuoteResult PriceQuote × Quotes
unfolding issue_quote
quote_parsed now quote_id fetched terms qs (err e) = (err e, qs)
quote_parsed now quote_id fetched terms qs (ok amount) =
    quote_price now quote_id fetched amount terms (fresh_cache now qs.price_cache) qs

-- `quoteEthXlm`; the clock is read once.
unfoldable pub quote_eth_xlm :
    ℕ
    → Text
    → Option Fetched
    → Option Text
    → Option QuoteTerms
    → Quotes
    → QuoteResult PriceQuote × Quotes
unfolding parse_base_unit_integer quote_parsed
quote_eth_xlm now quote_id fetched amount terms qs =
    quote_parsed now quote_id fetched terms qs (parse_optional amount)
