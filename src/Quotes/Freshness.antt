-- ===== src/Quotes/Freshness.antt =====
-- When a quote fills an order.
use mathlib.Core.Path.{subst}
use over_sync.Prelude.{
  ℕ, ◌+◌, ◌≤◌, ◌<◌, ◌≡◌, refl, not, Option, none, some, List, [], ◌∷◌, arith, ltb, ◌==◌, find,
  select, Text, text_eq, text_beq_iff,
}
use over_sync.Errors.{expired}
use over_sync.Quotes.{
  PriceQuote, QuoteTerms, Quotes, CachedPrice, Fetched, QuoteResult, ok, err, get_by_id,
  check_amount, check_fresh, assert_fresh, quote_price, fresh_cache, quote_at, fetched_price,
  fetched_source, parse_optional, evict_expired, set_quote, issue_quote, quote_eth_xlm,
  quote_parsed, cache_ttl_ms, cache,
}

find-select :
    (now : ℕ) (id : Text) (qs : List PriceQuote) (q : PriceQuote)
    → find (λ q. q.quote_id == id) qs ≡ some q
    → now ≤ q.expires_at
    → find (λ q. q.quote_id == id) (select (λ q. not (ltb q.expires_at now)) qs) ≡ some q
find-select now id [] q e h = cc
find-select now id (x ∷ qs) q e h = ground (arith, find-select now id qs q)

check_fresh_ok :
    (now : ℕ) (amount : Option Text) (o : Option PriceQuote) (q : PriceQuote)
    → check_fresh now amount o ≡ ok q
    → (o ≡ some q) × (now ≤ q.expires_at)
unfolding check_fresh check_amount
check_fresh_ok now amount none q h = cc
check_fresh_ok now amount (some q₀) q h = ground arith

-- Eviction removes what could no longer be used: a quote that is fresh at some time not before the
-- eviction is as fresh after it, with the same answer to the amount test.
pub evict_expired-assert_fresh :
    (now later : ℕ) (id : Text) (amount : Option Text) (qs : Quotes) (q : PriceQuote)
    → now ≤ later
    → assert_fresh later id amount qs ≡ ok q
    → assert_fresh later id amount (evict_expired now qs).1 ≡ ok q
unfolding assert_fresh evict_expired
evict_expired-assert_fresh now later id amount qs q h e =
    let (found, fresh) = check_fresh_ok later amount (get_by_id id qs) q e in
    rw (find-select now id qs.quotes q found (omega arith)) (rw found at e)

-- The cached price is never kept longer than its time to live.
abbrev pub CacheValid : ℕ → Quotes → Type 0
CacheValid now qs = (c : CachedPrice) → qs.price_cache ≡ some c → c.expires_at ≤ now + cache_ttl_ms

find-set_quote :
    (quote : PriceQuote) (qs : List PriceQuote)
    → find (λ q. q.quote_id == quote.quote_id) (set_quote quote qs) ≡ some quote
unfolding set_quote
find-set_quote quote [] = ground (arith, text_beq_iff quote.quote_id quote.quote_id)
find-set_quote quote (q ∷ qs) =
    ground (arith, find-set_quote quote qs, text_beq_iff quote.quote_id quote.quote_id)

-- What a quote that was issued at `now` is worth.
abbrev Issued : ℕ → ℕ → Text → Quotes → PriceQuote → Type 0
Issued now later id qs q =
    (q.quote_id ≡ id)
    × (now < q.expires_at)
    × (q.expires_at ≤ now + cache_ttl_ms)
    × CacheValid later qs
    × (later ≤ q.expires_at → assert_fresh later id none qs ≡ ok q)
    × (q.expires_at < later → assert_fresh later id none qs ≡ err expired)

issue_quote-Issued :
    (now later : ℕ) (quote : PriceQuote) (qs : Quotes)
    → now < quote.expires_at
    → quote.expires_at ≤ now + cache_ttl_ms
    → CacheValid later qs
    → Issued now later quote.quote_id (issue_quote quote qs).1 quote
unfolding issue_quote assert_fresh check_amount
issue_quote-Issued now later quote qs lo hi valid = (
  refl,
  lo,
  hi,
  valid,
  λ h. ground (arith, find-set_quote quote qs.quotes),
  λ h. ground (arith, find-set_quote quote qs.quotes),
)

fetched_price_expires :
    (fetched : Option Fetched) (t : ℕ) → (fetched_price fetched t).expires_at ≡ t
fetched_price_expires none t = refl
fetched_price_expires (some f) t = refl

quote_price-Issued :
    (now later : ℕ) (id : Text) (fetched : Option Fetched) (amount : Option Text)
    (terms : Option QuoteTerms) (cached : Option CachedPrice) (qs : Quotes) (q : PriceQuote)
    → ((c : CachedPrice)
        → cached ≡ some c
        → (now < c.expires_at) × (c.expires_at ≤ now + cache_ttl_ms))
    → CacheValid later qs
    → now ≤ later
    → (quote_price now id fetched amount terms cached qs).0 ≡ ok q
    → Issued now later id (quote_price now id fetched amount terms cached qs).1 q
unfolding issue_quote
quote_price-Issued now later id fetched amount terms (some c) qs q fits valid le h =
    let quote : PriceQuote = quote_at id terms c cache now amount in
    let same : quote ≡ q = ground arith in
    let (lo, hi) = fits c refl in
    subst (λ x. Issued now later id (issue_quote quote qs).1 x) same
      (issue_quote-Issued now later quote qs lo hi valid)
quote_price-Issued now later id fetched amount terms none qs q fits valid le h =
    let price : CachedPrice = fetched_price fetched (now + cache_ttl_ms) in
    let quote : PriceQuote = quote_at id terms price (fetched_source fetched) now amount in
    let qs' : Quotes = record qs { price_cache = some price } in
    let until : price.expires_at ≡ now + cache_ttl_ms =
      fetched_price_expires fetched (now + cache_ttl_ms) in
    let same : quote ≡ q = ground arith in
    subst (λ x. Issued now later id (issue_quote quote qs').1 x) same
      (issue_quote-Issued now later quote qs' (rw until (omega arith)) (rw until (omega arith))
        (λ c e.
          let d : price ≡ c = ground arith in
          subst (λ x. x.expires_at ≤ later + cache_ttl_ms) d (rw until (omega arith))))

fresh_cache_fits :
    (now : ℕ) (o : Option CachedPrice) (c : CachedPrice)
    → ((c : CachedPrice) → o ≡ some c → c.expires_at ≤ now + cache_ttl_ms)
    → fresh_cache now o ≡ some c
    → (now < c.expires_at) × (c.expires_at ≤ now + cache_ttl_ms)
fresh_cache_fits now none c valid h = cc
fresh_cache_fits now (some c₀) c valid h = ground (arith, valid c₀ refl)

quote_parsed-Issued :
    (now later : ℕ) (id : Text) (fetched : Option Fetched) (terms : Option QuoteTerms) (qs : Quotes)
    (q : PriceQuote) (o : QuoteResult (Option Text))
    → CacheValid now qs
    → now ≤ later
    → (quote_parsed now id fetched terms qs o).0 ≡ ok q
    → Issued now later id (quote_parsed now id fetched terms qs o).1 q
unfolding quote_parsed
quote_parsed-Issued now later id fetched terms qs q (err e) valid le h = cc
quote_parsed-Issued now later id fetched terms qs q (ok amount) valid le h =
    quote_price-Issued now later id fetched amount terms (fresh_cache now qs.price_cache) qs q
      (λ c e. fresh_cache_fits now qs.price_cache c valid e) (λ c e. ground (arith, valid c e)) le h

-- If the cached price expires within thirty seconds, then a quote that is issued expires after the
-- present and within thirty seconds of it, from the cache or not, the cached price still expires
-- within thirty seconds of every later time, and until it expires, and no longer, the quote is found
-- fresh by its id.
pub quote_eth_xlm_fresh :
    (now : ℕ) (id : Text) (fetched : Option Fetched) (amount : Option Text)
    (terms : Option QuoteTerms) (qs : Quotes) (q : PriceQuote) (later : ℕ)
    → CacheValid now qs
    → now ≤ later
    → (quote_eth_xlm now id fetched amount terms qs).0 ≡ ok q
    → let qs' = (quote_eth_xlm now id fetched amount terms qs).1 in
      (q.quote_id ≡ id)
      × (now < q.expires_at)
      × (q.expires_at ≤ now + cache_ttl_ms)
      × CacheValid later qs'
      × (later ≤ q.expires_at → assert_fresh later id none qs' ≡ ok q)
      × (q.expires_at < later → assert_fresh later id none qs' ≡ err expired)
unfolding quote_eth_xlm
quote_eth_xlm_fresh now id fetched amount terms qs q later valid le h =
    quote_parsed-Issued now later id fetched terms qs q (parse_optional amount) valid le h
