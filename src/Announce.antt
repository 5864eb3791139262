-- ===== src/Announce.antt =====
-- The announcement of an order, `announce` of coordinator/src/services/order-service.ts with its
-- validation and its quote gate. The state is the database's with that of the quote service, if one
-- is wired in; `now` is the clock of the quote service and `public_id` the fresh random id.
pub mod Accepted
use over_sync.Prelude.{
  ℕ, Bool, true, false, ◌&&◌, ◌||◌, Option, none, some, List, [], ◌∷◌, ◌==◌, ◌=ℕ◌, leb,
  if◌then◌else◌, length, every, is_empty, is_hex, Text, text_eq, to_lower_case,
}
use over_sync.Status.{announced}
use over_sync.Order.{
  Chain, ethereum, stellar, chain_beq, Direction, eth_to_xlm, xlm_to_eth, OrderRow,
  AnnounceOrderInput,
}
use over_sync.Errors.{
  Result, ok, err, ServiceError, bad_address, direction_mismatch, duplicate_hashlock, bad_quote,
  uncaught_quote, QuoteError, amount_parse, Action, pure, throw, ◌>>=◌, ◌>>◌,
}
use over_sync.Store
use over_sync.Store.{Store, find_by_hashlock}
use over_sync.Service.{count_order}
use over_sync.Quotes
use over_sync.Quotes.{Quotes, QuoteResult, OrderTerms, PriceQuote, bind_order_terms, assert_fresh}

-- What `announce` is given: the columns of the order, and the quote id if there is one.
pub record AnnounceInput : Type 0 where
  pub order : AnnounceOrderInput
  pub quote_id : Option Text

-- The database, and the quote service if there is one.
pub record World : Type 0 where
  pub store : Store
  pub quotes : Option Quotes

abbrev pub on_store : {A : Type 0} → Action Store A → Action World A
on_store m w = let (r, s) = m w.store in (r, record w { store = s })

-- `HEX_ADDRESS`: `/^0x[0-9a-fA-F]{40}$/`
unfoldable pub is_hex_address : Text → Bool
is_hex_address (z ∷ x ∷ hex) = z =ℕ b'0' && x =ℕ b'x' && length hex =ℕ 40 && every is_hex hex
is_hex_address _ = false

-- `[A-Z2-7]`
abbrev pub is_base32 : ℕ → Bool
is_base32 c = (leb b'A' c && leb c b'Z') || (leb b'2' c && leb c b'7')

-- `STELLAR_ADDRESS`: `/^G[A-Z2-7]{55}$/`
unfoldable pub is_stellar_address : Text → Bool
is_stellar_address (g ∷ rest) = g =ℕ b'G' && length rest =ℕ 55 && every is_base32 rest
is_stellar_address _ = false

abbrev pub is_address : Chain → Text → Bool
is_address ethereum address = is_hex_address address
is_address stellar address = is_stellar_address address

-- `validateChainAddress`
unfoldable pub validate_chain_address : Chain → Text → Action World (Unit {0})
validate_chain_address chain address =
    if is_address chain address then pure tt else throw (bad_address chain address)

abbrev pub wanted_src : Direction → Chain
wanted_src eth_to_xlm = ethereum
wanted_src xlm_to_eth = stellar

abbrev pub wanted_dst : Direction → Chain
wanted_dst eth_to_xlm = stellar
wanted_dst xlm_to_eth = ethereum

-- `validateDirectionAgainstChains`
unfoldable pub validate_direction_against_chains : AnnounceOrderInput → Action World (Unit {0})
validate_direction_against_chains input =
    if chain_beq (wanted_src input.direction) input.src_chain
      && chain_beq (wanted_dst input.direction) input.dst_chain
    then pure tt
    else throw (direction_mismatch input.direction)

-- The `catch`: the four errors of the quote service become an `OrderValidationError`.
abbrev pub quote_error : QuoteError → ServiceError
quote_error amount_parse = uncaught_quote amount_parse
quote_error e = bad_quote e

abbrev pub order_terms : AnnounceOrderInput → OrderTerms
order_terms input = record {
  from_asset = input.src_asset;
  to_asset = input.dst_asset;
  amount = input.src_amount;
  from_network = input.src_chain;
  to_network = input.dst_chain;
}

-- The answer of the quote service as the outcome of the gate.
abbrev pub quote_verdict : QuoteResult PriceQuote → Action World (Unit {0})
quote_verdict (Quotes.ok quote) = pure tt
quote_verdict (Quotes.err e) = throw (quote_error e)

abbrev pub bind_quote : ℕ → AnnounceOrderInput → Text → Quotes → Action World (Unit {0})
bind_quote now input quote_id qs w =
    let (r, qs') = bind_order_terms now quote_id (order_terms input) qs in
    quote_verdict r (record w { quotes = some qs' })

abbrev pub fresh_quote : ℕ → AnnounceOrderInput → Text → Option Quotes → Action World (Unit {0})
fresh_quote now input quote_id none = pure tt
fresh_quote now input quote_id (some qs) =
    quote_verdict (assert_fresh now quote_id (some input.src_amount) qs)

abbrev pub gate_with : ℕ → AnnounceOrderInput → Text → Option Quotes → Action World (Unit {0})
gate_with now input quote_id none = pure tt
gate_with now input quote_id (some qs) =
    bind_quote now input quote_id qs >> λ w. fresh_quote now input quote_id w.quotes w

-- `if (input.quoteId)`: an empty string is no quote id.
abbrev pub gate_id : ℕ → AnnounceOrderInput → Option Text → Action World (Unit {0})
gate_id now input none = pure tt
gate_id now input (some quote_id) =
    if is_empty quote_id then pure tt else λ w. gate_with now input quote_id w.quotes w

-- The quote freshness gate.
unfoldable pub quote_gate : ℕ → AnnounceInput → Action World (Unit {0})
quote_gate now input = gate_id now input.order input.quote_id

abbrev pub lowered : AnnounceOrderInput → AnnounceOrderInput
lowered input = record input { hashlock = to_lower_case input.hashlock }

abbrev pub announce_new : Text → AnnounceOrderInput → Option OrderRow → Action World OrderRow
announce_new public_id input (some existing) =
    throw (duplicate_hashlock input.hashlock existing.public_id)
announce_new public_id input none = do
  order ← on_store (Store.announce public_id input)
  on_store (count_order announced)
  pure order

unfoldable pub announce : ℕ → Text → AnnounceInput → Action World OrderRow
unfolding validate_direction_against_chains validate_chain_address quote_gate find_by_hashlock
announce now public_id input =
    validate_direction_against_chains input.order
    >> validate_chain_address input.order.src_chain input.order.src_address
    >> validate_chain_address input.order.dst_chain input.order.dst_address
    >> quote_gate now input
    >> (on_store (find_by_hashlock (to_lower_case input.order.hashlock))
        >>= announce_new public_id (lowered input.order))
