-- ===== src/Secrets.antt =====
-- The secret service, coordinator/src/services/secret-service.ts, with `assertValidSecretFormat` and
-- `hashOrderPreimage` of packages/sdk/src/secrets/index.ts. `sha256` stands for viem's hash of a
-- sequence of bytes. The clock of the service is in milliseconds.
pub mod Encoding
pub mod Gate
use over_sync.Prelude.{
  ℕ, zero, suc, ◌-◌, ◌+◌, ◌*◌, ◌/◌, ◌%◌, ◌^◌, Bool, true, false, not, ◌&&◌, ◌||◌, Option, none,
  some, List, [], ◌∷◌, ◌++◌, ◌==◌, ◌=ℕ◌, if◌then◌else◌, length, ltb, leb, every, is_empty, is_digit,
  is_hex, Text, text_eq, option_eq, to_lower_case,
}
use over_sync.Decimal.{to_bigint}
use over_sync.Timelock.{evaluate_secret_window, SecretWindow}
use over_sync.Order.{OrderRow}
use over_sync.Errors.{
  Result, ok, err, ServiceError, bad_secret_format, secret_unknown_order, preimage_mismatch,
  secret_conflict, preimage_reused, secret_expired, order_id_too_large, Action, pure, throw, ◌>>=◌,
  ◌>>◌,
}
use over_sync.Store.{Store, find_by_public_id, find_by_preimage}
use over_sync.Service.{record_secret}

-- The tests of `assertValidSecretFormat` on a string.
abbrev is_32_bytes : Text → Bool
is_32_bytes hex = length hex =ℕ 64 && every is_hex hex && not (every (λ c. c =ℕ b'0') hex)

unfoldable pub is_valid_secret_format : Text → Bool
is_valid_secret_format (z ∷ x ∷ hex) = z =ℕ b'0' && x =ℕ b'x' && is_32_bytes hex
is_valid_secret_format _ = false

abbrev pub cons_some : Option Text → List Text → List Text
cons_some none ids = ids
cons_some (some id) ids = id ∷ ids

-- `[order.srcOrderId, order.dstOrderId].filter(…)`
abbrev pub known_ids : OrderRow → List Text
known_ids order = cons_some order.src_order_id (cons_some order.dst_order_id [])

-- `value & 0xff` and `value >>= 8`, from the last byte to the first.
unfoldable pub big_endian : ℕ → ℕ → List ℕ
big_endian zero value = []
big_endian (suc n) value = big_endian n (value / 256) ++ (value % 256) ∷ []

-- `parseInt` of one hex digit.
abbrev pub hex_value : ℕ → ℕ
hex_value c = if leb c b'9' then c - b'0' else if leb b'a' c then c - b'a' + 10 else c - b'A' + 10

-- `hexToUint8`, on digits of even number.
unfoldable pub hex_to_bytes : Text → List ℕ
hex_to_bytes (high ∷ low ∷ rest) = (16 * hex_value high + hex_value low) ∷ hex_to_bytes rest
hex_to_bytes _ = []

abbrev pub strip_prefix : Text → Text
strip_prefix (z ∷ x ∷ hex) = if z =ℕ b'0' && x =ℕ b'x' then hex else z ∷ x ∷ hex
strip_prefix s = s

-- The bytes that `hashOrderPreimage` hashes; `none` where it throws for an order id that does not
-- fit in 256 bits. The other errors are those of a preimage that has not passed
-- `assertValidSecretFormat`.
unfoldable pub order_message : ℕ → Text → Option (List ℕ)
unfolding big_endian hex_to_bytes
order_message order_id preimage =
    if ltb order_id (2 ^ 256)
    then some (big_endian 32 order_id ++ hex_to_bytes (strip_prefix preimage))
    else none

-- `hash === order.hashlock`
abbrev pub compare_digest : Option Text → Text → Option Bool
compare_digest none hashlock = none
compare_digest (some digest) hashlock = some (digest == hashlock)

-- Whether the same preimage belongs to another order already.
abbrev pub is_reused : OrderRow → Option OrderRow → Bool
is_reused order none = false
is_reused order (some other) = not (other.public_id == order.public_id)

module _ (sha256 : List ℕ → Text) where
  abbrev pub hash_order_preimage : ℕ → Text → Option Text
  hash_order_preimage order_id preimage = elim (order_message order_id preimage) [
    | none ↦ none
    | some message ↦ some (sha256 message)
  ]

  -- One call of the callback of `orderIds.some`; `none` where it throws.
  abbrev pub matches_id : Text → OrderRow → Text → Option Bool
  matches_id canonical order id =
      if not (is_empty id) && every is_digit id
      then compare_digest (hash_order_preimage (to_bigint id) canonical) order.hashlock
      else some false

  unfoldable pub matches_known_orders : Text → OrderRow → List Text → Option Bool
  matches_known_orders canonical order [] = some false
  matches_known_orders canonical order (id ∷ ids) =
      let rest = matches_known_orders canonical order ids in
      elim (matches_id canonical order id) [
        | none ↦ none
        | some matched ↦ if matched then some true else rest
      ]

  -- `reveal`, step by step from the last one: the reuse test and the gate, the stored preimage, the
  -- hash, the order.
  abbrev pub reveal_new : ℕ → Text → Text → OrderRow → Option OrderRow → Action Store (Unit {0})
  reveal_new now canonical tx_hash order existing =
      let window = evaluate_secret_window order.src_timelock order.dst_timelock (now / 1000) in
      if is_reused order existing
      then throw preimage_reused
      else if window.is_open
      then record_secret order.public_id canonical tx_hash none
      else throw (secret_expired window.error)

  abbrev pub reveal_matched : ℕ → Text → Text → OrderRow → Option Text → Action Store (Unit {0})
  reveal_matched now canonical tx_hash order (some stored) =
      if stored == canonical then pure tt else throw secret_conflict
  reveal_matched now canonical tx_hash order none = do
    existing ← find_by_preimage canonical
    reveal_new now canonical tx_hash order existing

  abbrev pub reveal_checked : ℕ → Text → Text → OrderRow → Option Bool → Action Store (Unit {0})
  reveal_checked now canonical tx_hash order none = throw order_id_too_large
  reveal_checked now canonical tx_hash order (some matched) =
      if matched
      then reveal_matched now canonical tx_hash order order.preimage
      else throw preimage_mismatch

  abbrev pub reveal_found : ℕ → Text → Text → Text → Option OrderRow → Action Store (Unit {0})
  reveal_found now public_id canonical tx_hash none = throw (secret_unknown_order public_id)
  reveal_found now public_id canonical tx_hash (some order) =
      reveal_checked now canonical tx_hash order
        (matches_known_orders canonical order (known_ids order))

  unfoldable pub reveal : ℕ → Text → Text → Text → Action Store (Unit {0})
  unfolding find_by_public_id
  reveal now public_id preimage tx_hash =
      if is_valid_secret_format preimage
      then (do
        found ← find_by_public_id public_id
        reveal_found now public_id (to_lower_case preimage) tx_hash found)
      else throw bad_secret_format
