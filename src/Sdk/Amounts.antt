-- ===== src/Sdk/Amounts.antt =====
-- packages/sdk/src/amounts/index.ts: exact conversion of amounts between the chains. `bigint` is ℤ.
pub mod Exact
pub mod RoundTrip
use over_sync.Prelude.{
  ℕ, zero, suc, ◌+◌, ◌-◌, ◌*◌, ◌/◌, ◌%◌, ◌^◌, Bool, true, false, not, ◌&&◌, Option, none, some,
  List, [], ◌∷◌, ◌++◌, ltb, leb, ◌=ℕ◌, if◌then◌else◌, length, is_empty, Text, text, ℤ, pos, negsuc,
  is_negative, magnitude,
}
use over_sync.Decimal.{to_bigint, to_string, pad_start, trim, span_digits}

abbrev pub ethereum_decimals : ℕ
ethereum_decimals = 18

abbrev pub stellar_decimals : ℕ
stellar_decimals = 7

abbrev pub max_stellar_stroops : ℕ
max_stellar_stroops = 2 ^ 63 - 1

pub data AmountErrorCode : Type 0 where
  not_a_decimal negative precision_loss overflow : AmountErrorCode

-- `AmountResult<bigint>`
pub data AmountResult : Type 0 where
  ok : ℤ → AmountResult
  err : AmountErrorCode → AmountResult

abbrev pub pow10 : ℕ → ℕ
pow10 exponent = 10 ^ exponent

-- What `DECIMAL_PATTERN` captures: whether the sign is `-`, the whole part, the fraction.
pub record DecimalMatch : Type 0 where
  pub minus : Bool
  pub whole : Text
  pub fraction : Text

-- `(?:\.(\d+))?$` after the whole part; a missing group is the empty fraction.
match_fraction : Text → Option Text
match_fraction [] = some []
match_fraction (c ∷ s) =
    let (digits, rest) = span_digits s in
    if c =ℕ b'.' && not (is_empty digits) && is_empty rest then some digits else none

match_unsigned : Bool → Text → Option DecimalMatch
match_unsigned minus s =
    let (whole, rest) = span_digits s in
    if is_empty whole then none else elim (match_fraction rest) [
      | none ↦ none
      | some fraction ↦ some (record { minus = minus; whole = whole; fraction = fraction })
    ]

-- `DECIMAL_PATTERN.exec`: `/^([+-])?(\d+)(?:\.(\d+))?$/u`
pub match_decimal : Text → Option DecimalMatch
unfolding match_fraction match_unsigned
match_decimal [] = none
match_decimal (c ∷ s) =
    if c =ℕ b'-'
    then match_unsigned true s
    else if c =ℕ b'+'
    then match_unsigned false s
    else match_unsigned false (c ∷ s)

-- The part of `parseDecimalToAtomic` after the match.
scale_match : DecimalMatch → ℕ → AmountResult
scale_match m decimals =
    let mantissa = to_bigint (m.whole ++ m.fraction) in
    let places = length m.fraction in
    let divisor = pow10 (places - decimals) in
    if m.minus
    then err negative
    else if leb places decimals
    then ok (pos (mantissa * pow10 (decimals - places)))
    else if not (mantissa % divisor =ℕ 0)
    then err precision_loss
    else ok (pos (mantissa / divisor))

parse_match : Option DecimalMatch → ℕ → AmountResult
unfolding scale_match
parse_match none decimals = err not_a_decimal
parse_match (some m) decimals = scale_match m decimals

pub parse_decimal_to_atomic : Text → ℕ → AmountResult
unfolding match_decimal parse_match
parse_decimal_to_atomic value decimals = parse_match (match_decimal (trim value)) decimals

pub format_atomic_to_decimal : ℤ → ℕ → Text
format_atomic_to_decimal atomic decimals =
    let scale = pow10 decimals in
    let whole = magnitude atomic / scale in
    let fraction = pad_start (to_string (magnitude atomic % scale)) decimals in
    (if is_negative atomic then b'-' ∷ [] else []) ++ (to_string whole ++ (b'.' ∷ fraction))

pub convert_atomic : ℤ → ℕ → ℕ → AmountResult
convert_atomic (negsuc n) from_decimals to_decimals = err negative
convert_atomic (pos amount) from_decimals to_decimals =
    let divisor = pow10 (from_decimals - to_decimals) in
    if leb from_decimals to_decimals
    then ok (pos (amount * pow10 (to_decimals - from_decimals)))
    else if not (amount % divisor =ℕ 0)
    then err precision_loss
    else ok (pos (amount / divisor))

-- `n > MAX_STELLAR_STROOPS`
abbrev pub exceeds_stellar : ℤ → Bool
exceeds_stellar (pos n) = ltb max_stellar_stroops n
exceeds_stellar (negsuc n) = false

abbrev cap_stellar : AmountResult → AmountResult
cap_stellar (err e) = err e
cap_stellar (ok value) = if exceeds_stellar value then err overflow else ok value

pub wei_to_stroops : ℤ → AmountResult
unfolding convert_atomic
wei_to_stroops wei = cap_stellar (convert_atomic wei ethereum_decimals stellar_decimals)

pub stroops_to_wei : ℤ → AmountResult
unfolding convert_atomic
stroops_to_wei stroops =
    if exceeds_stellar stroops
    then err overflow
    else convert_atomic stroops stellar_decimals ethereum_decimals

-- `back.ok && back.value === wei`
abbrev is_ok_of : ℤ → AmountResult → Bool
is_ok_of (pos n) (ok (pos m)) = m =ℕ n
is_ok_of (negsuc n) (ok (negsuc m)) = m =ℕ n
is_ok_of _ _ = false

abbrev goes_back : ℤ → AmountResult → Bool
goes_back wei (err e) = false
goes_back wei (ok stroops) = is_ok_of wei (stroops_to_wei stroops)

pub is_bridgeable_wei : ℤ → Bool
unfolding wei_to_stroops stroops_to_wei
is_bridgeable_wei wei = goes_back wei (wei_to_stroops wei)
