-- ===== src/Quotes/Amount.antt =====
-- `parseAmountToBaseUnits` of coordinator/src/services/quote-service.ts, and what the amount test of
-- a quote lets through.
use over_sync.Prelude.{
  ℕ, zero, suc, ◌+◌, ◌*◌, ◌^◌, ◌≡◌, refl, ◌↔◌, inl, inr, true, Option, none, some, [], ◌∷◌, arith,
  ltb, ◌=ℕ◌, if◌then◌else◌, Bool-cases, length, Text, text_eq, ℤ, pos, negsuc,
}
use over_sync.Decimal.{to_bigint, to_string, value_from, pad_end, trim, match_amount}
use over_sync.Decimal.Canonical.{leads, to_string-to_bigint, leads-to_string}
use over_sync.Errors.{amount_parse}
use over_sync.Quotes.{QuoteResult, ok, err, is_base_unit_integer, parse_base_unit_integer}

-- After the match: the amount of base units.
pub scale_amount : ℕ → Option (Text × Text) → QuoteResult ℕ
scale_amount decimals none = err amount_parse
scale_amount decimals (some (whole, fraction)) =
    if ltb decimals (length fraction)
    then err amount_parse
    else ok (to_bigint whole * 10 ^ decimals + to_bigint (pad_end fraction decimals))

-- `decimals` is an integer of JavaScript, which may be negative.
pub parse_amount_to_base_units : Text → ℤ → QuoteResult ℕ
unfolding scale_amount
parse_amount_to_base_units input (negsuc n) = err amount_parse
parse_amount_to_base_units input (pos decimals) = scale_amount decimals (match_amount (trim input))

canonical : (s : Text) → is_base_unit_integer s ≡ true → to_string (to_bigint s) ≡ s
unfolding is_base_unit_integer
canonical [] h = cc
canonical (c ∷ s) h = elim (Bool-cases (c =ℕ b'0')) [
  | inl zero_digit ↦ rw (lone_zero c s h zero_digit) (unfold to_string to_bigint value_from in refl)
  | inr other ↦ to_string-to_bigint c s (ground arith) other (ground arith)
]
  where
    lone_zero :
        (c : ℕ) (s : Text)
        → is_base_unit_integer (c ∷ s) ≡ true
        → (c =ℕ b'0') ≡ true
        → (c ∷ s) ≡ (b'0' ∷ [])
    lone_zero c [] h z = ground arith
    lone_zero c (d ∷ s) h z = ground arith

leads_is_base_unit : (s : Text) → leads s ≡ true → is_base_unit_integer s ≡ true
unfolding is_base_unit_integer
leads_is_base_unit [] h = cc
leads_is_base_unit (c ∷ s) h = ground arith

pub is_base_unit_integer-to_string : (n : ℕ) → is_base_unit_integer (to_string n) ≡ true
unfolding is_base_unit_integer to_string
is_base_unit_integer-to_string zero = refl
is_base_unit_integer-to_string (suc n) =
    leads_is_base_unit (to_string (suc n)) (leads-to_string (suc n) (omega arith))

-- A base-unit integer is read as it stands: the parse succeeds exactly on the texts that are the
-- notation of the number that they stand for, and returns the text itself.
pub parse_base_unit_integer_iff :
    (s t : Text) → (parse_base_unit_integer s ≡ ok t) ↔ ((to_string (to_bigint s) ≡ s) × (t ≡ s))
unfolding parse_base_unit_integer
parse_base_unit_integer_iff s t = elim (Bool-cases (is_base_unit_integer s)) [
  | inl y ↦ (λ h. ground (arith, canonical s y), λ h. ground arith)
  | inr n ↦ (λ h. ground arith, λ h. cc (rw h.0 at (is_base_unit_integer-to_string (to_bigint s))))
]
