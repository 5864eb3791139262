-- ===== src/Decimal.antt =====
-- Decimal notation as the JavaScript runtime gives it to the source: `BigInt(digits)`,
-- `n.toString()`, `padStart`, `padEnd`, `trim`, and the digit groups of the regular expressions.
pub mod Laws
pub mod Canonical
use over_sync.Prelude.{
  ℕ, zero, suc, ◌+◌, ◌-◌, ◌*◌, ◌/◌, ◌%◌, Bool, true, false, ◌&&◌, ◌||◌, Option, none, some,
  is_empty, List, [], ◌∷◌, ◌++◌, ltb, leb, ◌=ℕ◌, if◌then◌else◌, length, replicate, Text, is_digit,
}

-- The number that the digits continue from `acc`.
unfoldable pub value_from : ℕ → Text → ℕ
value_from acc [] = acc
value_from acc (c ∷ s) = value_from (acc * 10 + (c - b'0')) s

-- `BigInt(s)` on a text of digits; the empty text is 0.
unfoldable pub to_bigint : Text → ℕ
to_bigint s = value_from 0 s

-- The digits of `n` before those of `acc`; a fuel of `n + 1` is enough, see `to_string`.
digits_from : ℕ → ℕ → Text → Text
digits_from zero n acc = acc
digits_from (suc fuel) n acc =
    let rest = digits_from fuel (n / 10) ((b'0' + n % 10) ∷ acc) in
    if ltb n 10 then (b'0' + n) ∷ acc else rest

-- `n.toString()` on a natural number.
unfoldable pub to_string : ℕ → Text
unfolding digits_from
to_string n = digits_from (suc n) n []

-- `s.padStart(n, "0")` and `s.padEnd(n, "0")`
unfoldable pub pad_start : Text → ℕ → Text
pad_start s n = replicate (n - length s) b'0' ++ s

unfoldable pub pad_end : Text → ℕ → Text
pad_end s n = s ++ replicate (n - length s) b'0'

-- The white space and line ends that `trim` removes.
unfoldable pub is_space : ℕ → Bool
is_space c =
    (leb 9 c && leb c 13)
    || c =ℕ 32
    || c =ℕ 160
    || c =ℕ 5760
    || (leb 8192 c && leb c 8202)
    || c =ℕ 8232
    || c =ℕ 8233
    || c =ℕ 8239
    || c =ℕ 8287
    || c =ℕ 12288
    || c =ℕ 65279

unfoldable pub trim_start : Text → Text
trim_start [] = []
trim_start (c ∷ s) = let rest = trim_start s in if is_space c then rest else c ∷ s

-- A space goes if nothing but spaces follows it.
unfoldable pub trim_end : Text → Text
trim_end [] = []
trim_end (c ∷ s) = elim (trim_end s) [ [] ↦ if is_space c then [] else c ∷ [] | d ∷ r ↦ c ∷ d ∷ r ]

unfoldable pub trim : Text → Text
unfolding trim_start trim_end
trim s = trim_start (trim_end s)

-- A longest group `\d*`, and what follows it.
unfoldable pub span_digits : Text → Text × Text
span_digits [] = ([], [])
span_digits (c ∷ s) =
    let (ds, rest) = span_digits s in if is_digit c then (c ∷ ds, rest) else ([], c ∷ s)

-- `/^(\d+)(?:\.(\d*))?$|^\.(\d+)$/`, the pattern of coordinator/src/services/quote-service.ts and of
-- frontend/src/lib/sanitizeAmountInput.ts: the whole part, `0` if it is missing, and the fraction,
-- empty if it is missing.
unfoldable pub match_rest : Text → Text → Option (Text × Text)
match_rest whole [] = if is_empty whole then none else some (whole, [])
match_rest whole (c ∷ s) =
    let (fraction, rest) = span_digits s in
    if c =ℕ b'.' && is_empty rest
    then (if is_empty whole
        then (if is_empty fraction then none else some (b'0' ∷ [], fraction))
        else some (whole, fraction))
    else none

unfoldable pub match_amount : Text → Option (Text × Text)
unfolding match_rest
match_amount s = let (whole, rest) = span_digits s in match_rest whole rest
