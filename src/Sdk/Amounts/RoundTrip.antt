-- ===== src/Sdk/Amounts/RoundTrip.antt =====
-- A formatted amount reads back as itself.
use native.Mathlib.Nat.{pow-suc, mod-lt, div-add-mod'}
use over_sync.Prelude.{
  ℕ, zero, suc, ◌-◌, ◌/◌, ◌%◌, ◌^◌, ◌<◌, ◌≡◌, refl, Bool, true, false, not, arith, pos, negsuc, ap,
  [], ◌∷◌, ◌++◌, Text, every, is_digit, length, is_empty, some,
}
use over_sync.Decimal.{to_string, pad_start, is_space, span_digits}
use over_sync.Decimal.Laws.{
  every-to_string, length-to_string, is_empty-to_string, length-pad_start, every-append,
  span_digits-append, span_digits_all, every_plain, trim_lem, every-pad_start, is_empty-pad_start,
  to_bigint-append,
}
use over_sync.Sdk.Amounts.{
  match_fraction, match_unsigned, scale_match, ok, err, negative, match_decimal,
  parse_decimal_to_atomic, format_atomic_to_decimal,
}

abbrev dotted : Text → Text → Text
dotted whole fraction = whole ++ (b'.' ∷ fraction)

-- A text that the pattern takes for digits, a point and digits.
record IsDotted (whole fraction : Text) : Type 0 where
  whole_digits : every is_digit whole ≡ true
  fraction_digits : every is_digit fraction ≡ true
  whole_some : is_empty whole ≡ false
  fraction_some : is_empty fraction ≡ false

match_fraction_lem : {w f : Text} → IsDotted w f → match_fraction (b'.' ∷ f) ≡ some f
unfolding match_fraction
match_fraction_lem {w} {f} d = rw (span_digits_all f d.fraction_digits) (ground arith)

span_dotted : {w f : Text} → IsDotted w f → span_digits (dotted w f) ≡ (w, b'.' ∷ f)
unfolding span_digits
span_dotted {w} {f} d = span_digits-append w (b'.' ∷ f) d.whole_digits refl

match_unsigned_lem :
    {w f : Text} (minus : Bool)
    → IsDotted w f
    → match_unsigned minus (dotted w f) ≡ some (record { minus = minus; whole = w; fraction = f })
unfolding match_unsigned
match_unsigned_lem {w} {f} minus d = ground (arith, span_dotted d, match_fraction_lem d)

match_minus :
    {w f : Text}
    → IsDotted w f
    → match_decimal (b'-' ∷ dotted w f) ≡ some (record { minus = true; whole = w; fraction = f })
unfolding match_decimal
match_minus d = match_unsigned_lem true d

match_plain :
    {w f : Text}
    → IsDotted w f
    → match_decimal (dotted w f) ≡ some (record { minus = false; whole = w; fraction = f })
unfolding match_decimal
match_plain {w = []} d = ground arith
match_plain {w = c ∷ w} {f} d = ground (arith, match_unsigned_lem {w = c ∷ w} {f = f} false d)

dotted_plain : {w f : Text} → IsDotted w f → every (λ c. not (is_space c)) (dotted w f) ≡ true
unfolding is_space
dotted_plain {w} {f} d =
    rw (every-append (λ c. not (is_space c)) w (b'.' ∷ f), every_plain w d.whole_digits)
      (every_plain f d.fraction_digits)

minus_plain : {w f : Text} → IsDotted w f → every (λ c. not (is_space c)) (b'-' ∷ dotted w f) ≡ true
unfolding is_space
minus_plain d = dotted_plain d

abbrev whole_part : ℕ → ℕ → Text
whole_part n decimals = to_string (n / 10 ^ decimals)

abbrev fraction_part : ℕ → ℕ → Text
fraction_part n decimals = pad_start (to_string (n % 10 ^ decimals)) decimals

parts-IsDotted : (n decimals : ℕ) → IsDotted (whole_part n decimals) (fraction_part n decimals)
parts-IsDotted n decimals = record {
  whole_digits = every-to_string (n / 10 ^ decimals);
  fraction_digits = every-pad_start _ decimals (every-to_string (n % 10 ^ decimals));
  whole_some = is_empty-to_string (n / 10 ^ decimals);
  fraction_some = is_empty-pad_start _ decimals (is_empty-to_string (n % 10 ^ decimals));
}

pow10_pos : (k : ℕ) → 0 < 10 ^ k
pow10_pos zero = omega arith
pow10_pos (suc k) = omega (arith, pow10_pos k, pow-suc 10 k)

pow10_of_eq : (a b : ℕ) → a ≡ b → 10 ^ (b - a) ≡ 1
pow10_of_eq a b e = rw e (rw (sub_self b) refl)
  where
    sub_self : (b : ℕ) → b - b ≡ 0
    sub_self b = omega arith

length-fraction_part : (n k : ℕ) → length (fraction_part n (suc k)) ≡ suc k
length-fraction_part n k =
    length-pad_start (to_string (n % 10 ^ suc k)) (suc k)
      (length-to_string (suc k) (n % 10 ^ suc k) (omega arith) (mod-lt n (pow10_pos (suc k))))

fraction_part_zero : (n : ℕ) → fraction_part n 0 ≡ b'0' ∷ []
unfolding pad_start to_string
fraction_part_zero n = ap (λ k. pad_start (to_string k) 0) (mod_one n)
  where
    mod_one : (n : ℕ) → n % 1 ≡ 0
    mod_one n = omega arith

-- With no places the fraction is still written, as `0`.
scale_zero :
    (n : ℕ)
    → scale_match (record { minus = false; whole = whole_part n 0; fraction = fraction_part n 0 }) 0
      ≡ ok (pos n)
unfolding scale_match
scale_zero n = ground (
  arith,
  ap length (fraction_part_zero n),
  ap (λ (f : Text). 10 ^ length f) (fraction_part_zero n),
  to_bigint-append (n / 10 ^ 0) (n % 10 ^ 0) 0,
  ap (λ (f : Text). 10 ^ (length f - 0)) (fraction_part_zero n),
)

scale_parts :
    (n decimals : ℕ)
    → scale_match
        (record {
          minus = false;
          whole = whole_part n decimals;
          fraction = fraction_part n decimals;
        })
        decimals
      ≡ ok (pos n)
unfolding scale_match
scale_parts n zero = scale_zero n
scale_parts n (suc k) = ground (
  arith,
  length-fraction_part n k,
  pow10_of_eq (length (fraction_part n (suc k))) (suc k) (length-fraction_part n k),
  to_bigint-append (n / 10 ^ suc k) (n % 10 ^ suc k) (suc k),
  ap (λ l. 10 ^ l) (length-fraction_part n k),
  div-add-mod' n (10 ^ suc k),
)

-- Reading what `formatAtomicToDecimal` wrote, with the same number of places, gives the amount back
-- exactly; what it writes for a negative amount is refused as negative.
pub parse-format :
    (n decimals : ℕ)
    → (parse_decimal_to_atomic (format_atomic_to_decimal (pos n) decimals) decimals ≡ ok (pos n))
      × (parse_decimal_to_atomic (format_atomic_to_decimal (negsuc n) decimals) decimals
          ≡ err negative)
unfolding parse_decimal_to_atomic format_atomic_to_decimal
parse-format n decimals = (
  rw
      (
        trim_lem _ (dotted_plain (parts-IsDotted n decimals)),
        match_plain (parts-IsDotted n decimals),
      )
      (scale_parts n decimals),
  rw
      (
        trim_lem _ (minus_plain (parts-IsDotted (suc n) decimals)),
        match_minus (parts-IsDotted (suc n) decimals),
      )
      refl,
)
