-- ===== src/Decimal/Canonical.antt =====
-- Decimal digits without leading zeros are the digits of the number that they stand for.
use mathlib.Core.List.{append-nil}
use over_sync.Prelude.{
  ℕ, zero, suc, ◌+◌, ◌-◌, ◌*◌, ◌/◌, ◌%◌, ◌≤◌, ◌<◌, ◌≡◌, refl, Bool, true, false, ◌&&◌, inl, inr, [],
  ◌∷◌, ◌++◌, arith, ltb, leb, ◌∙◌, Bool-cases, Text, is_digit, every, ◌=ℕ◌,
}
use over_sync.Decimal.{value_from, to_bigint, digits_from, to_string}

-- Fuel above the number does not matter.
digits_from_fuel :
    (f g n : ℕ) (acc : Text) → n < f → n < g → digits_from f n acc ≡ digits_from g n acc
unfolding digits_from
digits_from_fuel zero g n acc h k = elim h [ ]
digits_from_fuel (suc f) zero n acc h k = elim k [ ]
digits_from_fuel (suc f) (suc g) n acc h k =
    ground (arith, digits_from_fuel f g (n / 10) ((b'0' + n % 10) ∷ acc))

digits_from-large :
    (f n : ℕ) (acc : Text)
    → 10 ≤ n
    → digits_from (suc f) n acc ≡ digits_from f (n / 10) ((b'0' + n % 10) ∷ acc)
unfolding digits_from
digits_from-large f n acc h = ground arith

digits_from-small : (f n : ℕ) (acc : Text) → n < 10 → digits_from (suc f) n acc ≡ (b'0' + n) ∷ acc
unfolding digits_from
digits_from-small f n acc h = ground arith

tens : (v c : ℕ) → is_digit c ≡ true → (v * 10 + (c - b'0')) / 10 ≡ v
tens v c d = ground arith

ones : (v c : ℕ) → is_digit c ≡ true → b'0' + (v * 10 + (c - b'0')) % 10 ≡ c
ones v c d = ground arith

-- One digit at the end of a number that is not 0.
digits_from-step :
    (v c : ℕ) (acc : Text)
    → 0 < v
    → is_digit c ≡ true
    → digits_from (suc (v * 10 + (c - b'0'))) (v * 10 + (c - b'0')) acc
      ≡ digits_from (suc v) v (c ∷ acc)
digits_from-step v c acc p d =
    let n = v * 10 + (c - b'0') in
    digits_from-large n n acc (omega arith)
    ∙ cc
        (tens v c d, ones v c d, digits_from_fuel n (suc v) v (c ∷ acc) (omega arith) (omega arith))

digits_from-value_from :
    (v : ℕ) (s acc : Text)
    → 0 < v
    → every is_digit s ≡ true
    → digits_from (suc (value_from v s)) (value_from v s) acc ≡ digits_from (suc v) v (s ++ acc)
unfolding value_from
digits_from-value_from v [] acc p h = refl
digits_from-value_from v (c ∷ s) acc p h =
    digits_from-value_from (v * 10 + (c - b'0')) s acc (omega arith) (ground arith)
    ∙ digits_from-step v c (s ++ acc) p (ground arith)

to_string_of :
    (c v : ℕ) (s : Text)
    → v < 10
    → 0 < v
    → b'0' + v ≡ c
    → every is_digit s ≡ true
    → digits_from (suc (value_from v s)) (value_from v s) [] ≡ c ∷ s
to_string_of c v s small pos e h =
    digits_from-value_from v s [] pos h
    ∙ digits_from-small v v (s ++ []) small
    ∙ cc (e, append-nil s)

-- Digits of which the first is not `0` are printed again as they were read.
pub to_string-to_bigint :
    (c : ℕ) (s : Text)
    → is_digit c ≡ true
    → (c =ℕ b'0') ≡ false
    → every is_digit s ≡ true
    → to_string (to_bigint (c ∷ s)) ≡ c ∷ s
unfolding to_string to_bigint value_from
to_string-to_bigint c s d n h =
    to_string_of c (0 * 10 + (c - b'0')) s (ground arith) (ground arith) (ground arith) h

-- A digit that is not `0`, and digits.
abbrev pub leads : Text → Bool
leads [] = false
leads (c ∷ s) = leb b'1' c && leb c b'9' && every is_digit s

leads-digits_from :
    (f n : ℕ) (acc : Text)
    → n < f
    → 0 < n
    → every is_digit acc ≡ true
    → leads (digits_from f n acc) ≡ true
unfolding digits_from
leads-digits_from zero n acc h p d = elim h [ ]
leads-digits_from (suc f) n acc h p d = elim (Bool-cases (ltb n 10)) [
  | inl small ↦ rw small (ground arith)
  | inr large ↦ rw large (
      leads-digits_from f (n / 10) ((b'0' + n % 10) ∷ acc) (ground arith) (ground arith)
        (ground arith))
]

-- The notation of a number other than 0 does not begin with `0`.
pub leads-to_string : (n : ℕ) → 0 < n → leads (to_string n) ≡ true
unfolding to_string
leads-to_string n p = leads-digits_from (suc n) n [] (omega arith) p refl
