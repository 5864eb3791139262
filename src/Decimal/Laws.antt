-- ===== src/Decimal/Laws.antt =====
-- Printing and reading decimal digits.
use native.Mathlib.Nat.{pow-suc}
use over_sync.Prelude.{
  ℕ, zero, suc, ◌+◌, ◌-◌, ◌*◌, ◌/◌, ◌%◌, ◌^◌, ◌≤◌, ◌<◌, ◌≡◌, refl, Bool, true, false, ◌&&◌, inl,
  inr, [], ◌∷◌, ◌++◌, arith, ltb, ap, ◌∙◌, Bool-cases, length, is_empty, not, length-append,
  replicate, Text, is_digit, every,
}
use over_sync.Decimal.{
  value_from, to_bigint, digits_from, to_string, pad_start, is_space, trim_start, trim_end, trim,
  span_digits,
}

-- Digits after a number shift it by their count.
pub value_from_lem : (acc : ℕ) (s : Text) → value_from acc s ≡ acc * 10 ^ length s + value_from 0 s
unfolding value_from
value_from_lem acc [] = omega arith
value_from_lem acc (c ∷ s) =
    rw (value_from_lem (acc * 10 + (c - b'0')) s, value_from_lem (0 * 10 + (c - b'0')) s, pow-suc)
      (omega arith)

pub value_from-append :
    (acc : ℕ) (s t : Text) → value_from acc (s ++ t) ≡ value_from (value_from acc s) t
unfolding value_from
value_from-append acc [] t = refl
value_from-append acc (c ∷ s) t = value_from-append (acc * 10 + (c - b'0')) s t

value_from-digits_from :
    (fuel n : ℕ) (acc : Text) → n < fuel → value_from 0 (digits_from fuel n acc) ≡ value_from n acc
unfolding value_from digits_from
value_from-digits_from zero n acc h = elim h [ ]
value_from-digits_from (suc fuel) n acc h = elim (Bool-cases (ltb n 10)) [
  | inl small ↦ rw small (ap (λ k. value_from k acc) (omega arith))
  | inr large ↦ rw large (
      value_from-digits_from fuel (n / 10) ((b'0' + n % 10) ∷ acc) (ground arith)
      ∙ ap (λ k. value_from k acc) (omega arith))
]

-- `BigInt(n.toString()) === n`
pub to_bigint-to_string : (n : ℕ) → to_bigint (to_string n) ≡ n
unfolding to_bigint to_string value_from
to_bigint-to_string n = value_from-digits_from (suc n) n [] (omega arith)

every-digits_from :
    (fuel n : ℕ) (acc : Text)
    → every is_digit acc ≡ true
    → every is_digit (digits_from fuel n acc) ≡ true
unfolding digits_from
every-digits_from zero n acc h = h
every-digits_from (suc fuel) n acc h = elim (Bool-cases (ltb n 10)) [
  | inl small ↦ rw small (ground arith)
  | inr large ↦ rw large (every-digits_from fuel (n / 10) ((b'0' + n % 10) ∷ acc) (ground arith))
]

pub every-to_string : (n : ℕ) → every is_digit (to_string n) ≡ true
unfolding to_string
every-to_string n = every-digits_from (suc n) n [] refl

length-digits_from :
    (k fuel n : ℕ) (acc : Text)
    → n < 10 ^ suc k
    → length (digits_from fuel n acc) ≤ suc k + length acc
unfolding digits_from
length-digits_from k zero n acc h = omega arith
length-digits_from zero (suc fuel) n acc h = ground arith
length-digits_from (suc k) (suc fuel) n acc h = elim (Bool-cases (ltb n 10)) [
  | inl small ↦ rw small (omega arith)
  | inr large ↦ rw large (
      omega (
        arith,
        length-digits_from k fuel (n / 10) ((b'0' + n % 10) ∷ acc)
            (omega (arith, pow-suc 10 (suc k))),
      ))
]

-- A number below `10 ^ k` has at most `k` digits, if `k` is not 0.
pub length-to_string : (k n : ℕ) → 0 < k → n < 10 ^ k → length (to_string n) ≤ k
unfolding to_string
length-to_string zero n h p = elim h [ ]
length-to_string (suc k) n h p = omega (arith, length-digits_from k (suc n) n [] p)

is_empty-digits_from :
    (fuel n : ℕ) (acc : Text) → is_empty acc ≡ false → is_empty (digits_from fuel n acc) ≡ false
unfolding digits_from
is_empty-digits_from zero n acc h = h
is_empty-digits_from (suc fuel) n acc h =
    ground (arith, is_empty-digits_from fuel (n / 10) ((b'0' + n % 10) ∷ acc))

pub is_empty-to_string : (n : ℕ) → is_empty (to_string n) ≡ false
unfolding to_string digits_from
is_empty-to_string n = ground (arith, is_empty-digits_from n (n / 10) ((b'0' + n % 10) ∷ []))

length-replicate : (n c : ℕ) → length (replicate n c) ≡ n
length-replicate zero c = refl
length-replicate (suc n) c = ap suc (length-replicate n c)

value_from-zeros : (n : ℕ) → value_from 0 (replicate n b'0') ≡ 0
unfolding value_from
value_from-zeros zero = refl
value_from-zeros (suc n) = value_from-zeros n

pub to_bigint-pad_start : (s : Text) (n : ℕ) → to_bigint (pad_start s n) ≡ to_bigint s
unfolding to_bigint pad_start
to_bigint-pad_start s n =
    rw (value_from-append 0 (replicate (n - length s) b'0') s, value_from-zeros (n - length s)) refl

pub every-append : (p : ℕ → Bool) (s t : Text) → every p (s ++ t) ≡ (every p s && every p t)
every-append p [] t = refl
every-append p (c ∷ s) t = ground (arith, every-append p s t)

pub every-replicate : (p : ℕ → Bool) (n c : ℕ) → p c ≡ true → every p (replicate n c) ≡ true
every-replicate p zero c h = refl
every-replicate p (suc n) c h = ground (arith, every-replicate p n c h)

-- A text of exactly `n` characters comes out of the padding of a shorter one.
pub length-pad_start : (s : Text) (n : ℕ) → length s ≤ n → length (pad_start s n) ≡ n
unfolding pad_start
length-pad_start s n h =
    omega
      (arith, length-append (replicate (n - length s) b'0') s, length-replicate (n - length s) b'0')

-- The group of digits stops where the digits stop.
pub span_digits-append :
    (s rest : Text)
    → every is_digit s ≡ true
    → span_digits rest ≡ ([], rest)
    → span_digits (s ++ rest) ≡ (s, rest)
unfolding span_digits
span_digits-append [] rest h e = e
span_digits-append (c ∷ s) rest h e = ground (arith, span_digits-append s rest)

-- A group of digits holds digits.
pub every-span_digits : (s : Text) → every is_digit (span_digits s).0 ≡ true
unfolding span_digits
every-span_digits [] = refl
every-span_digits (c ∷ s) = ground (arith, every-span_digits s)

trim_start_lem : (s : Text) → every (λ c. not (is_space c)) s ≡ true → trim_start s ≡ s
unfolding trim_start
trim_start_lem [] h = refl
trim_start_lem (c ∷ s) h = ground arith

trim_end_lem : (s : Text) → every (λ c. not (is_space c)) s ≡ true → trim_end s ≡ s
unfolding trim_end
trim_end_lem [] h = refl
trim_end_lem (c ∷ []) h = ground arith
trim_end_lem (c ∷ d ∷ s) h = ground (arith, trim_end_lem (d ∷ s))

pub trim_lem : (s : Text) → every (λ c. not (is_space c)) s ≡ true → trim s ≡ s
unfolding trim
trim_lem s h = rw (trim_end_lem s h) (trim_start_lem s h)

pub span_digits_all : (s : Text) → every is_digit s ≡ true → span_digits s ≡ (s, [])
unfolding span_digits
span_digits_all [] h = refl
span_digits_all (c ∷ s) h = ground (arith, span_digits_all s)

-- Digits are no white space.
pub every_plain : (s : Text) → every is_digit s ≡ true → every (λ c. not (is_space c)) s ≡ true
unfolding is_space
every_plain [] h = refl
every_plain (c ∷ s) h = ground (arith, every_plain s)

pub every-pad_start :
    (s : Text) (n : ℕ) → every is_digit s ≡ true → every is_digit (pad_start s n) ≡ true
unfolding pad_start
every-pad_start s n h =
    rw
      (
        every-append is_digit (replicate (n - length s) b'0') s,
        every-replicate is_digit (n - length s) b'0' refl,
      )
      h

is_empty-append : (s t : Text) → is_empty t ≡ false → is_empty (s ++ t) ≡ false
is_empty-append [] t h = h
is_empty-append (c ∷ s) t h = refl

pub is_empty-pad_start : (s : Text) (n : ℕ) → is_empty s ≡ false → is_empty (pad_start s n) ≡ false
unfolding pad_start
is_empty-pad_start s n h = is_empty-append (replicate (n - length s) b'0') s h

-- A number followed by padded digits is the number shifted by their count, and the digits' value.
pub to_bigint-append :
    (a b n : ℕ)
    → to_bigint (to_string a ++ pad_start (to_string b) n)
      ≡ a * 10 ^ length (pad_start (to_string b) n) + b
unfolding to_bigint
to_bigint-append a b n =
    rw
      (
        value_from-append 0 (to_string a) (pad_start (to_string b) n),
        value_from_lem (value_from 0 (to_string a)) (pad_start (to_string b) n),
      )
      (ground
        (arith, to_bigint-to_string a, to_bigint-to_string b, to_bigint-pad_start (to_string b) n))
