-- ===== src/Go/Number.antt =====
-- strconv: decimal numerals. `Itoa` and `%d` print, `Atoi` reads an int of 64 bits.
use bambu_timelapse.Prelude.{
  ℕ, zero, suc, ◌+◌, ◌-◌, ◌*◌, ◌/◌, ◌%◌, ◌^◌, ℤ, pos, negsuc, Bool, ◌&&◌, [], ◌∷◌, Option, none,
  some, ltb, leb, ◌==◌, if◌then◌else◌, ◌≡◌, refl, min,
}
use bambu_timelapse.Go.Text.{Text, text}

unfoldable pub digits_onto : ℕ → ℕ → Text → Text
digits_onto zero n acc = acc
digits_onto (suc f) n acc =
    let rest = digits_onto f (n / 10) ((b'0' + n % 10) ∷ acc) in
    if ltb n 10 then (b'0' + n) ∷ acc else rest

-- A number has no more digits than its value plus one.
unfoldable pub digits : ℕ → Text
unfolding digits_onto
digits n = digits_onto (suc n) n []

-- strconv.Itoa
unfoldable pub itoa : ℤ → Text
unfolding digits
itoa (pos n) = digits n
itoa (negsuc n) = b'-' ∷ digits (suc n)

abbrev pub is_digit : ℕ → Bool
is_digit c = leb b'0' c && leb c b'9'

-- The value of a text that holds digits alone.
unfoldable pub parse_digits : ℕ → Text → Option ℕ
parse_digits n [] = some n
parse_digits n (c ∷ s) = if is_digit c then parse_digits (n * 10 + (c - b'0')) s else none

unfoldable pub parse_nat : Text → Option ℕ
unfolding parse_digits
parse_nat [] = none
parse_nat (c ∷ s) = parse_digits 0 (c ∷ s)

abbrev pub positive : Option ℕ → Option ℤ
positive none = none
positive (some n) = if ltb n (2 ^ 63) then some (pos n) else none

abbrev negative : Option ℕ → Option ℤ
negative none = none
negative (some zero) = some (pos 0)
negative (some (suc n)) = if ltb n (2 ^ 63) then some (negsuc n) else none

-- strconv.Atoi: an optional sign, then digits; out of range is an error.
unfoldable pub atoi : Text → Option ℤ
unfolding parse_nat
atoi [] = none
atoi (c ∷ s) =
    if c == b'-'
    then negative (parse_nat s)
    else if c == b'+'
    then positive (parse_nat s)
    else positive (parse_nat (c ∷ s))

abbrev positive_value : Option ℕ → ℤ
positive_value none = pos 0
positive_value (some n) = pos (min n (2 ^ 63 - 1))

abbrev negative_value : Option ℕ → ℤ
negative_value none = pos 0
negative_value (some zero) = pos 0
negative_value (some (suc n)) = negsuc (min n (2 ^ 63 - 1))

-- The value that strconv.Atoi returns beside its error: 0, or the nearest int.
unfoldable pub atoi_value : Text → ℤ
unfolding parse_nat
atoi_value [] = pos 0
atoi_value (c ∷ s) =
    if c == b'-'
    then negative_value (parse_nat s)
    else if c == b'+'
    then positive_value (parse_nat s)
    else positive_value (parse_nat (c ∷ s))

-- int64 arithmetic: a value modulo 2 ^ 64, its product with a positive constant, and a sum.
abbrev wrap : ℤ → ℤ
wrap (pos n) = let r = n % 2 ^ 64 in if ltb r (2 ^ 63) then pos r else negsuc (2 ^ 64 - r - 1)
wrap (negsuc n) = let r = n % 2 ^ 64 in if ltb r (2 ^ 63) then negsuc r else pos (2 ^ 64 - r - 1)

abbrev pub times : ℤ → ℕ → ℤ
times (pos n) k = wrap (pos (n * k))
times (negsuc n) k = wrap (negsuc (n * k + k - 1))

abbrev less : ℕ → ℕ → ℤ
less m n = if ltb m n then negsuc (n - m - 1) else pos (m - n)

abbrev pub plus : ℤ → ℤ → ℤ
plus (pos m) (pos n) = wrap (pos (m + n))
plus (pos m) (negsuc n) = less m (suc n)
plus (negsuc m) (pos n) = less n (suc m)
plus (negsuc m) (negsuc n) = wrap (negsuc (suc (m + n)))

itoa_runs : itoa (negsuc 41) ≡ text "-42"
unfolding itoa
itoa_runs = refl

itoa_zero : itoa (pos 0) ≡ text "0"
unfolding itoa
itoa_zero = refl

atoi_runs : atoi (text "-42") ≡ some (negsuc 41)
unfolding atoi
atoi_runs = refl

atoi_max : atoi (text "9223372036854775808") ≡ none
unfolding atoi
atoi_max = refl
