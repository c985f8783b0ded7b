-- ===== src/Go/Decimal.antt =====
-- Decimal numerals read back (strconv.Atoi after strconv.Itoa), and the parts of a joined text.
use bambu_timelapse.Prelude.{
  ℕ, zero, suc, ◌+◌, ◌*◌, ◌/◌, ◌%◌, ◌^◌, ◌<◌, pos, true, false, some, List, [], ◌∷◌, ◌++◌, ltb,
  ◌==◌, ◌≡◌, ◌≢◌, refl, inl, inr, arith, Bool-cases, ap, ◌∙◌,
}
use bambu_timelapse.Go.Text.{Text, join}
use bambu_timelapse.Go.Number.{
  digits_onto, digits, is_digit, parse_digits, parse_nat, atoi, atoi_value,
}
use bambu_timelapse.Go.Strings.{split}

abbrev pub AllDigits : Text → Type 0
AllDigits [] = Unit
AllDigits (c ∷ s) = (is_digit c ≡ true) × AllDigits s

digits_onto-AllDigits : (f n : ℕ) (acc : Text) → AllDigits acc → AllDigits (digits_onto f n acc)
unfolding digits_onto
digits_onto-AllDigits zero n acc h = h
digits_onto-AllDigits (suc f) n acc h = elim (Bool-cases (ltb n 10)) [
  | inl one ↦ rw one (ground arith, h)
  | inr more ↦ rw more (digits_onto-AllDigits f (n / 10) ((b'0' + n % 10) ∷ acc) (ground arith, h))
]

pub digits-AllDigits : (n : ℕ) → AllDigits (digits n)
unfolding digits
digits-AllDigits n = digits_onto-AllDigits (suc n) n [] tt

parse_digits-digit :
    (m d : ℕ) (acc : Text)
    → d < 10
    → parse_digits m ((b'0' + d) ∷ acc) ≡ parse_digits (m * 10 + d) acc
unfolding parse_digits
parse_digits-digit m d acc h = ground arith

parse_digits-carry :
    (n : ℕ) (acc : Text) → parse_digits (n / 10) ((b'0' + n % 10) ∷ acc) ≡ parse_digits n acc
parse_digits-carry n acc =
    parse_digits-digit (n / 10) (n % 10) acc (omega arith)
    ∙ ap (λ m. parse_digits m acc) (omega arith)

tenth_lt : (f n : ℕ) → n < suc f → ltb n 10 ≡ false → n / 10 < f
tenth_lt f n h more = ground arith

parse_digits-onto :
    (f n : ℕ) (acc : Text) → n < f → parse_digits 0 (digits_onto f n acc) ≡ parse_digits n acc
unfolding digits_onto
parse_digits-onto zero n acc h = elim h [ ]
parse_digits-onto (suc f) n acc h = elim (Bool-cases (ltb n 10)) [
  | inl one ↦
      rw one
        (parse_digits-digit 0 n acc (ground arith) ∙ ap (λ m. parse_digits m acc) (omega arith))
  | inr more ↦ rw more (
      parse_digits-onto f (n / 10) ((b'0' + n % 10) ∷ acc) (tenth_lt f n h more)
      ∙ parse_digits-carry n acc)
]

digits_onto-ne-nil : (f n d : ℕ) (acc : Text) → digits_onto f n (d ∷ acc) ≢ []
unfolding digits_onto
digits_onto-ne-nil zero n d acc = ground arith
digits_onto-ne-nil (suc f) n d acc = elim (Bool-cases (ltb n 10)) [
  | inl one ↦ rw one (ground arith)
  | inr more ↦ rw more (digits_onto-ne-nil f (n / 10) (b'0' + n % 10) (d ∷ acc))
]

pub digits-ne-nil : (n : ℕ) → digits n ≢ []
unfolding digits digits_onto
digits-ne-nil n = elim (Bool-cases (ltb n 10)) [
  | inl one ↦ rw one (ground arith)
  | inr more ↦ rw more (digits_onto-ne-nil n (n / 10) (b'0' + n % 10) [])
]

atoi-AllDigits :
    (s : Text) {n : ℕ}
    → AllDigits s
    → s ≢ []
    → parse_digits 0 s ≡ some n
    → n < 2 ^ 63
    → atoi s ≡ some (pos n)
unfolding atoi parse_nat
atoi-AllDigits [] h ne e lt = absurd (ne refl)
atoi-AllDigits (c ∷ s) h ne e lt = ground arith

-- Reading the numeral of a number below 2^63 gives the number back.
pub parse_digits-read : (n : ℕ) → parse_digits 0 (digits n) ≡ some n
unfolding digits
parse_digits-read n = unfold parse_digits in parse_digits-onto (suc n) n [] (omega arith)

pub atoi-digits : (n : ℕ) → n < 2 ^ 63 → atoi (digits n) ≡ some (pos n)
unfolding digits
atoi-digits n h =
    atoi-AllDigits (digits n) (digits-AllDigits n) (digits-ne-nil n) (parse_digits-read n) h

atoi_value-AllDigits :
    (s : Text) {n : ℕ}
    → AllDigits s
    → s ≢ []
    → parse_digits 0 s ≡ some n
    → n < 2 ^ 63
    → atoi_value s ≡ pos n
unfolding atoi_value parse_nat
atoi_value-AllDigits [] h ne e lt = absurd (ne refl)
atoi_value-AllDigits (c ∷ s) h ne e lt = ground arith

pub atoi_value-digits : (n : ℕ) → n < 2 ^ 63 → atoi_value (digits n) ≡ pos n
atoi_value-digits n h =
    atoi_value-AllDigits (digits n) (digits-AllDigits n) (digits-ne-nil n) (parse_digits-read n) h

abbrev pub Lacks : ℕ → Text → Type 0
Lacks b [] = Unit
Lacks b (c ∷ s) = ((c == b) ≡ false) × Lacks b s

abbrev pub AllLack : ℕ → List Text → Type 0
AllLack b [] = Unit
AllLack b (p ∷ ps) = Lacks b p × AllLack b ps

pub Lacks-append : (b : ℕ) (s t : Text) → Lacks b s → Lacks b t → Lacks b (s ++ t)
Lacks-append b [] t h k = k
Lacks-append b (c ∷ s) t h k = (h.0, Lacks-append b s t h.1 k)

split-Lacks : (b : ℕ) (s : Text) → Lacks b s → split b s ≡ s ∷ []
unfolding split
split-Lacks b [] h = refl
split-Lacks b (c ∷ s) h = rw (h.0, split-Lacks b s h.1)

split-append-sep : (b : ℕ) (s t : Text) → Lacks b s → split b (s ++ b ∷ t) ≡ s ∷ split b t
unfolding split
split-append-sep b [] t h = ground arith
split-append-sep b (c ∷ s) t h = rw (h.0, split-append-sep b s t h.1)

-- The parts of joined texts are the texts, where none holds the separator.
pub split-join :
    (b : ℕ) (p : Text) (ps : List Text)
    → AllLack b (p ∷ ps)
    → split b (join (b ∷ []) (p ∷ ps)) ≡ p ∷ ps
unfolding join
split-join b p [] h = split-Lacks b p h.0
split-join b p (q ∷ qs) h = split-append-sep b p _ h.0 ∙ ap (◌∷◌ p) (split-join b q qs h.1)

pub AllDigits-Lacks : (b : ℕ) (s : Text) → AllDigits s → is_digit b ≡ false → Lacks b s
AllDigits-Lacks b [] h nd = tt
AllDigits-Lacks b (c ∷ s) h nd = (ground arith, AllDigits-Lacks b s h.1 nd)
