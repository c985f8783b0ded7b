-- ===== src/Go/Trim.antt =====
-- strings.TrimSpace on texts of printable ASCII.
use bambu_timelapse.Prelude.{
  ℕ, Bool, true, false, ◌&&◌, [], ◌∷◌, ◌++◌, leb, ◌==◌, ◌≡◌, refl, ap, ◌∙◌, arith,
}
use bambu_timelapse.Go.Text.{Text}
use bambu_timelapse.Go.Strings.{blank_size, trim_left, trim_right, trim_space, all_blank}
use bambu_timelapse.Go.Decimal.{AllDigits}

-- Printable ASCII but the space.
abbrev pub is_ink : ℕ → Bool
is_ink c = leb 33 c && leb c 126

abbrev pub AllInk : Text → Type 0
AllInk [] = Unit
AllInk (c ∷ s) = (is_ink c ≡ true) × AllInk s

pub AllInk-append : (s t : Text) → AllInk s → AllInk t → AllInk (s ++ t)
AllInk-append [] t h k = k
AllInk-append (c ∷ s) t h k = (h.0, AllInk-append s t h.1 k)

pub AllDigits-AllInk : (s : Text) → AllDigits s → AllInk s
AllDigits-AllInk [] h = tt
AllDigits-AllInk (c ∷ s) h = (ground arith, AllDigits-AllInk s h.1)

pub ink_size : (c : ℕ) (s : Text) → is_ink c ≡ true → (blank_size c s == 0) ≡ true
ink_size c [] h = ground arith
ink_size c (b ∷ []) h = ground arith
ink_size c (b ∷ d ∷ s) h = ground arith

trim_left-ink : (c : ℕ) (s : Text) → is_ink c ≡ true → trim_left 0 (c ∷ s) ≡ c ∷ s
unfolding trim_left
trim_left-ink c s h = rw (ink_size c s h) refl

all_blank-ink : (c : ℕ) (s : Text) → is_ink c ≡ true → all_blank 0 (c ∷ s) ≡ false
unfolding all_blank
all_blank-ink c s h = rw (ink_size c s h) refl

-- White space after the ink goes, and the ink stays.
trim_right-AllInk : (s t : Text) → AllInk s → trim_right t ≡ [] → trim_right (s ++ t) ≡ s
unfolding trim_right
trim_right-AllInk [] t h e = e
trim_right-AllInk (c ∷ s) t h e =
    rw (all_blank-ink c (s ++ t) h.0) (ap (◌∷◌ c) (trim_right-AllInk s t h.1 e))

pub trim_space-AllInk :
    (c : ℕ) (s t : Text) → AllInk (c ∷ s) → trim_right t ≡ [] → trim_space (c ∷ (s ++ t)) ≡ c ∷ s
unfolding trim_space
trim_space-AllInk c s t h e =
    ap trim_right (trim_left-ink c (s ++ t) h.0) ∙ trim_right-AllInk (c ∷ s) t h e

pub trim_right-newline : trim_right (10 ∷ []) ≡ []
unfolding trim_right all_blank
trim_right-newline = refl

pub trim_right-nil : trim_right [] ≡ []
unfolding trim_right
trim_right-nil = refl
