-- ===== src/Go/Utf8.antt =====
-- `for _, r := range s`: the runes of a Go string, by the rules of the language's UTF-8 decoder.
-- A byte that begins no valid sequence yields U+FFFD and is passed over alone.
use bambu_timelapse.Prelude.{
  ℕ, zero, suc, ◌+◌, ◌-◌, ◌*◌, ◌<◌, ◌≡◌, refl, Bool, ◌&&◌, List, [], ◌∷◌, arith, ltb, leb, ◌==◌,
  if◌then◌else◌, ap,
}
use bambu_timelapse.Go.Text.{Text}

abbrev in_range : ℕ → ℕ → ℕ → Bool
in_range lo hi b = leb lo b && leb b hi

abbrev is_cont : ℕ → Bool
is_cont b = in_range 0x80 0xbf b

-- The bounds on the second byte after the first byte `a`.
abbrev second_lo : ℕ → ℕ
second_lo a = if a == 0xe0 then 0xa0 else if a == 0xf0 then 0x90 else 0x80

abbrev second_hi : ℕ → ℕ
second_hi a = if a == 0xed then 0x9f else if a == 0xf4 then 0x8f else 0xbf

abbrev pub rune_error : ℕ
rune_error = 0xfffd

-- The first rune, and how many bytes it takes beyond the first.
decode : ℕ → Text → ℕ × ℕ
decode a (b ∷ c ∷ d ∷ s) =
    if ltb a 0x80
    then (a, 0)
    else if in_range 0xc2 0xdf a && is_cont b
    then ((a - 0xc0) * 64 + (b - 0x80), 1)
    else if in_range 0xe0 0xef a && in_range (second_lo a) (second_hi a) b && is_cont c
    then ((a - 0xe0) * 4096 + (b - 0x80) * 64 + (c - 0x80), 2)
    else if in_range 0xf0 0xf4 a && in_range (second_lo a) (second_hi a) b && is_cont c && is_cont d
    then ((a - 0xf0) * 262144 + (b - 0x80) * 4096 + (c - 0x80) * 64 + (d - 0x80), 3)
    else (rune_error, 0)
decode a (b ∷ c ∷ []) =
    if ltb a 0x80
    then (a, 0)
    else if in_range 0xc2 0xdf a && is_cont b
    then ((a - 0xc0) * 64 + (b - 0x80), 1)
    else if in_range 0xe0 0xef a && in_range (second_lo a) (second_hi a) b && is_cont c
    then ((a - 0xe0) * 4096 + (b - 0x80) * 64 + (c - 0x80), 2)
    else (rune_error, 0)
decode a (b ∷ []) =
    if ltb a 0x80
    then (a, 0)
    else if in_range 0xc2 0xdf a && is_cont b
    then ((a - 0xc0) * 64 + (b - 0x80), 1)
    else (rune_error, 0)
decode a [] = if ltb a 0x80 then (a, 0) else (rune_error, 0)

runes_after : ℕ → Text → List ℕ
runes_after (suc n) [] = []
runes_after (suc n) (a ∷ s) = runes_after n s
runes_after zero [] = []
runes_after zero (a ∷ s) = let (r, n) = decode a s in r ∷ runes_after n s

unfoldable pub runes : Text → List ℕ
unfolding runes_after decode
runes s = runes_after 0 s

decode_ascii : (a : ℕ) (s : Text) → a < 0x80 → decode a s ≡ (a, 0)
unfolding decode
decode_ascii a [] h = ground arith
decode_ascii a (b ∷ []) h = ground arith
decode_ascii a (b ∷ c ∷ []) h = ground arith
decode_ascii a (b ∷ c ∷ d ∷ s) h = ground arith

-- An ASCII text is its own list of runes.
abbrev pub IsAscii : Text → Type 0
IsAscii [] = Unit
IsAscii (a ∷ s) = (a < 0x80) × IsAscii s

runes_after_ascii : (s : Text) → IsAscii s → runes_after 0 s ≡ s
unfolding runes_after
runes_after_ascii [] h = refl
runes_after_ascii (a ∷ s) h =
    rw (decode_ascii a s h.0) (ap (λ (t : Text). a ∷ t) (runes_after_ascii s h.1))

pub runes_ascii : (s : Text) → IsAscii s → runes s ≡ s
unfolding runes
runes_ascii s h = runes_after_ascii s h
