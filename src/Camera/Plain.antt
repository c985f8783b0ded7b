-- ===== src/Camera/Plain.antt =====
-- internal/camera/encode.go, `overlayText`: what is left of a caption.
use bambu_timelapse.Prelude.{
  ℕ, ◌+◌, ◌/◌, ◌%◌, ◌≡◌, refl, Bool, true, ◌||◌, not, List, [], ◌∷◌, ◌++◌, map, ltb, arith,
  Bool-cases, inl, inr,
}
use bambu_timelapse.Go.Text.{Text, encode_rune}
use bambu_timelapse.Go.Utf8.{runes}
use bambu_timelapse.Camera.{
  dropped, rune_mem, plain_rune, is_space, trim_left, trim_right, encode_runes, overlay_text,
  cons_unless_blank,
}

-- Not a control character, and none of the characters that a filter graph reads.
abbrev pub is_plain : ℕ → Bool
is_plain r = not (ltb r b' ' || rune_mem r dropped)

abbrev pub AllPlain : List ℕ → Type 0
AllPlain [] = Unit
AllPlain (r ∷ rs) = (is_plain r ≡ true) × AllPlain rs

plain_rune_lem : (r : ℕ) → is_plain (plain_rune r) ≡ true
unfolding rune_mem
plain_rune_lem r = elim (Bool-cases (ltb r b' ' || rune_mem r dropped)) [
  | inl bad ↦ rw bad refl
  | inr good ↦ rw (good, good) refl
]

AllPlain-map : (rs : List ℕ) → AllPlain (map plain_rune rs)
AllPlain-map [] = tt
AllPlain-map (r ∷ rs) = (plain_rune_lem r, AllPlain-map rs)

AllPlain-trim_left : (rs : List ℕ) → AllPlain rs → AllPlain (trim_left rs)
unfolding trim_left
AllPlain-trim_left [] h = tt
AllPlain-trim_left (r ∷ rs) h = elim (Bool-cases (is_space r)) [
  | inl blank ↦ rw blank (AllPlain-trim_left rs h.1)
  | inr ink ↦ rw ink h
]

AllPlain-cons :
    (r : ℕ) (rs : List ℕ) → is_plain r ≡ true → AllPlain rs → AllPlain (cons_unless_blank r rs)
AllPlain-cons r [] good h = elim (Bool-cases (is_space r)) [
  | inl blank ↦ rw blank tt
  | inr ink ↦ rw ink (good, tt)
]
AllPlain-cons r (q ∷ qs) good h = (good, h)

AllPlain-trim_right : (rs : List ℕ) → AllPlain rs → AllPlain (trim_right rs)
unfolding trim_right
AllPlain-trim_right [] h = tt
AllPlain-trim_right (r ∷ rs) h = AllPlain-cons r (trim_right rs) h.0 (AllPlain-trim_right rs h.1)

AllPlain-append : (rs qs : List ℕ) → AllPlain rs → AllPlain qs → AllPlain (rs ++ qs)
AllPlain-append [] qs h k = k
AllPlain-append (r ∷ rs) qs h k = (h.0, AllPlain-append rs qs h.1 k)

-- A byte of a longer sequence is none of the characters.
high_plain : (b : ℕ) → is_plain (0x80 + b) ≡ true
unfolding rune_mem
high_plain b = ground arith

lead_plain : (b : ℕ) → is_plain (0xc0 + b) ≡ true
unfolding rune_mem
lead_plain b = ground arith

lead_three_plain : (b : ℕ) → is_plain (0xe0 + b) ≡ true
unfolding rune_mem
lead_three_plain b = ground arith

lead_four_plain : (b : ℕ) → is_plain (0xf0 + b) ≡ true
unfolding rune_mem
lead_four_plain b = ground arith

AllPlain-encode_rune : (r : ℕ) → is_plain r ≡ true → AllPlain (encode_rune r)
AllPlain-encode_rune r h = elim (Bool-cases (ltb r 0x80)) [
  | inl one ↦ rw one (h, tt)
  | inr more ↦ rw more (elim (Bool-cases (ltb r 0x800)) [
    | inl two ↦ rw two (lead_plain (r / 64), (high_plain (r % 64), tt))
    | inr wide ↦ rw wide (elim (Bool-cases (ltb r 0x10000)) [
      | inl three ↦
          rw three
            (lead_three_plain (r / 4096), (high_plain (r / 64 % 64), (high_plain (r % 64), tt)))
      | inr four ↦ rw four (
        lead_four_plain (r / 262144),
        (high_plain (r / 4096 % 64), (high_plain (r / 64 % 64), (high_plain (r % 64), tt))),
      )
    ])
  ])
]

AllPlain-encode_runes : (rs : List ℕ) → AllPlain rs → AllPlain (encode_runes rs)
unfolding encode_runes
AllPlain-encode_runes [] h = tt
AllPlain-encode_runes (r ∷ rs) h =
    AllPlain-append (encode_rune r) (encode_runes rs) (AllPlain-encode_rune r h.0)
      (AllPlain-encode_runes rs h.1)

-- Whatever a text holds, no byte of what is drawn of it is below 32, the code of a space, or one of
-- the nine characters that end or divide the text of a filter.
pub overlay_text-AllPlain : (s : Text) → AllPlain (overlay_text s)
unfolding overlay_text
overlay_text-AllPlain s =
    let rs = trim_right (trim_left (map plain_rune (runes s))) in
    AllPlain-encode_runes rs (
      AllPlain-trim_right (trim_left (map plain_rune (runes s)))
        (AllPlain-trim_left (map plain_rune (runes s)) (AllPlain-map (runes s))))
