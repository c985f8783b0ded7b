-- ===== src/Service/Wording/Names.antt =====
-- internal/service/helpers.go, `clean`: what a part of a file name may hold.
use bambu_timelapse.Prelude.{
  ℕ, zero, suc, ◌≤◌, ◌≡◌, ◌≢◌, refl, true, false, List, [], ◌∷◌, map, ltb, ◌==◌, length, take,
  arith, Bool-cases, inl, inr, length-take,
}
use bambu_timelapse.Go.Text.{Text}
use bambu_timelapse.Go.Utf8.{runes}
use bambu_timelapse.Service.Wording.{
  is_file_rune, file_rune, trim_dots, or_fallback, shortened, clean,
}

abbrev pub AllFile : Text → Type 0
AllFile [] = Unit
AllFile (c ∷ s) = (is_file_rune c ≡ true) × AllFile s

-- It does not start with a dot.
abbrev pub NotHidden : Text → Type 0
NotHidden [] = Unit
NotHidden (c ∷ s) = (c == b'.') ≡ false

file_rune_lem : (r : ℕ) → is_file_rune (file_rune r) ≡ true
file_rune_lem r = ground arith

AllFile-map : (rs : List ℕ) → AllFile (map file_rune rs)
AllFile-map [] = tt
AllFile-map (r ∷ rs) = (file_rune_lem r, AllFile-map rs)

trim_dots_lem : (s : Text) → AllFile s → AllFile (trim_dots s) × NotHidden (trim_dots s)
unfolding trim_dots
trim_dots_lem [] h = (tt, tt)
trim_dots_lem (c ∷ s) h = elim (Bool-cases (c == b'.')) [
  | inl dot ↦ rw dot (trim_dots_lem s h.1)
  | inr ink ↦ rw ink (h, ink)
]

AllFile-take : (n : ℕ) (s : Text) → AllFile s → AllFile (take n s)
AllFile-take zero s h = tt
AllFile-take (suc n) [] h = tt
AllFile-take (suc n) (c ∷ s) h = (h.0, AllFile-take n s h.1)

NotHidden-take : (n : ℕ) (s : Text) → NotHidden s → NotHidden (take n s)
NotHidden-take zero s h = tt
NotHidden-take (suc n) [] h = tt
NotHidden-take (suc n) (c ∷ s) h = h

-- A part of a file name of no more than `limit` bytes.
abbrev pub IsPart : ℕ → Text → Type 0
IsPart limit s = AllFile s × NotHidden s × (length s ≤ limit)

shortened-IsPart :
    (limit : ℕ) (s : Text) → AllFile s → NotHidden s → IsPart limit (shortened limit s)
shortened-IsPart limit s all hidden = elim (Bool-cases (ltb limit (length s))) [
  | inl long ↦
      rw long (
        AllFile-take limit s all,
        NotHidden-take limit s hidden,
        omega (arith, length-take limit s),
      )
  | inr short ↦ rw short (all, hidden, ground arith)
]

or_fallback-IsPart :
    (limit : ℕ) (s : Text) → 5 ≤ limit → IsPart limit s → IsPart limit (or_fallback s)
or_fallback-IsPart limit [] room h = ((refl, (refl, (refl, (refl, (refl, tt))))), refl, room)
or_fallback-IsPart limit (c ∷ s) room h = h

or_fallback-ne-nil : (s : Text) → or_fallback s ≢ []
or_fallback-ne-nil [] e = cc
or_fallback-ne-nil (c ∷ s) e = cc

-- Within a limit of five bytes or more, a part of a file name is never empty, keeps to the limit,
-- does not start with a dot, and holds letters, digits, `.`, `-` and `_` alone.
pub clean-IsPart :
    (s : Text) (limit : ℕ) → 5 ≤ limit → IsPart limit (clean s limit) × (clean s limit ≢ [])
unfolding clean
clean-IsPart s limit room =
    let raw = map file_rune (runes s) in
    let (all, hidden) = trim_dots_lem raw (AllFile-map (runes s)) in
    (
      or_fallback-IsPart limit (shortened limit (trim_dots raw)) room
          (shortened-IsPart limit (trim_dots raw) all hidden),
      or_fallback-ne-nil (shortened limit (trim_dots raw)),
    )
