-- ===== src/Session/Name.antt =====
-- internal/session/session.go, `sanitize`: the directory name of a task.
use bambu_timelapse.Prelude.{
  ℕ, ◌<◌, ◌≡◌, ◌≢◌, refl, Bool, true, ◌&&◌, ◌||◌, List, [], ◌∷◌, map, arith, leb, ◌==◌,
  if◌then◌else◌,
}
use bambu_timelapse.Go.Text.{Text, text}
use bambu_timelapse.Go.Utf8.{runes, IsAscii, runes_ascii}

-- The cases of the `switch`.
abbrev pub is_safe : ℕ → Bool
is_safe r =
    (leb b'a' r && leb r b'z')
    || ((leb b'A' r && leb r b'Z') || ((leb b'0' r && leb r b'9') || (r == b'-' || r == b'_')))

abbrev pub safe_rune : ℕ → ℕ
safe_rune r = if is_safe r then r else b'_'

abbrev or_unknown : Text → Text
or_unknown [] = text "unknown"
or_unknown (c ∷ s) = c ∷ s

unfoldable pub sanitize : Text → Text
sanitize s = or_unknown (map safe_rune (runes s))

abbrev pub AllSafe : Text → Type 0
AllSafe [] = Unit
AllSafe (c ∷ s) = (is_safe c ≡ true) × AllSafe s

pub safe_ascii : (c : ℕ) → is_safe c ≡ true → c < 0x80
safe_ascii c h = ground arith

safe_rune_safe : (r : ℕ) → is_safe (safe_rune r) ≡ true
safe_rune_safe r = ground arith

AllSafe-map : (rs : List ℕ) → AllSafe (map safe_rune rs)
AllSafe-map [] = tt
AllSafe-map (r ∷ rs) = (safe_rune_safe r, AllSafe-map rs)

AllSafe-or_unknown : (s : Text) → AllSafe s → AllSafe (or_unknown s)
AllSafe-or_unknown [] h = ground arith
AllSafe-or_unknown (c ∷ s) h = h

or_unknown-ne-nil : (s : Text) → or_unknown s ≢ []
or_unknown-ne-nil [] e = cc
or_unknown-ne-nil (c ∷ s) e = cc

or_unknown_nonempty : (s : Text) → s ≢ [] → or_unknown s ≡ s
or_unknown_nonempty [] h = absurd (h refl)
or_unknown_nonempty (c ∷ s) h = refl

-- The name is never empty, and holds letters, digits, `-` and `_` alone.
pub sanitize-AllSafe : (s : Text) → AllSafe (sanitize s) × (sanitize s ≢ [])
unfolding sanitize
sanitize-AllSafe s = (
  AllSafe-or_unknown (map safe_rune (runes s)) (AllSafe-map (runes s)),
  or_unknown-ne-nil (map safe_rune (runes s)),
)

AllSafe-IsAscii : (s : Text) → AllSafe s → IsAscii s
AllSafe-IsAscii [] h = tt
AllSafe-IsAscii (c ∷ s) h = (safe_ascii c h.0, AllSafe-IsAscii s h.1)

map_safe : (s : Text) → AllSafe s → map safe_rune s ≡ s
map_safe [] h = refl
map_safe (c ∷ s) h = ground (arith, map_safe s h.1)

-- A task id that is a safe name already is its own directory name.
pub sanitize_safe : (s : Text) → AllSafe s → s ≢ [] → sanitize s ≡ s
unfolding sanitize
sanitize_safe s h nonempty =
    rw (runes_ascii s (AllSafe-IsAscii s h), map_safe s h) (or_unknown_nonempty s nonempty)
