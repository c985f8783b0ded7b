-- ===== src/Service/Wording.antt =====
-- internal/service/helpers.go, `clean` and `humanDuration`, and internal/service/service.go,
-- `caption` and `filename`: the words that a video is posted with. `stamp` is the start of the print
-- in the layout that time.Format is given.
pub mod Names
pub mod Tags
mod Tests
use bambu_timelapse.Prelude.{
  ℕ, ◌/◌, ◌%◌, pos, Bool, ◌&&◌, ◌||◌, not, List, [], ◌∷◌, ◌++◌, map, ltb, leb, ltb_ℤ, ◌==◌,
  if◌then◌else◌, length, take,
}
use bambu_timelapse.Go.Text.{Text, text, text_eq, is_empty}
use bambu_timelapse.Go.Utf8.{runes}
use bambu_timelapse.Go.Number.{digits, itoa}
use bambu_timelapse.Go.Float.{Float}
use bambu_timelapse.Telemetry.{state_finish}
use bambu_timelapse.Session.{Session}
use bambu_timelapse.Session.Temperature.{avg}

-- The cases of the `switch` of `clean`.
abbrev pub is_file_rune : ℕ → Bool
is_file_rune r =
    (leb b'a' r && leb r b'z')
    || ((leb b'A' r && leb r b'Z')
        || ((leb b'0' r && leb r b'9') || (r == b'.' || (r == b'-' || r == b'_'))))

abbrev pub file_rune : ℕ → ℕ
file_rune r = if is_file_rune r then r else b'_'

-- strings.TrimLeft(s, ".")
unfoldable pub trim_dots : Text → Text
trim_dots [] = []
trim_dots (c ∷ s) = let rest = trim_dots s in if c == b'.' then rest else c ∷ s

abbrev pub fallback_name : Text
fallback_name = text "print"

abbrev pub or_fallback : Text → Text
or_fallback [] = fallback_name
or_fallback (c ∷ s) = c ∷ s

abbrev pub shortened : ℕ → Text → Text
shortened limit s = if ltb limit (length s) then take limit s else s

-- `clean`
unfoldable pub clean : Text → ℕ → Text
unfolding trim_dots
clean s limit = or_fallback (shortened limit (trim_dots (map file_rune (runes s))))

abbrev pub printer_name_limit : ℕ
printer_name_limit = 20

abbrev pub job_name_limit : ℕ
job_name_limit = 60

-- `filename`
unfoldable pub filename : Text → Text → Text → Text
unfolding clean
filename printer job stamp =
    clean printer printer_name_limit
    ++ (text "_" ++ (clean job job_name_limit ++ (text "_" ++ (stamp ++ text ".mp4"))))

-- `%02d`
abbrev pub two_digits : ℕ → Text
two_digits n = if ltb n 10 then b'0' ∷ digits n else digits n

-- `humanDuration`, of whole seconds
unfoldable pub human_duration : ℕ → Text
human_duration total =
    let h = total / 3600 in
    let m = total % 3600 / 60 in
    if ltb 0 h then digits h ++ (text "h" ++ (two_digits m ++ text "m")) else digits m ++ text "m"

-- html.EscapeString
abbrev pub escape_byte : ℕ → Text
escape_byte c =
    if c == b'&'
    then text "&amp;"
    else if c == b'\''
    then text "&#39;"
    else if c == b'<'
    then text "&lt;"
    else if c == b'>'
    then text "&gt;"
    else if c == b'"'
    then text "&#34;"
    else c ∷ []

unfoldable pub escape : Text → Text
escape [] = []
escape (c ∷ s) = escape_byte c ++ escape s

abbrev pub when : Bool → Text → Text
when b t = if b then t else []

-- What a strings.Builder holds after these writes.
abbrev pub text_of_writes : List Text → Text
text_of_writes [] = []
text_of_writes (t ∷ ts) = t ++ text_of_writes ts

module _ {A : Type 0} ⦃f : Float A⦄ where
  -- What `caption` writes below the title.
  abbrev pub facts : Text → Session A → ℕ → List Text
  facts printer s elapsed =
      escape printer
      ∷ text " · "
      ∷ human_duration elapsed
      ∷ when s.partial (text " (capture started mid-print)")
      ∷ when (ltb_ℤ (pos 0) s.total_layers) (
          text_of_writes
            (text " · " ∷ itoa s.last_layer ∷ text "/" ∷ itoa s.total_layers ∷ text " layers" ∷ []))
      ∷ when (not (is_empty s.filament))
          (text_of_writes (text "\nFilament: " ∷ escape s.filament ∷ []))
      ∷ when (ltb 0 s.nozzle.count) (
          text_of_writes (
            text "\nNozzle "
            ∷ f.rounded (avg s.nozzle)
            ∷ text "°C avg / "
            ∷ f.rounded s.nozzle.peak
            ∷ text " peak · Bed "
            ∷ f.rounded (avg s.bed)
            ∷ text "°C"
            ∷ []))
      ∷ when (ltb 0 s.pauses) (text_of_writes (text "\n" ∷ digits s.pauses ∷ text " pause(s)" ∷ []))
      ∷ []

  -- `caption`; `elapsed` is in whole seconds.
  unfoldable pub caption : Text → Session A → Text → ℕ → Text
  unfolding human_duration escape avg
  caption printer s end_state elapsed = text_of_writes (
      (if text_eq end_state state_finish then text "✅" else text "❌")
      ∷ text " <b>"
      ∷ escape s.job_name
      ∷ text "</b>\n"
      ∷ facts printer s elapsed)
