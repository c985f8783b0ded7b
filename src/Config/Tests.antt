-- ===== src/Config/Tests.antt =====
-- internal/config/config.go: environments that load, and one that does not.
use bambu_timelapse.Prelude.{◌≡◌, refl, true, false, [], ◌∷◌, if◌then◌else◌}
use bambu_timelapse.Go.Text.{Text, text, text_eq, is_empty}
use bambu_timelapse.Config.{
  Env, Fields, fields, required, sink, number, flag, string_or, megabytes, crop_matches, validate,
  resolved, errors_of, load,
}
use bambu_timelapse.Config.Valid.{IsValid, load-IsValid}

abbrev unquoted : Text → Text
unquoted s = s

abbrev no_fields : Text → Fields
no_fields s = fields []

-- A laptop: the printer and nothing else.
abbrev printer_only : Env
printer_only key =
    if text_eq key (text "PRINTER_HOST")
    then text "10.0.0.2"
    else if text_eq key (text "PRINTER_SERIAL")
    then text "01P"
    else if text_eq key (text "PRINTER_ACCESS_CODE")
    then text "123"
    else []

abbrev empty_env : Env
empty_env key = []

load-IsValid_example :
    IsValid (load unquoted no_fields false printer_only).0
    × (false ≡ true
        → (is_empty (load unquoted no_fields false printer_only).0.api_url ≡ false)
          × (is_empty (load unquoted no_fields false printer_only).0.api_token ≡ false))
unfolding load resolved errors_of required sink number flag string_or megabytes validate
    crop_matches text_eq
load-IsValid_example = load-IsValid unquoted no_fields false printer_only refl

all_at_once :
    (load unquoted no_fields true empty_env).1
    ≡ text "PRINTER_HOST is required"
      ∷ text "PRINTER_SERIAL is required"
      ∷ text "PRINTER_ACCESS_CODE is required"
      ∷ text "MEDIA_API_URL is required"
      ∷ text "MEDIA_API_TOKEN is required"
      ∷ []
unfolding load resolved errors_of required sink number flag string_or megabytes validate
    crop_matches
all_at_once = refl

a_crop : crop_matches (text "1920:820:0:260") ≡ true
unfolding crop_matches
a_crop = refl

no_crop : crop_matches (text "1920:820::260") ≡ false
unfolding crop_matches
no_crop = refl
