-- ===== src/Command/Tests.antt =====
-- The commands on small environments.
use bambu_timelapse.Prelude.{pos, true, Option, none, some, List, [], ◌∷◌, ◌≡◌, refl, if◌then◌else◌}
use bambu_timelapse.Go.Text.{Text, text, text_eq, text_mem}
use bambu_timelapse.Go.Float.{whole}
use bambu_timelapse.Config.{Env, Fields, fields}
use bambu_timelapse.Command.{
  command_of, record_with, RecordFlags, Recording, recording, run_record, load_printer,
}

abbrev env : Env
env key =
    if text_mem key (
      text "PRINTER_HOST"
      ∷ text "PRINTER_SERIAL"
      ∷ text "PRINTER_ACCESS_CODE"
      ∷ text "MEDIA_API_URL"
      ∷ [])
    then text "x"
    else []

abbrev same : Text → Text
same s = s

abbrev no_fields : Text → Fields
no_fields raw = fields []

abbrev flags : RecordFlags
flags = record {
  out = text ".";
  staging = text "./staging";
  once = true;
  every = pos 5;
  frames = pos 3;
}

abbrev recorded : Recording
recorded = recording flags (load_printer same no_fields env).0

abbrev parse : List Text → Option RecordFlags
parse args = some flags

abbrev fine : {R : Type 0} → R → Option Text
fine r = none

record_is_chosen :
    command_of (text "bambu-timelapse" ∷ text "record" ∷ text "-once" ∷ [])
    ≡ record_with (text "-once" ∷ [])
unfolding command_of text_eq
record_is_chosen = refl

bad_flags : (run_record same no_fields env (λ args. none) fine fine []).exit ≡ 2
unfolding run_record
bad_flags = refl
