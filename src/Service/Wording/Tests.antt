-- ===== src/Service/Wording/Tests.antt =====
-- internal/service/helpers.go and internal/service/service.go: words for a print.
use bambu_timelapse.Prelude.{ℤ, pos, ◌≡◌, ◌≢◌, refl, true, [], ◌∷◌, arith}
use bambu_timelapse.Go.Text.{text, text_eq}
use bambu_timelapse.Go.Number.{itoa, digits}
use bambu_timelapse.Go.Utf8.{runes}
use bambu_timelapse.Go.Float.{whole}
use bambu_timelapse.Session.{Session, staged}
use bambu_timelapse.Session.Temperature.{Temps, avg}
use bambu_timelapse.Service.Wording.{clean, trim_dots, human_duration, escape, caption}
use bambu_timelapse.Service.Wording.Names.{IsPart, clean-IsPart}
use bambu_timelapse.Service.Wording.Tags.{opens, opens-itoa, caption_lem}

clean-IsPart_example :
    IsPart 20 (clean (text "../../é.gcode") 20) × (clean (text "../../é.gcode") 20 ≢ [])
clean-IsPart_example = clean-IsPart (text "../../é.gcode") 20 (omega arith)

climbing : clean (text "../../é.gcode") 20 ≡ text "_..__.gcode"
unfolding clean trim_dots runes
climbing = refl

abbrev heat : Temps ℤ
heat = record { sum = pos 420; count = 2; peak = pos 220 }

-- A print whose title is a tag.
abbrev tagged : Session ℤ
tagged = record {
  task_id = text "7001";
  job_name = text "<i>&";
  started_at = 5;
  frames = 2;
  last_layer = pos 4;
  total_layers = pos 240;
  layers = pos 1 ∷ pos 4 ∷ [];
  nozzle = heat;
  bed = heat;
  filament = text "PLA";
  pauses = 0;
  partial = true;
  dir = staged (text "job-7001");
}

rounded_closed : (v : ℤ) → opens (whole.rounded v) ≡ 0
unfolding whole
rounded_closed v = opens-itoa v

caption_lem_example : opens (caption (text "P1S") tagged (text "FINISH") 3720) ≡ 2
caption_lem_example = caption_lem (text "P1S") tagged (text "FINISH") 3720 rounded_closed

two_hours : human_duration 7260 ≡ text "2h01m"
unfolding human_duration digits
two_hours = refl

tagged_caption :
    caption (text "P1S") tagged (text "FAILED") 3720
    ≡ text
        "❌ <b>&lt;i&gt;&amp;</b>\nP1S · 1h02m (capture started mid-print) · 4/240 layers\nFilament: PLA\nNozzle 210°C avg / 220 peak · Bed 210°C"
unfolding caption human_duration escape avg whole itoa digits text_eq
tagged_caption = refl
