-- ===== src/Service/Preflight/Tests.antt =====
-- internal/service/preflight.go: a host with most filters.
use bambu_timelapse.Prelude.{◌≡◌, ◌≢◌, ◌↔◌, true, none, some, [], ◌∷◌}
use bambu_timelapse.Go.Text.{Text, text}
use bambu_timelapse.Camera.Tools.{Support}
use bambu_timelapse.Service.Preflight.{Conf, Drawing, preflight}
use bambu_timelapse.Service.Preflight.Verdict.{preflight_iff}

abbrev conf : Conf
conf = record {
  ffmpeg_bin = text "ffmpeg";
  ffprobe_bin = text "ffprobe";
  root = text "/staging";
  overlay = true;
  min_free = 1000;
}

abbrev no_concat : Support
no_concat = record {
  ffmpeg = text "/usr/bin/ffmpeg";
  ffprobe = [];
  filters = text "drawtext" ∷ text "sendcmd" ∷ text "tpad" ∷ [];
}

abbrev drawing : Drawing
drawing = record { font = text "/f.ttf"; tail = 2; intro = 2 }

abbrev unquoted : Text → Text
unquoted s = s

preflight_iff_example :
    ((preflight unquoted conf no_concat true none (some 5) [] drawing).0 ≡ none)
    ↔ (text "/usr/bin/ffmpeg" ≢ []) × (true ≡ true)
preflight_iff_example = preflight_iff unquoted conf no_concat true none (some 5) [] drawing
