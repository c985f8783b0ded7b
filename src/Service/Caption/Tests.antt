-- ===== src/Service/Caption/Tests.antt =====
-- internal/service/service.go: what a print of two frames is encoded with.
use bambu_timelapse.Prelude.{ℤ, pos, ◌≡◌, refl, true, false, none, some, List, [], ◌∷◌}
use bambu_timelapse.Go.Text.{text}
use bambu_timelapse.Go.Number.{itoa, digits}
use bambu_timelapse.Go.Float.{whole}
use bambu_timelapse.Telemetry.{Decoder}
use bambu_timelapse.Telemetry.Json.{end}
use bambu_timelapse.Session.{Session, staged}
use bambu_timelapse.Session.Temperature.{Temps}
use bambu_timelapse.Service.{Service, Options}
use bambu_timelapse.Service.Finalize.{Settings}
use bambu_timelapse.Service.Events.{Event, connected, disconnected, run}
use bambu_timelapse.Camera.Tools.{Support}
use bambu_timelapse.Service.Preflight.{Conf, Drawing}
use bambu_timelapse.Service.Caption.{Look, overlay, duration}
use bambu_timelapse.Service.Caption.Frames.{CaptionsFrames, run-CaptionsFrames}

abbrev look : Look
look = record { printer_name = text "P1S"; overlay = true; fps = 1; crop = [] }

abbrev cold : Temps ℤ
cold = record { sum = pos 0; count = 0; peak = pos 0 }

abbrev two_frames : Session ℤ
two_frames = record {
  task_id = text "7001";
  job_name = text "Benchy";
  started_at = 5;
  frames = 2;
  last_layer = pos 4;
  total_layers = pos 240;
  layers = pos 1 ∷ pos 4 ∷ [];
  nozzle = cold;
  bed = cold;
  filament = [];
  pauses = 0;
  partial = false;
  dir = staged (text "job-7001");
}

two_lines :
    overlay look (text "/f.ttf") two_frames
    ≡ some (record {
      font_file = text "/f.ttf";
      title = text "P1S · Benchy";
      lines = text "Layer 1/240" ∷ text "Layer 4/240" ∷ [];
    })
unfolding overlay itoa digits
two_lines = refl

abbrev drawing : Drawing
drawing = record { font = []; tail = 2000000000; intro = 2000000000 }

four_seconds : duration look drawing [] two_frames ≡ 4
unfolding duration
four_seconds = refl

abbrev deaf : Decoder ℤ
deaf = record { message = λ payload. none; section = λ raw. none }

abbrev options : Options
options = record { min_free = 1000; intro = 0 }

abbrev settings : Settings
settings = record {
  has_api = true;
  has_crop = false;
  min_frames = pos 10;
  once = false;
  overlay = true;
  has_font = true;
}

abbrev service : Service ℤ
service = record {
  view = record { fields = end };
  store = record { jobs = []; failed = [] };
  sessions = λ p. two_frames;
  next = 1;
  current = some 0;
  reconciled = true;
  idle_state = [];
  idle_logged = 0;
  notes = [];
  grab = none;
  fetching = [];
  endings = [];
  last_report = 0;
  mqtt_up = true;
  stopped = false;
  gauges = record {
    mqtt_up = true;
    layer = pos 0;
    total_layers = pos 0;
    progress = pos 0;
    nozzle = pos 0;
    bed = pos 0;
    session_frames = 0;
    last_upload = 0;
    print_state = [];
  };
  counters = record {
    frames_captured = 0;
    capture_failures = 0;
    uploads_ok = 0;
    uploads_failed = 0;
    uploads_skipped = 0;
    uploads_local = 0;
  };
}

abbrev events : List Event
events = disconnected ∷ connected ∷ []

run-CaptionsFrames_example :
    CaptionsFrames
      ((run deaf options settings events service).sessions 0)
      (overlay look (text "/f.ttf") ((run deaf options settings events service).sessions 0))
run-CaptionsFrames_example =
    run-CaptionsFrames deaf options settings events service
      (record { held = λ p. (refl, (refl, (refl, tt))); on_disk = (tt, tt); grabbing = tt }) look
      (text "/f.ttf") 0

abbrev conf : Conf
conf = record { ffmpeg_bin = []; ffprobe_bin = []; root = []; overlay = false; min_free = 0 }

abbrev no_concat : Support
no_concat = record { ffmpeg = text "/usr/bin/ffmpeg"; ffprobe = []; filters = text "tpad" ∷ [] }
