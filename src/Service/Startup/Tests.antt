-- ===== src/Service/Startup/Tests.antt =====
-- A daemon started on small staging areas.
use bambu_timelapse.Prelude.{
  ℕ, ◌*◌, ◌+◌, ◌<◌, ◌⊎◌, ◌↔◌, ℤ, pos, ◌≡◌, refl, true, false, none, some, List, [], ◌∷◌,
}
use bambu_timelapse.Go.Text.{text, text_mem, text_eq}
use bambu_timelapse.Go.Float.{whole}
use bambu_timelapse.Telemetry.{Decoder}
use bambu_timelapse.Session.Store.{Store}
use bambu_timelapse.Service.{Options, second}
use bambu_timelapse.Service.Finalize.{Settings}
use bambu_timelapse.Service.Events.{Event, connected, message, run}
use bambu_timelapse.Service.Health.{health_of}
use bambu_timelapse.Service.Health.Verdict.{health_of-run}
use bambu_timelapse.Service.Startup.{
  Setup, resolve_font, upload_labels, new_gauges, new_service, on_connect, subscribed,
}

abbrev decoder : Decoder ℤ
decoder = record { message = λ payload. none; section = λ raw. none }

abbrev options : Options
options = record { min_free = 0; intro = 0 }

abbrev settings : Settings
settings = record {
  has_api = true;
  has_crop = false;
  min_frames = pos 2;
  once = false;
  overlay = false;
  has_font = false;
}

abbrev setup : Setup
setup = record { overlay = true; overlay_font = []; failed_ttl = second; has_api = true }

abbrev empty : Store ℤ
empty = record { jobs = []; failed = [] }

abbrev events : List Event
events =
    connected
    ∷ message (record { now = 9 * second; made = true; created = true; saved = true; free = none })
        true []
    ∷ []

bundled :
    resolve_font (text "/no/such.ttf") false (some (text "/staging/overlay-font.ttf"))
    ≡ text "/staging/overlay-font.ttf"
unfolding resolve_font
bundled = refl

-- The counter of local deliveries is not among the series made at the start.
local_is_late : text_mem (text "local") upload_labels ≡ false
unfolding text_mem text_eq
local_is_late = refl

no_push : on_connect (text "01S") false ≡ subscribed (text "device/01S/report") ∷ []
unfolding on_connect
no_push = refl

health_of-run_example :
    let t = run decoder options settings events (new_service empty) in
    (((health_of (400 * second) t).status ≡ 200) ⊎ ((health_of (400 * second) t).status ≡ 503))
    × (((health_of (400 * second) t).status ≡ 200)
        ↔ ((true ≡ true) × ((◌≡◌ {A = ℕ} 9 0) ⊎ (400 * second < 9 * 1000000000 + 300000000000))))
    × (t.gauges.mqtt_up ≡ true)
unfolding new_service new_gauges
health_of-run_example =
    health_of-run decoder options settings events (new_service empty) (400 * second) refl
