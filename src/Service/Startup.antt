-- ===== src/Service/Startup.antt =====
-- internal/service/service.go, `New`, `resolveFont`, `Run` up to its wait, and `onConnect`, with
-- `NewMetrics` of internal/service/metrics.go: how the daemon starts. The MQTT client is a
-- parameter: which of its calls fail.
mod Tests
use bambu_timelapse.Prelude.{
  ℕ, zero, pos, Bool, false, ◌&&◌, not, Option, none, some, List, [], ◌∷◌, ◌++◌, if◌then◌else◌,
}
use bambu_timelapse.Go.Text.{Text, text, is_empty}
use bambu_timelapse.Go.Float.{Float}
use bambu_timelapse.Telemetry.{new_state}
use bambu_timelapse.Session.Store.{Store, sweep_failed, new_session}
use bambu_timelapse.Service.{Service}
use bambu_timelapse.Service.Metrics.{Gauges, Counters, known_states}

abbrev or_no_font : Option Text → Text
or_no_font none = []
or_no_font (some path) = path

-- `resolveFont`: `readable` is whether os.Stat finds the configured font, `bundled` the path that
-- `BundledFont` gives.
unfoldable pub resolve_font : Text → Bool → Option Text → Text
resolve_font configured readable bundled =
    if not (is_empty configured) && readable then configured else or_no_font bundled

-- What `New` and `Run` read of the configuration.
pub record Setup : Type 0 where
  pub overlay : Bool
  pub overlay_font : Text
  pub failed_ttl : ℕ
  pub has_api : Bool

-- The labels of the upload counter that exist from the start.
abbrev pub upload_labels : List Text
upload_labels = text "ok" ∷ text "failed" ∷ text "skipped" ∷ []

abbrev all_down : List Text → List (Text × Bool)
all_down [] = []
all_down (st ∷ sts) = (st, false) ∷ all_down sts

abbrev pub new_counters : Counters
new_counters = record {
  frames_captured = 0;
  capture_failures = 0;
  uploads_ok = 0;
  uploads_failed = 0;
  uploads_skipped = 0;
  uploads_local = 0;
}

-- The calls of the MQTT client in `onConnect`.
pub data Sent : Type 0 where
  subscribed : Text → Sent
  published : Text → Text → Sent

abbrev pub report_topic : Text → Text
report_topic serial = text "device/" ++ (serial ++ text "/report")

abbrev pub request_topic : Text → Text
request_topic serial = text "device/" ++ (serial ++ text "/request")

-- `onConnect`, of which `connection` sets the flag and the gauge: a subscription that fails is the
-- end of it.
unfoldable pub on_connect : Text → Bool → List Sent
on_connect serial taken =
    subscribed (report_topic serial)
    ∷ (if taken
        then published (request_topic serial)
            (text "{\"pushing\":{\"sequence_id\":\"0\",\"command\":\"pushall\"}}")
          ∷ []
        else [])

module _ {A : Type 0} ⦃f : Float A⦄ where
  -- `NewMetrics`
  unfoldable pub new_gauges : Gauges A
  new_gauges = record {
    mqtt_up = false;
    layer = pos 0;
    total_layers = pos 0;
    progress = pos 0;
    nozzle = f.zero;
    bed = f.zero;
    session_frames = 0;
    last_upload = 0;
    print_state = all_down known_states;
  }

  -- `New`, on a staging area. No session exists, so that no number stands for one.
  unfoldable pub new_service : Store A → Service A
  unfolding new_gauges new_state
  new_service st = record {
    view = new_state;
    store = st;
    sessions = λ p. new_session 0 [] [] (pos 0) (pos 0);
    next = 0;
    current = none;
    reconciled = false;
    idle_state = [];
    idle_logged = 0;
    notes = [];
    grab = none;
    fetching = [];
    endings = [];
    last_report = 0;
    mqtt_up = false;
    stopped = false;
    gauges = new_gauges;
    counters = new_counters;
  }

-- What `Run` has come to when it waits: the error that it returns, or the daemon, whether it tries
-- parked uploads again beside it, and how many failed jobs it swept.
pub data Boot (A : Type 0) : Type 0 where
  not_started : Text → Boot A
  started : Service A → Bool → ℕ → Boot A

module _ {A : Type 0} where
  abbrev pub swept : Store A × ℕ → Bool → Service A → Boot A
  swept (st, n) has_api s = started (record s { store = st }) has_api n

  abbrev pub booted : Option Text → Setup → ℕ → (Text → Bool) → Service A → Boot A
  booted (some why) cfg now removable s = not_started why
  booted none cfg now removable s =
      swept (sweep_failed now cfg.failed_ttl removable s.store) cfg.has_api s

  -- The start of `Run`; `verdict` is what `preflight` returned.
  unfoldable pub run_start : Option Text → Setup → ℕ → (Text → Bool) → Service A → Boot A
  run_start verdict cfg now removable s = booted verdict cfg now removable s
