-- ===== src/Service/Events.antt =====
-- internal/service/service.go: the events that move the daemon, and the runs that they make up.
use bambu_timelapse.Prelude.{
  ℕ, ◌+◌, ◌/◌, Bool, true, false, ◌&&◌, ◌||◌, not, Option, none, some, List, [], ◌∷◌, ◌++◌, ◌==◌,
  if◌then◌else◌,
}
use bambu_timelapse.Go.Text.{Text}
use bambu_timelapse.Go.Float.{Float}
use bambu_timelapse.Telemetry.{State, Decoder, merge}
use bambu_timelapse.Session.{Session, Place}
use bambu_timelapse.Session.Store.{Store, JobDir, save, dir_at, put_dir}
use bambu_timelapse.Service.Lifecycle.{handle}
use bambu_timelapse.Service.Reconcile.{reconcile_once}
use bambu_timelapse.Service.{Service, Options, Ending, Grab, World, store_at, second}
use bambu_timelapse.Service.Finalize.{Outcome, uploaded, Settings, Host, finalize}
use bambu_timelapse.Service.Metrics.{Gauges, observe_gauges, Gauges}

module _ {A : Type 0} ⦃f : Float A⦄ where
  -- The report is in the view, and on the gauges.
  abbrev pub heard : World → State A → Service A → Service A
  heard w v s = record s { last_report = w.now / second; view = v }

  abbrev pub observed : Service A → Service A
  observed s = record s { gauges = observe_gauges s.view s.gauges }

  -- `onMessage`
  unfoldable pub on_message : Decoder A → Options → World → Bool → Text → Service A → Service A
  on_message d cfg w listed payload s =
      let (v, ok) = merge d s.view payload in
      if ok then handle cfg w (reconcile_once listed (observed (heard w v s))) else heard w v s

-- How the capture goroutine ends: with a frame, at the path that was fixed before the grab and that
-- is in this directory, with a failed grab, or by a shutdown before it.
pub data GrabEnd : Type 0 where
  grabbed : Place → GrabEnd
  refused cancelled : GrabEnd

abbrev pub without : ℕ → List ℕ → List ℕ
without p [] = []
without p (q ∷ qs) = let rest = without p qs in if q == p then rest else q ∷ rest

abbrev pub find_ending : ℕ → List Ending → Option Ending
find_ending p [] = none
find_ending p (e ∷ es) = if e.who == p && not e.finished then some e else find_ending p es

unfoldable pub finish : ℕ → List Ending → List Ending
finish p [] = []
finish p (e ∷ es) =
    let rest = finish p es in if e.who == p then record e { finished = true } ∷ rest else e ∷ rest

module _ {A : Type 0} where
  abbrev pub add_still : ℕ → JobDir A → JobDir A
  add_still n d = record d { stills = n ∷ d.stills }

  abbrev pub grab_failed : Service A → Service A
  grab_failed s = record s {
    grab = none;
    counters = record s.counters { capture_failures = s.counters.capture_failures + 1 };
  }

  -- A grab that has somewhere to write to. The session is saved where it is by now.
  abbrev pub grab_kept : Bool → Grab → Place → Session A → JobDir A → Service A → Service A
  grab_kept saved g dest sess d s =
      let n = sess.frames + 1 in
      let sess' = record sess { frames = n; layers = sess.layers ++ g.layer ∷ [] } in
      record s {
        grab = none;
        sessions = store_at g.target sess' s.sessions;
        store = (save saved sess' (put_dir dest (add_still n d) s.store)).0;
        counters = record s.counters { frames_captured = s.counters.frames_captured + 1 };
        gauges = record s.gauges { session_frames = n };
      }

  abbrev pub grab_written : Bool → Grab → Place → Option (JobDir A) → Service A → Service A
  grab_written saved g dest none s = grab_failed s
  grab_written saved g dest (some d) s = grab_kept saved g dest (s.sessions g.target) d s

  abbrev pub grab_result : GrabEnd → Bool → Grab → Service A → Service A
  grab_result cancelled saved g s = record s { grab = none }
  grab_result refused saved g s = grab_failed s
  grab_result (grabbed dest) saved g s = grab_written saved g dest (dir_at dest s.store) s

  abbrev pub grab_of : Option Grab → GrabEnd → Bool → Service A → Service A
  grab_of none e saved s = s
  grab_of (some g) e saved s = grab_result e saved g s

  -- The end of the goroutine of `capture`. With the directory gone, ffmpeg writes no frame.
  unfoldable pub grab_ends : GrabEnd → Bool → Service A → Service A
  grab_ends e saved s = grab_of s.grab e saved s

  abbrev pub preview_kept : ℕ → Place → Option (JobDir A) → Store A → Store A
  preview_kept size dir none st = st
  preview_kept size dir (some d) st = put_dir dir (record d { preview = size }) st

  abbrev pub preview_of : ℕ → Option ℕ → Service A → Service A
  preview_of p none s = s
  preview_of p (some size) s = record s {
    store = preview_kept size (s.sessions p).dir (dir_at (s.sessions p).dir s.store) s.store;
  }

  -- The end of `fetchPreview`: the size of the image, if one was fetched and could be written.
  unfoldable pub fetch_ends : ℕ → Option ℕ → Service A → Service A
  fetch_ends p image s = preview_of p image (record s { fetching = without p s.fetching })

  -- `LastUpload.SetToCurrentTime`, once the video is posted
  abbrev pub uploaded_at : Outcome → ℕ → Gauges A → Gauges A
  uploaded_at uploaded now g = record g { last_upload = now }
  uploaded_at _ now g = g

  abbrev pub finalized : Settings → Host → Option Ending → Service A → Service A
  finalized cfg h none s = s
  finalized cfg h (some e) s =
      let r = finalize cfg h s.counters (s.sessions e.who) s.store in
      record s {
        store = r.store;
        sessions = store_at e.who r.session s.sessions;
        counters = r.counters;
        gauges = uploaded_at r.outcome (h.now / second) s.gauges;
        endings = finish e.who s.endings;
        stopped = s.stopped || r.stops;
      }

  -- The end of the goroutine of `startFinalize` for the session `p`, if there is one that runs.
  unfoldable pub finalize_ends : Settings → Host → ℕ → Service A → Service A
  unfolding finish
  finalize_ends cfg h p s = finalized cfg h (find_ending p s.endings) s

  -- `onConnect` and `OnConnectionLost`
  unfoldable pub connection : Bool → Service A → Service A
  connection up s = record s { mqtt_up = up; gauges = record s.gauges { mqtt_up = up } }

pub data Event : Type 0 where
  message : World → Bool → Text → Event
  grab_end : GrabEnd → Bool → Event
  fetch_end : ℕ → Option ℕ → Event
  finalize_end : Host → ℕ → Event
  connected disconnected : Event

module _ {A : Type 0} ⦃f : Float A⦄ (d : Decoder A) (cfg : Options) (settings : Settings) where
  unfoldable pub step : Event → Service A → Service A
  step (message w listed payload) s = on_message d cfg w listed payload s
  step (grab_end e saved) s = grab_ends e saved s
  step (fetch_end p image) s = fetch_ends p image s
  step (finalize_end h p) s = finalize_ends settings h p s
  step connected s = connection true s
  step disconnected s = connection false s

  -- Any order of events.
  unfoldable pub run : List Event → Service A → Service A
  unfolding step
  run [] s = s
  run (e ∷ es) s = run es (step e s)
