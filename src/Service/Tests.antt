-- ===== src/Service/Tests.antt =====
-- internal/service/service.go: runs of the daemon on concrete reports.
use bambu_timelapse.Prelude.{
  ℕ, zero, suc, ◌*◌, ◌↔◌, ℤ, pos, ◌≡◌, inl, inr, refl, true, false, Option, none, some, List, [],
  ◌∷◌, ◌⊎◌, if◌then◌else◌,
}
use bambu_timelapse.Go.Text.{text_ne, Text, text, text_eq, text_mem, has_prefix}
use bambu_timelapse.Go.Utf8.{runes}
use bambu_timelapse.Go.Float.{whole}
use bambu_timelapse.Telemetry.{
  State, Decoder, task_id, gcode_state, layer, total_layers, job_name, nozzle, bed, string_field,
  int_field, float_field, first_id, merge, merge_section, announces_new_job, forget_previous_job,
  state_finish,
}
use bambu_timelapse.Telemetry.Json.{
  Members, end, member, str, num, lookup, insert, insert_all, delete, delete_all,
}
use bambu_timelapse.Session.{Session, staged}
use bambu_timelapse.Session.Temperature.{Temps, no_temps}
use bambu_timelapse.Session.Dirs.{get, put, remove}
use bambu_timelapse.Session.Store.{Store, list, list_entries}
use bambu_timelapse.Service.{Service, Options, World, second}
use bambu_timelapse.Service.Metrics.{Gauges, Counters}
use bambu_timelapse.Service.Lifecycle.{phase, handle}
use bambu_timelapse.Service.Lifecycle.Transitions.{handle_same_job, handle_next_job}
use bambu_timelapse.Service.Lifecycle.Over.{handle_all, handle_all-ended}
use bambu_timelapse.Service.Reconcile.{reconcile}
use bambu_timelapse.Service.Reconcile.Settled.{
  IsAdopted, AreStored, ended_from, reconcile_ends_all, reconcile_adopts,
}
use bambu_timelapse.Service.Finalize.{Settings, Host, finalize, upload, upload_from, encode}
use bambu_timelapse.Service.Finalize.Attempts.{PostedAt, upload_sent_iff}
use bambu_timelapse.Service.Finalize.Fate.{Ended, finalize-Ended}
use bambu_timelapse.Service.Events.{
  Event, message, grab_end, grabbed, finalize_end, connected, disconnected, run, step,
}
use bambu_timelapse.Service.Ownership.{IsOwned}
use bambu_timelapse.Service.Ownership.Runs.{run-IsOwned}
use bambu_timelapse.Service.Alignment.{IsAligned}
use bambu_timelapse.Service.Alignment.Events.{run-IsAligned}
use bambu_timelapse.Uploader.{PostResult, posted, failed}
use bambu_timelapse.Service.Events.{on_message, grab_ends, finalize_ends, finish, connection}
use bambu_timelapse.Service.Lifecycle.{
  ensure_begun, leave_other, begin, capture, changed_layer, end_current, note_idle, record_report,
  start_finalize, track,
}
use bambu_timelapse.Service.Reconcile.{reconcile_once, settle, settle_all}
use bambu_timelapse.Service.Metrics.{observe_gauges, set_state, states_from}
use bambu_timelapse.Service.Finalize.{deliver_remotely, deliver_locally}
use bambu_timelapse.Session.Name.{sanitize}
use bambu_timelapse.Session.Store.{create, discard, job_dir, load, mkdir, new_session, save, park}
use bambu_timelapse.Session.Temperature.{add_sample}
use bambu_timelapse.Telemetry.Filament.{
  add_entry, add_tray, add_trays, add_unit, add_units, filament, filaments,
}
use bambu_timelapse.Telemetry.{progress}
use bambu_timelapse.Go.Text.{join}
use bambu_timelapse.Go.Number.{atoi, itoa}

abbrev view_of : Text → Text → ℕ → State ℤ
view_of st task l = record {
  fields =
      member (text "gcode_state") (str st)
        (member (text "task_id") (str task) (member (text "layer_num") (num (pos l)) end));
}

abbrev cold : Temps ℤ
cold = record { sum = pos 0; count = 0; peak = pos 0 }

abbrev session_of : Text → ℕ → Session ℤ
session_of task frames = record {
  task_id = task;
  job_name = text "Benchy";
  started_at = 5;
  frames = frames;
  last_layer = pos 0;
  total_layers = pos 240;
  layers = [];
  nozzle = cold;
  bed = cold;
  filament = [];
  pauses = 0;
  partial = false;
  dir = staged (text "job-7001");
}

abbrev gauges : Gauges ℤ
gauges = record {
  mqtt_up = true;
  layer = pos 0;
  total_layers = pos 0;
  progress = pos 0;
  nozzle = pos 0;
  bed = pos 0;
  session_frames = 0;
  last_upload = 0;
  print_state = [];
}

abbrev counters : Counters
counters = record {
  frames_captured = 0;
  capture_failures = 0;
  uploads_ok = 0;
  uploads_failed = 0;
  uploads_skipped = 0;
  uploads_local = 0;
}

abbrev empty_store : Store ℤ
empty_store = record { jobs = []; failed = [] }

-- A daemon with one session, of the job 7001.
abbrev service_of : State ℤ → Option ℕ → Store ℤ → Service ℤ
service_of view current store = record {
  view = view;
  store = store;
  sessions = λ p. session_of (text "7001") 0;
  next = 1;
  current = current;
  reconciled = true;
  idle_state = [];
  idle_logged = 0;
  notes = [];
  grab = none;
  fetching = [];
  endings = [];
  last_report = 0;
  mqtt_up = true;
  stopped = false;
  gauges = gauges;
  counters = counters;
}

abbrev options : Options
options = record { min_free = 1000; intro = second }

abbrev world : World
world = record { now = 7; made = true; created = true; saved = true; free = some 5000 }

abbrev settings : Settings
settings = record {
  has_api = true;
  has_crop = false;
  min_frames = pos 10;
  once = false;
  overlay = false;
  has_font = false;
}

abbrev retry : PostResult
retry = failed (record { status = 503; body = []; retryable = true })

abbrev answers : ℕ → PostResult
answers zero = retry
answers (suc zero) = retry
answers (suc (suc k)) = posted (pos 4 ∷ [])

-- A media API that is down for one attempt.
abbrev host : Host
host = record {
  grabbed = true;
  cropped = true;
  encoded = true;
  encoded_plain = true;
  output_made = true;
  moved = true;
  answer = answers;
  now = 9 * second;
  stopping = false;
  renamed = true;
}

abbrev one_job : Store ℤ
one_job = record {
  jobs =
      (
        text "job-7001",
        record {
          state = some (session_of (text "7001") 40);
          stills = [];
          preview = 0;
          mod_time = 100;
        },
      )
      ∷ [];
  failed = [];
}

abbrev in_print : Service ℤ
in_print = service_of (view_of (text "RUNNING") (text "7001") 3) (some 0) empty_store

handle_same_job_example :
    ((handle options world in_print).current ≡ some 0)
    × ((handle options world in_print).endings ≡ [])
    × ((handle options world in_print).next ≡ 1)
unfolding task_id first_id string_field lookup text_eq phase gcode_state
handle_same_job_example = handle_same_job options world in_print 0 refl refl (inl refl)

abbrev next_print : Service ℤ
next_print = service_of (view_of (text "RUNNING") (text "7002") 1) (some 0) empty_store

handle_next_job_example :
    ((handle options world next_print).endings
      ≡ record { who = 0; end_state = state_finish; skip_delay = true; finished = false } ∷ [])
    × (((handle options world next_print).current ≡ none)
        ⊎ ((handle options world next_print).current ≡ some 1))
unfolding task_id first_id string_field lookup text_eq phase gcode_state
handle_next_job_example =
    handle_next_job options world next_print 0 refl refl (text_ne (text "7001") (text "7002") refl)
      (text_ne (text "7002") [] refl)

abbrev after_print : Service ℤ
after_print = service_of (view_of (text "FAILED") (text "7001") 3) (some 0) empty_store

abbrev over_views : List (World × State ℤ)
over_views =
    (world, view_of (text "FAILED") (text "7001") 3)
    ∷ (world, view_of (text "IDLE") (text "7001") 3)
    ∷ []

handle_all-ended_example :
    let t =
      handle_all options ((world, view_of (text "FINISH") (text "7001") 3) ∷ over_views) in_print in
    (t.current ≡ none)
    × (t.endings
        ≡ record { who = 0; end_state = text "FINISH"; skip_delay = false; finished = false } ∷ [])
    × (t.store ≡ empty_store)
    × (t.next ≡ 1)
unfolding string_field lookup text_eq gcode_state
handle_all-ended_example =
    handle_all-ended options world (view_of (text "FINISH") (text "7001") 3) over_views in_print 0
      refl (inl refl) (inr (inl refl), (inr (inr refl), tt))

-- The daemon has started during the print of job 7001.
abbrev restarted : Service ℤ
restarted = service_of (view_of (text "RUNNING") (text "7001") 41) none one_job

reconcile_adopts_example : IsAdopted (text "7001") (reconcile true restarted)
unfolding task_id first_id string_field lookup text_eq gcode_state list list_entries has_prefix
reconcile_adopts_example = reconcile_adopts restarted refl refl

-- It has started while the printer was idle.
abbrev started_idle : Service ℤ
started_idle = service_of (view_of (text "IDLE") (text "7001") 41) none one_job

reconcile_ends_all_example :
    ((reconcile true started_idle).current ≡ none)
    × ((reconcile true started_idle).endings ≡ ended_from 1 (list one_job) [])
    × AreStored (reconcile true started_idle).sessions 1 (list one_job)
unfolding task_id first_id string_field lookup text_eq gcode_state list list_entries has_prefix
reconcile_ends_all_example = reconcile_ends_all started_idle (refl, tt)

abbrev started_early : Service ℤ
started_early = service_of (view_of (text "RUNNING") [] 41) none one_job

finalize-Ended_example :
    Ended settings host
      (session_of (text "7001") 40)
      one_job
      (finalize settings host counters (session_of (text "7001") 40) one_job)
finalize-Ended_example = finalize-Ended settings host counters (session_of (text "7001") 40) one_job

upload_sent_iff_example : ((upload host).sent ≡ true) ↔ ((k : ℕ) × PostedAt 1 4 host k)
upload_sent_iff_example = upload_sent_iff host

second_attempt : upload host ≡ record { sent = true; attempts = 2; waited = 10 * second }
unfolding upload upload_from
second_attempt = refl

-- Payloads "run", "next" and "end" are reports of a print, of the one after it and of its end.
abbrev section_of : Text → Option (Members ℤ)
section_of raw =
    if text_eq raw (text "run")
    then some (view_of (text "RUNNING") (text "7001") 1).fields
    else if text_eq raw (text "next")
    then some (view_of (text "RUNNING") (text "7002") 1).fields
    else if text_eq raw (text "end")
    then some (view_of (text "FINISH") (text "7002") 9).fields
    else none

abbrev decoder : Decoder ℤ
decoder = record { message = λ payload. some (λ key. some payload); section = section_of }

abbrev fresh : Service ℤ
fresh = record (service_of (record { fields = end }) none empty_store) { next = 0 }

abbrev events : List Event
events =
    connected
    ∷ message world true (text "run")
    ∷ grab_end (grabbed (staged (text "job-7001"))) true
    ∷ message world true (text "next")
    ∷ finalize_end host 0
    ∷ message world true (text "end")
    ∷ disconnected
    ∷ finalize_end host 1
    ∷ []

run-IsOwned_example : IsOwned (run decoder options settings events fresh)
run-IsOwned_example =
    run-IsOwned decoder options settings events fresh
      (record { free = tt; grabbing = tt; once = tt })

run-IsAligned_example : IsAligned (run decoder options settings events fresh)
run-IsAligned_example =
    run-IsAligned decoder options settings events fresh
      (record { held = λ p. (refl, tt); on_disk = (tt, tt); grabbing = tt })

-- Both prints are too short to post.
two_prints :
    (run decoder options settings events fresh).counters
    ≡ record counters { frames_captured = 1; uploads_skipped = 2 }
unfolding run step on_message grab_ends finalize_ends finish connection handle phase ensure_begun
    leave_other begin capture changed_layer end_current note_idle record_report start_finalize track
    reconcile_once reconcile settle settle_all observe_gauges set_state states_from finalize encode
    upload upload_from deliver_remotely deliver_locally sanitize create discard job_dir list
    list_entries load mkdir new_session save park add_sample no_temps get put remove add_entry
    add_tray add_trays add_unit add_units filament filaments merge merge_section announces_new_job
    forget_previous_job task_id first_id string_field int_field float_field gcode_state layer
    total_layers job_name nozzle bed progress lookup insert insert_all delete delete_all text_eq
    has_prefix text_mem join runes whole atoi itoa
two_prints = refl
