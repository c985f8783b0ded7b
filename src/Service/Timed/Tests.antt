-- ===== src/Service/Timed/Tests.antt =====
-- A timed run on small sequences of events.
use bambu_timelapse.Prelude.{ℤ, pos, true, false, none, List, [], ◌∷◌, ◌≡◌, refl, arith, inr}
use bambu_timelapse.Go.Float.{whole}
use bambu_timelapse.Session.{Place, staged, parked}
use bambu_timelapse.Session.Store.{Store, dir_at}
use bambu_timelapse.Session.Dirs.{get}
use bambu_timelapse.Uploader.{posted}
use bambu_timelapse.Service.Metrics.{Counters}
use bambu_timelapse.Service.Finalize.{Settings, Host, finalize}
use bambu_timelapse.Service.Timed.{Turn, ticked, Timed, ended, wants_more, run_timed}
use bambu_timelapse.Service.Timed.Ends.{Ended}
use bambu_timelapse.Service.Timed.Whole.{run_timed-Ended}

abbrev cfg : Settings
cfg = record {
  has_api = false;
  has_crop = false;
  min_frames = pos 2;
  once = false;
  overlay = false;
  has_font = false;
}

abbrev host : Host
host = record {
  grabbed = true;
  cropped = true;
  encoded = true;
  encoded_plain = true;
  output_made = true;
  moved = true;
  answer = λ n. posted [];
  now = 0;
  stopping = false;
  renamed = true;
}

abbrev counters : Counters
counters = record {
  frames_captured = 0;
  capture_failures = 0;
  uploads_ok = 0;
  uploads_failed = 0;
  uploads_skipped = 0;
  uploads_local = 0;
}

abbrev empty : Store ℤ
empty = record { jobs = []; failed = [] }

abbrev turns : List Turn
turns = ticked true true ∷ ticked false true ∷ ticked true false ∷ []

no_limit : wants_more (pos 0) 1000 ≡ true
no_limit = refl

nothing_there : (p : Place) → dir_at p empty ≡ none
unfolding get
nothing_there (staged name) = refl
nothing_there (parked name) = refl

run_timed-Ended_example :
    (t : Timed ℤ) × (run_timed none cfg host (pos 2) turns true true 5 counters empty
      ≡ ended (finalize cfg host t.counters t.session t.store))
    × Ended 2 turns (t, true)
run_timed-Ended_example =
    run_timed-Ended cfg host 2 turns 5 counters empty (omega arith) (nothing_there _)
      (inr (omega arith))
