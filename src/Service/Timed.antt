-- ===== src/Service/Timed.antt =====
-- internal/service/service.go, `RunTimed`: the capture on a clock. What happens at each turn of the
-- select is an event: the context is done, or the ticker fires and a grab is made.
pub mod Ends
pub mod Whole
mod Tests
use bambu_timelapse.Prelude.{
  ℕ, ◌+◌, ◌/◌, ℤ, pos, Bool, true, false, ◌||◌, not, Option, none, some, List, [], ◌∷◌, ◌++◌, ltb_ℤ,
  if◌then◌else◌,
}
use bambu_timelapse.Go.Text.{Text, text}
use bambu_timelapse.Go.Number.{digits}
use bambu_timelapse.Go.Float.{Float}
use bambu_timelapse.Session.{Session}
use bambu_timelapse.Session.Store.{
  Store, JobDir, Created, created, cannot_create, create, save, dir_at, put_dir,
}
use bambu_timelapse.Service.{second}
use bambu_timelapse.Service.Metrics.{Counters}
use bambu_timelapse.Service.Events.{add_still}
use bambu_timelapse.Service.Finalize.{Result, Settings, Host, finalize}

-- `ticked`: whether a frame came back, and whether the state file could be saved after it.
pub data Turn : Type 0 where
  done : Turn
  ticked : Bool → Bool → Turn

pub record Timed (A : Type 0) : Type 0 where
  pub session : Session A
  pub store : Store A
  pub counters : Counters
  -- the gauge of the frames held, 0 before the first
  pub held : ℕ

-- The condition of the loop, for a limit that is 0 or less where there is none.
abbrev pub wants_more : ℤ → ℕ → Bool
wants_more max_frames frames = not (ltb_ℤ (pos 0) max_frames) || ltb_ℤ (pos frames) max_frames

module _ {A : Type 0} where
  abbrev pub begun : Counters → Session A → Store A → Timed A
  begun c sess st = record { session = sess; store = st; counters = c; held = 0 }

  abbrev pub refused : Timed A → Timed A
  refused t = record t {
    counters = record t.counters { capture_failures = t.counters.capture_failures + 1 };
  }

  -- The frame goes to the path of the frame after those that the session counts.
  abbrev pub kept : Bool → JobDir A → Timed A → Timed A
  kept saved d t =
      let n = t.session.frames + 1 in
      let sess = record t.session { frames = n } in
      record {
        session = sess;
        store = (save saved sess (put_dir sess.dir (add_still n d) t.store)).0;
        counters = record t.counters { frames_captured = t.counters.frames_captured + 1 };
        held = n;
      }

  -- With the directory gone, ffmpeg writes no frame.
  abbrev pub framed : Bool → Option (JobDir A) → Timed A → Timed A
  framed saved none t = refused t
  framed saved (some d) t = kept saved d t

  abbrev pub tick : Bool → Bool → Timed A → Timed A
  tick came saved t = if came then framed saved (dir_at t.session.dir t.store) t else refused t

  -- One turn of the loop, and whether it goes on.
  abbrev pub turn : Turn → Timed A → Timed A × Bool
  turn done t = (t, false)
  turn (ticked came saved) t = (tick came saved t, true)

  -- The loop, and whether it has been left; it has not while it waits for the next event.
  unfoldable pub capture_loop : ℤ → List Turn → Timed A → Timed A × Bool
  capture_loop max_frames [] t = (t, not (wants_more max_frames t.session.frames))
  capture_loop max_frames (e ∷ es) t =
      let next = capture_loop max_frames es (turn e t).0 in
      if not (wants_more max_frames t.session.frames)
      then (t, true)
      else if (turn e t).1
      then next
      else ((turn e t).0, true)

pub data TimedEnd (A : Type 0) : Type 0 where
  refused_start : Text → TimedEnd A
  no_staging : Store A → TimedEnd A
  waiting : Timed A → TimedEnd A
  ended : Result A → TimedEnd A

abbrev pub timed_task : ℕ → Text
timed_task now = text "timed-" ++ digits (now / second)

module _ {A : Type 0} ⦃f : Float A⦄ where
  abbrev pub left : Settings → Host → Timed A × Bool → TimedEnd A
  left cfg h (t, false) = waiting t
  left cfg h (t, true) = ended (finalize cfg h t.counters t.session t.store)

  abbrev pub started : Settings → Host → ℤ → List Turn → Counters → Store A × Created A → TimedEnd A
  started cfg h max_frames es c (st, cannot_create) = no_staging st
  started cfg h max_frames es c (st, created sess resumed) =
      left cfg h (capture_loop max_frames es (begun c sess st))

  abbrev checked :
      Option Text
      → Settings
      → Host
      → ℤ
      → List Turn
      → Bool
      → Bool
      → ℕ
      → Counters
      → Store A
      → TimedEnd A
  checked (some why) cfg h max_frames es made written now c st = refused_start why
  checked none cfg h max_frames es made written now c st =
      started cfg h max_frames es c
        (create made written now (timed_task now) (text "timed capture") (pos 0) (pos 0) st)

  -- `RunTimed`; `verdict` is what `preflight` returned.
  unfoldable pub run_timed :
      Option Text
      → Settings
      → Host
      → ℤ
      → List Turn
      → Bool
      → Bool
      → ℕ
      → Counters
      → Store A
      → TimedEnd A
  unfolding capture_loop
  run_timed verdict cfg h max_frames es made written now c st =
      checked verdict cfg h max_frames es made written now c st
