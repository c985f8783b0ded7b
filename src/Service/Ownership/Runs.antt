-- ===== src/Service/Ownership/Runs.antt =====
-- internal/service/service.go: every event keeps each session with one owner.
use bambu_timelapse.Prelude.{
  ℕ, ◌+◌, ◌≡◌, refl, Bool, true, false, ◌&&◌, not, Option, none, some, List, [], ◌∷◌, arith,
  Bool-cases, inl, inr,
}
use bambu_timelapse.Go.Text.{Text, is_empty, text_eq}
use bambu_timelapse.Go.Float.{Float}
use bambu_timelapse.Telemetry.{Decoder, merge, task_id, gcode_state}
use bambu_timelapse.Session.{Session}
use bambu_timelapse.Session.Store.{dir_at, JobDir, list}
use bambu_timelapse.Service.{Service, Options, Ending, Grab, World}
use bambu_timelapse.Service.Lifecycle.{start_finalize}
use bambu_timelapse.Service.Reconcile.{is_live, settle, settle_all, reconcile, reconcile_once}
use bambu_timelapse.Service.Finalize.{Settings, Host}
use bambu_timelapse.Service.Events.{
  GrabEnd, grabbed, refused, cancelled, Event, message, grab_end, fetch_end, finalize_end,
  connected, disconnected, on_message, heard, observed, without, grab_ends, grab_of, grab_result,
  grab_written, fetch_ends, preview_of, find_ending, finalized, finalize_ends, connection, step,
  run,
}
use bambu_timelapse.Service.Ownership.{
  IsOwned, Free, Once-mono, GrabExists-mono, fresh, Once-finish, Free-finish,
}
use bambu_timelapse.Service.Ownership.Reports.{handle-IsOwned}

-- A new session is nobody's, so it can be finalised beside the current one.
Free-other :
    (o : Option ℕ) (n : ℕ) (e : Ending) (es : List Ending)
    → e.who ≡ n
    → Free o n es
    → Free o (n + 1) (e ∷ es)
Free-other none n e es at h = tt
Free-other (some q) n e es at h = ground arith

module _ {A : Type 0} ⦃f : Float A⦄ where
  settle-IsOwned :
      (is_running : Bool) (live : Text) (sess : Session A) (s : Service A)
      → IsOwned s
      → IsOwned (settle is_running live sess s)
  unfolding settle start_finalize
  settle-IsOwned is_running live sess s h =
      elim (Bool-cases (is_running && text_eq sess.task_id live)) [
        | inl mine ↦ rw mine (record {
          free = (omega arith, fresh s.next s.next s.endings h.once (omega arith));
          grabbing = GrabExists-mono s.grab s.next (s.next + 1) (omega arith) h.grabbing;
          once = Once-mono s.next (s.next + 1) s.endings (omega arith) h.once;
        })
        | inr old ↦ rw old (record {
          free = Free-other s.current s.next _ s.endings refl h.free;
          grabbing = GrabExists-mono s.grab s.next (s.next + 1) (omega arith) h.grabbing;
          once = (
            omega arith,
            fresh s.next s.next s.endings h.once (omega arith),
            Once-mono s.next (s.next + 1) s.endings (omega arith) h.once,
          );
        })
      ]

  settle_all-IsOwned :
      (is_running : Bool) (live : Text) (found : List (Session A)) (s : Service A)
      → IsOwned s
      → IsOwned (settle_all is_running live found s)
  unfolding settle_all
  settle_all-IsOwned is_running live [] s h = h
  settle_all-IsOwned is_running live (sess ∷ rest) s h =
      settle_all-IsOwned is_running live rest (settle is_running live sess s)
        (settle-IsOwned is_running live sess s h)

  reconcile-IsOwned : (listed : Bool) (s : Service A) → IsOwned s → IsOwned (reconcile listed s)
  unfolding reconcile
  reconcile-IsOwned true s h =
      settle_all-IsOwned (is_live (gcode_state s.view)) (task_id s.view) (list s.store) s h
  reconcile-IsOwned false s h = h

  reconcile_once-IsOwned :
      (listed : Bool) (s : Service A) → IsOwned s → IsOwned (reconcile_once listed s)
  unfolding reconcile_once
  reconcile_once-IsOwned listed s h =
      elim (Bool-cases (not s.reconciled && not (is_empty (gcode_state s.view)))) [
        | inl first ↦ rw first (
            reconcile-IsOwned listed (record s { reconciled = true })
              (record { free = h.free; grabbing = h.grabbing; once = h.once }))
        | inr later ↦ rw later h
      ]

  message-IsOwned :
      (d : Decoder A) (cfg : Options) (w : World) (listed : Bool) (payload : Text) (s : Service A)
      → IsOwned s
      → IsOwned (on_message d cfg w listed payload s)
  unfolding on_message
  message-IsOwned d cfg w listed payload s h = elim (Bool-cases (merge d s.view payload).1) [
    | inl report ↦ rw report (
        handle-IsOwned cfg w
          (reconcile_once listed (observed (heard w (merge d s.view payload).0 s)))
          (reconcile_once-IsOwned listed (observed (heard w (merge d s.view payload).0 s))
            (record { free = h.free; grabbing = h.grabbing; once = h.once })))
    | inr other ↦ rw other (record { free = h.free; grabbing = h.grabbing; once = h.once })
  ]

module _ {A : Type 0} where
  grab_result-IsOwned :
      (e : GrabEnd) (saved : Bool) (g : Grab) (s : Service A)
      → IsOwned s
      → IsOwned (grab_result e saved g s)
  grab_result-IsOwned cancelled saved g s h = record { free = h.free; grabbing = tt; once = h.once }
  grab_result-IsOwned refused saved g s h = record { free = h.free; grabbing = tt; once = h.once }
  grab_result-IsOwned (grabbed dest) saved g s h = written (dir_at dest s.store)
    where
      written : (o : Option (JobDir A)) → IsOwned (grab_written saved g dest o s)
      written none = record { free = h.free; grabbing = tt; once = h.once }
      written (some d) = record { free = h.free; grabbing = tt; once = h.once }

  grab_of-IsOwned :
      (o : Option Grab) (e : GrabEnd) (saved : Bool) (s : Service A)
      → IsOwned s
      → IsOwned (grab_of o e saved s)
  grab_of-IsOwned none e saved s h = h
  grab_of-IsOwned (some g) e saved s h = grab_result-IsOwned e saved g s h

  preview_of-IsOwned :
      (p : ℕ) (o : Option ℕ) (s : Service A) → IsOwned s → IsOwned (preview_of p o s)
  preview_of-IsOwned p none s h = h
  preview_of-IsOwned p (some n) s h = record { free = h.free; grabbing = h.grabbing; once = h.once }

  finalized-IsOwned :
      (cfg : Settings) (h : Host) (o : Option Ending) (s : Service A)
      → IsOwned s
      → IsOwned (finalized cfg h o s)
  finalized-IsOwned cfg h none s own = own
  finalized-IsOwned cfg h (some e) s own = record {
    free = Free-finish s.current s.next e.who s.endings own.free;
    grabbing = own.grabbing;
    once = Once-finish s.next e.who s.endings own.once;
  }

module _ {A : Type 0} ⦃f : Float A⦄ (d : Decoder A) (cfg : Options) (settings : Settings) where
  step-IsOwned : (e : Event) (s : Service A) → IsOwned s → IsOwned (step d cfg settings e s)
  unfolding step grab_ends fetch_ends finalize_ends connection
  step-IsOwned (message w listed payload) s h = message-IsOwned d cfg w listed payload s h
  step-IsOwned (grab_end e saved) s h = grab_of-IsOwned s.grab e saved s h
  step-IsOwned (fetch_end p image) s h =
      preview_of-IsOwned p image (record s { fetching = without p s.fetching })
        (record { free = h.free; grabbing = h.grabbing; once = h.once })
  step-IsOwned (finalize_end host p) s h =
      finalized-IsOwned settings host (find_ending p s.endings) s h
  step-IsOwned connected s h = record { free = h.free; grabbing = h.grabbing; once = h.once }
  step-IsOwned disconnected s h = record { free = h.free; grabbing = h.grabbing; once = h.once }

  -- Any order of reports, grabs, fetches, finalisations and reconnections keeps the ownership of
  -- sessions: if, at the start, the current session exists and was never handed to a finalisation,
  -- the grab in flight writes to a session that exists, and no session is finalised twice, then so
  -- it is at the end.
  pub run-IsOwned :
      (es : List Event) (s : Service A) → IsOwned s → IsOwned (run d cfg settings es s)
  unfolding run
  run-IsOwned [] s h = h
  run-IsOwned (e ∷ es) s h = run-IsOwned es (step d cfg settings e s) (step-IsOwned e s h)
