-- ===== src/Service/Alignment/Events.antt =====
-- internal/service/service.go: one layer for each frame, through every run of events.
use bambu_timelapse.Prelude.{
  ℕ, ◌+◌, ◌≡◌, pos, Bool, true, false, ◌&&◌, not, Option, none, some, List, [], ◌∷◌, Bool-cases,
  inl, inr,
}
use bambu_timelapse.Prelude.{ltb_ℤ, ◌++◌}
use bambu_timelapse.Go.Text.{Text, is_empty, text_eq}
use bambu_timelapse.Go.Float.{Float}
use bambu_timelapse.Telemetry.{Decoder, merge, task_id, gcode_state}
use bambu_timelapse.Session.{Place, Session}
use bambu_timelapse.Session.Store.{Store, dir_at, JobDir, list}
use bambu_timelapse.Service.{Service, Options, Grab, World}
use bambu_timelapse.Service.Lifecycle.{start_finalize}
use bambu_timelapse.Service.Reconcile.{is_live, settle, settle_all, reconcile, reconcile_once}
use bambu_timelapse.Service.Finalize.{Settings}
use bambu_timelapse.Service.Events.{
  GrabEnd, grabbed, refused, cancelled, Event, message, grab_end, fetch_end, finalize_end,
  connected, disconnected, on_message, heard, observed, without, grab_ends, grab_of, grab_written,
  fetch_ends, preview_of, preview_kept, add_still, grab_kept, find_ending, finalize_ends,
  connection, step, run,
}
use bambu_timelapse.Session.{Place}
use bambu_timelapse.Session.Store.{put_dir}
use bambu_timelapse.Session.Store.Content.{
  OfDir, OfStore, OfList, OfDir-dir_at, OfStore-save, OfStore-put_dir,
}
use bambu_timelapse.Session.Store.Loaded.{OfList-list}
use bambu_timelapse.Service.Alignment.{
  HasLayers, GrabsLayer, IsAligned, HasLayers-moved, held_at, HasLayers-grabbed,
  finalized-IsAligned,
}
use bambu_timelapse.Service.Alignment.Runs.{handle-IsAligned}

module _ {A : Type 0} ⦃f : Float A⦄ where
  settle-IsAligned :
      (is_running : Bool) (live : Text) (sess : Session A) (s : Service A)
      → HasLayers sess
      → IsAligned s
      → IsAligned (settle is_running live sess s)
  unfolding settle start_finalize
  settle-IsAligned is_running live sess s new al =
      elim (Bool-cases (is_running && text_eq sess.task_id live)) [
        | inl mine ↦ rw mine (record {
          held = held_at s.next sess s.sessions new al.held;
          on_disk = al.on_disk;
          grabbing = al.grabbing;
        })
        | inr old ↦ rw old (record {
          held = held_at s.next sess s.sessions new al.held;
          on_disk = al.on_disk;
          grabbing = al.grabbing;
        })
      ]

  settle_all-IsAligned :
      (is_running : Bool) (live : Text) (found : List (Session A)) (s : Service A)
      → OfList HasLayers found
      → IsAligned s
      → IsAligned (settle_all is_running live found s)
  unfolding settle_all
  settle_all-IsAligned is_running live [] s new al = al
  settle_all-IsAligned is_running live (sess ∷ rest) s new al =
      settle_all-IsAligned is_running live rest (settle is_running live sess s) new.1
        (settle-IsAligned is_running live sess s new.0 al)

  reconcile-IsAligned :
      (listed : Bool) (s : Service A) → IsAligned s → IsAligned (reconcile listed s)
  unfolding reconcile
  reconcile-IsAligned true s al =
      settle_all-IsAligned (is_live (gcode_state s.view)) (task_id s.view) (list s.store) s
        (OfList-list HasLayers HasLayers-moved s.store al.on_disk) al
  reconcile-IsAligned false s al = al

  reconcile_once-IsAligned :
      (listed : Bool) (s : Service A) → IsAligned s → IsAligned (reconcile_once listed s)
  unfolding reconcile_once
  reconcile_once-IsAligned listed s al =
      elim (Bool-cases (not s.reconciled && not (is_empty (gcode_state s.view)))) [
        | inl first ↦ rw first (
            reconcile-IsAligned listed (record s { reconciled = true })
              (record { held = al.held; on_disk = al.on_disk; grabbing = al.grabbing }))
        | inr later ↦ rw later al
      ]

  message-IsAligned :
      (d : Decoder A) (cfg : Options) (w : World) (listed : Bool) (payload : Text) (s : Service A)
      → IsAligned s
      → IsAligned (on_message d cfg w listed payload s)
  unfolding on_message
  message-IsAligned d cfg w listed payload s al =
      let t = heard w (merge d s.view payload).0 s in
      elim (Bool-cases (merge d s.view payload).1) [
        | inl report ↦ rw report (
            handle-IsAligned cfg w (reconcile_once listed (observed t)) (
              reconcile_once-IsAligned listed (observed t)
                (record { held = al.held; on_disk = al.on_disk; grabbing = al.grabbing })))
        | inr other ↦
            rw other (record { held = al.held; on_disk = al.on_disk; grabbing = al.grabbing })
      ]

module _ {A : Type 0} where
  grab_kept-IsAligned :
      (saved : Bool) (g : Grab) (dest : Place) (d : JobDir A) (s : Service A)
      → ltb_ℤ (pos 0) g.layer ≡ true
      → OfDir HasLayers (some d)
      → IsAligned s
      → IsAligned (grab_kept saved g dest (s.sessions g.target) d s)
  grab_kept-IsAligned saved g dest d s new dir al =
      let old = s.sessions g.target in
      let sess = record old { frames = old.frames + 1; layers = old.layers ++ g.layer ∷ [] } in
      let kept = HasLayers-grabbed old g.layer (al.held g.target) new in
      record {
        held = held_at g.target sess s.sessions kept al.held;
        on_disk =
            OfStore-save HasLayers saved sess (put_dir dest (add_still (old.frames + 1) d) s.store)
              kept
              (OfStore-put_dir HasLayers dest (add_still (old.frames + 1) d) s.store dir
                al.on_disk);
        grabbing = tt;
      }

  grab_written-IsAligned :
      (saved : Bool) (g : Grab) (dest : Place) (o : Option (JobDir A)) (s : Service A)
      → ltb_ℤ (pos 0) g.layer ≡ true
      → OfDir HasLayers o
      → IsAligned s
      → IsAligned (grab_written saved g dest o s)
  grab_written-IsAligned saved g dest none s new dir al = record {
    held = al.held;
    on_disk = al.on_disk;
    grabbing = tt;
  }
  grab_written-IsAligned saved g dest (some d) s new dir al =
      grab_kept-IsAligned saved g dest d s new dir al

  grab_of-IsAligned :
      (o : Option Grab) (e : GrabEnd) (saved : Bool) (s : Service A)
      → GrabsLayer o
      → IsAligned s
      → IsAligned (grab_of o e saved s)
  grab_of-IsAligned none e saved s new al = al
  grab_of-IsAligned (some g) cancelled saved s new al = record {
    held = al.held;
    on_disk = al.on_disk;
    grabbing = tt;
  }
  grab_of-IsAligned (some g) refused saved s new al = record {
    held = al.held;
    on_disk = al.on_disk;
    grabbing = tt;
  }
  grab_of-IsAligned (some g) (grabbed dest) saved s new al =
      grab_written-IsAligned saved g dest (dir_at dest s.store) s new
        (OfDir-dir_at HasLayers dest s.store al.on_disk) al

  preview_kept-aligned :
      (n : ℕ) (p : Place) (o : Option (JobDir A)) (st : Store A)
      → OfDir HasLayers o
      → OfStore HasLayers st
      → OfStore HasLayers (preview_kept n p o st)
  preview_kept-aligned n p none st dir h = h
  preview_kept-aligned n p (some d) st dir h =
      OfStore-put_dir HasLayers p (record d { preview = n }) st dir h

  preview_of-IsAligned :
      (p : ℕ) (o : Option ℕ) (s : Service A) → IsAligned s → IsAligned (preview_of p o s)
  preview_of-IsAligned p none s al = al
  preview_of-IsAligned p (some n) s al = record {
    held = al.held;
    on_disk =
        preview_kept-aligned n (s.sessions p).dir (dir_at (s.sessions p).dir s.store) s.store
          (OfDir-dir_at HasLayers (s.sessions p).dir s.store al.on_disk) al.on_disk;
    grabbing = al.grabbing;
  }

module _ {A : Type 0} ⦃f : Float A⦄ (d : Decoder A) (cfg : Options) (settings : Settings) where
  step-IsAligned : (e : Event) (s : Service A) → IsAligned s → IsAligned (step d cfg settings e s)
  unfolding step grab_ends fetch_ends finalize_ends connection
  step-IsAligned (message w listed payload) s al = message-IsAligned d cfg w listed payload s al
  step-IsAligned (grab_end e saved) s al = grab_of-IsAligned s.grab e saved s al.grabbing al
  step-IsAligned (fetch_end p image) s al =
      preview_of-IsAligned p image (record s { fetching = without p s.fetching })
        (record { held = al.held; on_disk = al.on_disk; grabbing = al.grabbing })
  step-IsAligned (finalize_end host p) s al =
      finalized-IsAligned settings host (find_ending p s.endings) s al
  step-IsAligned connected s al = record {
    held = al.held;
    on_disk = al.on_disk;
    grabbing = al.grabbing;
  }
  step-IsAligned disconnected s al = record {
    held = al.held;
    on_disk = al.on_disk;
    grabbing = al.grabbing;
  }

  -- Any order of events keeps frames and layers aligned: if, at the start, each session that the
  -- daemon holds and each one on disk lists one layer for every frame that it counts, none of them
  -- 0 or less, and the grab in flight is of such a layer, then so it is at the end.
  pub run-IsAligned :
      (es : List Event) (s : Service A) → IsAligned s → IsAligned (run d cfg settings es s)
  unfolding run
  run-IsAligned [] s al = al
  run-IsAligned (e ∷ es) s al = run-IsAligned es (step d cfg settings e s) (step-IsAligned e s al)
