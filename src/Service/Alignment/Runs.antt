-- ===== src/Service/Alignment/Runs.antt =====
-- internal/service/service.go: every event keeps one layer for each frame.
use bambu_timelapse.Prelude.{
  ℕ, ◌+◌, ◌≡◌, refl, ℤ, pos, Bool, true, false, ◌&&◌, Option, none, some, ltb, arith, Bool-cases,
  inl, inr,
}
use bambu_timelapse.Prelude.{ltb_ℤ}
use bambu_timelapse.Go.Text.{Text, is_empty, text_eq}
use bambu_timelapse.Go.Float.{Float}
use bambu_timelapse.Telemetry.{
  State, state_finish, layer, total_layers, job_name, task_id, gcode_state,
}
use bambu_timelapse.Session.{Session}
use bambu_timelapse.Session.Store.{Store, Created, created, cannot_create, create}
use bambu_timelapse.Service.{Service, Options, World}
use bambu_timelapse.Service.Lifecycle.{
  changed_layer, record_report, is_other, tracked, Phase, running, pausing, ended, unknown, phase,
  start_finalize, note_idle, capture, begun, begin, track, leave_other, ensure_begun, track_open,
  end_current, dispatch, handle,
}
use bambu_timelapse.Service.Lifecycle.{lacks_space, capturing, idle_reminder}
use bambu_timelapse.Session.Store.{new_session}
use bambu_timelapse.Session.Store.Content.{OfStore, OfCreated, OfStore-save}
use bambu_timelapse.Session.Store.Loaded.{OfCreated-create}
use bambu_timelapse.Service.Alignment.{HasLayers, IsAligned, HasLayers-moved, held_at}

module _ {A : Type 0} where
  capture-IsAligned :
      (cfg : Options) (w : World) (p : ℕ) (l : ℤ) (s : Service A)
      → ltb_ℤ (pos 0) l ≡ true
      → IsAligned s
      → IsAligned (capture cfg w p l s)
  unfolding capture
  capture-IsAligned cfg w p l s new al = elim (Bool-cases (capturing s.grab)) [
    | inl busy ↦ rw busy al
    | inr ready ↦ elim (Bool-cases (lacks_space cfg w.free)) [
      | inl low ↦ rw (ready, low) al
      | inr room ↦
          rw (ready, room) (record { held = al.held; on_disk = al.on_disk; grabbing = new })
    ]
  ]

  start_finalize-IsAligned :
      (p : ℕ) (st : Text) (skip : Bool) (s : Service A)
      → IsAligned s
      → IsAligned (start_finalize p st skip s)
  unfolding start_finalize
  start_finalize-IsAligned p st skip s al = record {
    held = al.held;
    on_disk = al.on_disk;
    grabbing = al.grabbing;
  }

  note_idle-IsAligned :
      (now : ℕ) (st : Text) (s : Service A) → IsAligned s → IsAligned (note_idle now st s)
  unfolding note_idle
  note_idle-IsAligned now st s al =
      elim (Bool-cases (text_eq st s.idle_state && ltb now (s.idle_logged + idle_reminder))) [
        | inl quiet ↦ rw quiet al
        | inr due ↦ rw due (record { held = al.held; on_disk = al.on_disk; grabbing = al.grabbing })
      ]

changed_positive : (l last : ℤ) → changed_layer l last ≡ true → ltb_ℤ (pos 0) l ≡ true
unfolding changed_layer
changed_positive l last h = ground arith

new_session_layers :
    (B : Type 0) ⦃g : Float B⦄ (now : ℕ) (task job : Text) (total l : ℤ)
    → HasLayers {A = B} (new_session now task job total l)
unfolding new_session
new_session_layers B now task job total l = (refl, tt)

module _ {A : Type 0} ⦃f : Float A⦄ where
  recorded_layers : (v : State A) (s : Session A) → HasLayers s → HasLayers (record_report v s)
  unfolding record_report
  recorded_layers v s h = h

  track-IsAligned :
      (cfg : Options) (w : World) (p : ℕ) (s : Service A)
      → IsAligned s
      → IsAligned (track cfg w p s)
  unfolding track
  track-IsAligned cfg w p s al =
      let sess = record_report s.view (s.sessions p) in
      let kept = recorded_layers s.view (s.sessions p) (al.held p) in
      elim (Bool-cases (changed_layer (layer s.view) sess.last_layer)) [
        | inl new ↦ rw new (
            capture-IsAligned cfg w p (layer s.view) (tracked w p s)
              (changed_positive (layer s.view) sess.last_layer new)
              (record {
                held =
                    held_at p (record sess { last_layer = layer s.view }) s.sessions kept al.held;
                on_disk =
                    OfStore-save HasLayers w.saved (record sess { last_layer = layer s.view })
                      s.store kept al.on_disk;
                grabbing = al.grabbing;
              }))
        | inr same ↦ rw same (record {
          held = held_at p sess s.sessions kept al.held;
          on_disk = al.on_disk;
          grabbing = al.grabbing;
        })
      ]

  begun-IsAligned :
      (cfg : Options) (s : Service A) (r : Store A × Created A)
      → OfStore HasLayers r.0 × OfCreated HasLayers r.1
      → IsAligned s
      → IsAligned (begun cfg s r).0
  begun-IsAligned cfg s (st, cannot_create) new al = record {
    held = al.held;
    on_disk = new.0;
    grabbing = al.grabbing;
  }
  begun-IsAligned cfg s (st, created sess resumed) new al = record {
    held = held_at s.next sess s.sessions new.1 al.held;
    on_disk = new.0;
    grabbing = al.grabbing;
  }

  begin-IsAligned :
      (cfg : Options) (w : World) (s : Service A) → IsAligned s → IsAligned (begin cfg w s).0
  unfolding begin
  begin-IsAligned cfg w s al = elim (Bool-cases (is_empty (task_id s.view))) [
    | inl blank ↦ rw blank al
    | inr known ↦ rw known (
        begun-IsAligned cfg s
          (create w.made w.created w.now (task_id s.view) (job_name s.view) (total_layers s.view)
            (layer s.view) s.store)
          (OfCreated-create HasLayers HasLayers-moved w.made w.created w.now (task_id s.view)
            (job_name s.view) (total_layers s.view) (layer s.view) s.store
            (new_session_layers A w.now (task_id s.view) (job_name s.view) (total_layers s.view)
              (layer s.view))
            al.on_disk)
          al)
  ]

  without_current : (s : Service A) → IsAligned s → IsAligned (record s { current = none })
  without_current s al = record { held = al.held; on_disk = al.on_disk; grabbing = al.grabbing }

  leave_other-IsAligned :
      (o : Option ℕ) (s : Service A) → IsAligned s → IsAligned (leave_other o s).0
  unfolding leave_other
  leave_other-IsAligned none s al = al
  leave_other-IsAligned (some p) s al = elim (Bool-cases (is_other p s)) [
    | inl other ↦ rw other (
        start_finalize-IsAligned p state_finish true (record s { current = none })
          (without_current s al))
    | inr same ↦ rw same al
  ]

  ensure_begun-IsAligned :
      (cfg : Options) (w : World) (r : Service A × Option ℕ)
      → IsAligned r.0
      → IsAligned (ensure_begun cfg w r).0
  unfolding ensure_begun
  ensure_begun-IsAligned cfg w (s, some p) al = al
  ensure_begun-IsAligned cfg w (s, none) al = begin-IsAligned cfg w s al

  track_open-IsAligned :
      (cfg : Options) (w : World) (r : Service A × Option ℕ)
      → IsAligned r.0
      → IsAligned (track_open cfg w r)
  track_open-IsAligned cfg w (s, none) al = al
  track_open-IsAligned cfg w (s, some p) al = track-IsAligned cfg w p s al

  end_current-IsAligned :
      (now : ℕ) (st : Text) (o : Option ℕ) (s : Service A)
      → IsAligned s
      → IsAligned (end_current now st o s)
  unfolding end_current
  end_current-IsAligned now st none s al = note_idle-IsAligned now st s al
  end_current-IsAligned now st (some p) s al =
      start_finalize-IsAligned p st false (record s { current = none }) (without_current s al)

  dispatch-IsAligned :
      (ph : Phase) (cfg : Options) (w : World) (st : Text) (s : Service A)
      → IsAligned s
      → IsAligned (dispatch ph cfg w st s)
  dispatch-IsAligned running cfg w st s al =
      track_open-IsAligned cfg w (ensure_begun cfg w (leave_other s.current s)) (
        ensure_begun-IsAligned cfg w (leave_other s.current s)
          (leave_other-IsAligned s.current s al))
  dispatch-IsAligned pausing cfg w st s al = al
  dispatch-IsAligned ended cfg w st s al = end_current-IsAligned w.now st s.current s al
  dispatch-IsAligned unknown cfg w st s al = al

  pub handle-IsAligned :
      (cfg : Options) (w : World) (s : Service A) → IsAligned s → IsAligned (handle cfg w s)
  unfolding handle
  handle-IsAligned cfg w s al =
      dispatch-IsAligned (phase (gcode_state s.view)) cfg w (gcode_state s.view) s al
