-- ===== src/Service/Ownership/Reports.antt =====
-- internal/service/service.go: `handle` keeps each session with one owner.
use bambu_timelapse.Prelude.{
  ℕ, ◌+◌, ◌<◌, ◌≡◌, refl, true, false, Option, none, some, arith, Bool-cases, inl, inr,
}
use bambu_timelapse.Go.Text.{Text, is_empty}
use bambu_timelapse.Go.Float.{Float}
use bambu_timelapse.Telemetry.{state_finish, layer, total_layers, job_name, task_id, gcode_state}
use bambu_timelapse.Session.Store.{Store, Created, created, cannot_create, create}
use bambu_timelapse.Service.{Service, Options, World}
use bambu_timelapse.Service.Lifecycle.{
  changed_layer, record_report, is_other, tracked, Phase, running, pausing, ended, unknown, phase,
  begun, begin, track, leave_other, ensure_begun, track_open, end_current, dispatch, handle,
}
use bambu_timelapse.Service.Ownership.{
  IsOwned, Holds, Once-mono, GrabExists-mono, fresh, handed_over, note_idle-IsOwned,
  capture-IsOwned,
}

module _ {A : Type 0} ⦃f : Float A⦄ where
  track-IsOwned :
      (cfg : Options) (w : World) (p : ℕ) (s : Service A)
      → p < s.next
      → IsOwned s
      → IsOwned (track cfg w p s)
  unfolding track
  track-IsOwned cfg w p s lt h =
      elim (Bool-cases
        (changed_layer (layer s.view) (record_report s.view (s.sessions p)).last_layer)) [
          | inl new ↦ rw new (
              capture-IsOwned cfg w p (layer s.view) (tracked w p s) lt
                (record { free = h.free; grabbing = h.grabbing; once = h.once }))
          | inr same ↦ rw same (record { free = h.free; grabbing = h.grabbing; once = h.once })
        ]

  begun-IsOwned :
      (cfg : Options) (s : Service A) (r : Store A × Created A)
      → s.current ≡ none
      → IsOwned s
      → IsOwned (begun cfg s r).0 × Holds (begun cfg s r)
  begun-IsOwned cfg s (st, cannot_create) idle h =
      (record { free = h.free; grabbing = h.grabbing; once = h.once }, idle)
  begun-IsOwned cfg s (st, created sess resumed) idle h = (
    record {
      free = (omega arith, fresh s.next s.next s.endings h.once (omega arith));
      grabbing = GrabExists-mono s.grab s.next (s.next + 1) (omega arith) h.grabbing;
      once = Once-mono s.next (s.next + 1) s.endings (omega arith) h.once;
    },
    refl,
  )

  begin-IsOwned :
      (cfg : Options) (w : World) (s : Service A)
      → s.current ≡ none
      → IsOwned s
      → IsOwned (begin cfg w s).0 × Holds (begin cfg w s)
  unfolding begin
  begin-IsOwned cfg w s idle h = elim (Bool-cases (is_empty (task_id s.view))) [
    | inl blank ↦ rw blank (h, idle)
    | inr known ↦ rw known (
        begun-IsOwned cfg s
          (create w.made w.created w.now (task_id s.view) (job_name s.view) (total_layers s.view)
            (layer s.view) s.store)
          idle h)
  ]

  leave_other-IsOwned :
      (o : Option ℕ) (s : Service A)
      → s.current ≡ o
      → IsOwned s
      → IsOwned (leave_other o s).0 × Holds (leave_other o s)
  unfolding leave_other
  leave_other-IsOwned none s at h = (h, at)
  leave_other-IsOwned (some p) s at h = elim (Bool-cases (is_other p s)) [
    | inl other ↦ rw other (handed_over p state_finish true s at h, refl)
    | inr same ↦ rw same (h, at)
  ]

  ensure_begun-IsOwned :
      (cfg : Options) (w : World) (r : Service A × Option ℕ)
      → IsOwned r.0
      → Holds r
      → IsOwned (ensure_begun cfg w r).0 × Holds (ensure_begun cfg w r)
  unfolding ensure_begun
  ensure_begun-IsOwned cfg w (s, some p) h at = (h, at)
  ensure_begun-IsOwned cfg w (s, none) h at = begin-IsOwned cfg w s at h

  track_open-IsOwned :
      (cfg : Options) (w : World) (r : Service A × Option ℕ)
      → IsOwned r.0
      → Holds r
      → IsOwned (track_open cfg w r)
  track_open-IsOwned cfg w (s, none) h at = h
  track_open-IsOwned cfg w (s, some p) h at = track-IsOwned cfg w p s (rw at at h.free).0 h

  end_current-IsOwned :
      (now : ℕ) (st : Text) (o : Option ℕ) (s : Service A)
      → s.current ≡ o
      → IsOwned s
      → IsOwned (end_current now st o s)
  unfolding end_current
  end_current-IsOwned now st none s at h = note_idle-IsOwned now st s h
  end_current-IsOwned now st (some p) s at h = handed_over p st false s at h

  dispatch-IsOwned :
      (ph : Phase) (cfg : Options) (w : World) (st : Text) (s : Service A)
      → IsOwned s
      → IsOwned (dispatch ph cfg w st s)
  dispatch-IsOwned running cfg w st s h =
      let (h1, at1) = leave_other-IsOwned s.current s refl h in
      let (h2, at2) = ensure_begun-IsOwned cfg w (leave_other s.current s) h1 at1 in
      track_open-IsOwned cfg w (ensure_begun cfg w (leave_other s.current s)) h2 at2
  dispatch-IsOwned pausing cfg w st s h = h
  dispatch-IsOwned ended cfg w st s h = end_current-IsOwned w.now st s.current s refl h
  dispatch-IsOwned unknown cfg w st s h = h

  pub handle-IsOwned :
      (cfg : Options) (w : World) (s : Service A) → IsOwned s → IsOwned (handle cfg w s)
  unfolding handle
  handle-IsOwned cfg w s h =
      dispatch-IsOwned (phase (gcode_state s.view)) cfg w (gcode_state s.view) s h
