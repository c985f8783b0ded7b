-- ===== src/Service/Health/Link.antt =====
-- internal/service/service.go: what a report leaves of the state of the connection, which the health
-- endpoint reads.
use bambu_timelapse.Prelude.{
  ℕ, ◌+◌, ℤ, ◌≡◌, refl, ◌∙◌, ◌&&◌, Option, none, some, Bool-cases, inl, inr, ltb,
}
use bambu_timelapse.Go.Text.{Text, text_eq, is_empty}
use bambu_timelapse.Go.Float.{Float}
use bambu_timelapse.Telemetry.{gcode_state, task_id, layer}
use bambu_timelapse.Session.Store.{Store, Created, created, cannot_create}
use bambu_timelapse.Service.{Service, Options, World}
use bambu_timelapse.Service.Lifecycle.{
  Phase, running, pausing, ended, unknown, phase, changed_layer, lacks_space, capturing, note_idle,
  capture, record_report, begun, begin, track, is_other, leave_other, ensure_begun, tracked,
  track_open, end_current, dispatch, handle, start_finalize, idle_reminder,
}

-- The state of the connection and the time of the last report, and the gauge, are as they were.
abbrev pub SameLink : {A : Type 0} → Service A → Service A → Type 0
SameLink s t =
    (t.mqtt_up ≡ s.mqtt_up)
    × (t.last_report ≡ s.last_report)
    × (t.gauges.mqtt_up ≡ s.gauges.mqtt_up)

module _ {A : Type 0} where
  pub SameLink-trans : (s t u : Service A) → SameLink s t → SameLink t u → SameLink s u
  SameLink-trans s t u (a1, a2, a3) (b1, b2, b3) = (b1 ∙ a1, b2 ∙ a2, b3 ∙ a3)

  note_idle-SameLink : (now : ℕ) (st : Text) (s : Service A) → SameLink s (note_idle now st s)
  unfolding note_idle
  note_idle-SameLink now st s =
      elim (Bool-cases (text_eq st s.idle_state && ltb now (s.idle_logged + idle_reminder))) [
        | inl said ↦ rw said (refl, refl, refl)
        | inr new ↦ rw new (refl, refl, refl)
      ]

  capture-SameLink :
      (cfg : Options) (w : World) (p : ℕ) (l : ℤ) (s : Service A) → SameLink s (capture cfg w p l s)
  unfolding capture
  capture-SameLink cfg w p l s = elim (Bool-cases (capturing s.grab)) [
    | inl busy ↦ rw busy (refl, refl, refl)
    | inr idle ↦ rw idle (elim (Bool-cases (lacks_space cfg w.free)) [
      | inl full ↦ rw full (refl, refl, refl)
      | inr room ↦ rw room (refl, refl, refl)
    ])
  ]

module _ {A : Type 0} ⦃f : Float A⦄ where
  begun-SameLink :
      (cfg : Options) (s : Service A) (r : Store A × Created A) → SameLink s (begun cfg s r).0
  begun-SameLink cfg s (st, cannot_create) = (refl, refl, refl)
  begun-SameLink cfg s (st, created sess resumed) = (refl, refl, refl)

  begin-SameLink : (cfg : Options) (w : World) (s : Service A) → SameLink s (begin cfg w s).0
  unfolding begin
  begin-SameLink cfg w s = elim (Bool-cases (is_empty (task_id s.view))) [
    | inl nameless ↦ rw nameless (refl, refl, refl)
    | inr named ↦ rw named (begun-SameLink cfg s _)
  ]

  track-SameLink :
      (cfg : Options) (w : World) (p : ℕ) (s : Service A) → SameLink s (track cfg w p s)
  unfolding track
  track-SameLink cfg w p s =
      elim (Bool-cases
        (changed_layer (layer s.view) (record_report s.view (s.sessions p)).last_layer)) [
          | inl new ↦ rw new (capture-SameLink cfg w p (layer s.view) (tracked w p s))
          | inr old ↦ rw old (refl, refl, refl)
        ]

  leave_other-SameLink : (o : Option ℕ) (s : Service A) → SameLink s (leave_other o s).0
  unfolding leave_other start_finalize
  leave_other-SameLink none s = (refl, refl, refl)
  leave_other-SameLink (some p) s = elim (Bool-cases (is_other p s)) [
    | inl other ↦ rw other (refl, refl, refl)
    | inr same ↦ rw same (refl, refl, refl)
  ]

  ensure_begun-SameLink :
      (cfg : Options) (w : World) (r : Service A × Option ℕ) → SameLink r.0 (ensure_begun cfg w r).0
  unfolding ensure_begun
  ensure_begun-SameLink cfg w (s, some p) = (refl, refl, refl)
  ensure_begun-SameLink cfg w (s, none) = begin-SameLink cfg w s

  track_open-SameLink :
      (cfg : Options) (w : World) (r : Service A × Option ℕ) → SameLink r.0 (track_open cfg w r)
  track_open-SameLink cfg w (s, none) = (refl, refl, refl)
  track_open-SameLink cfg w (s, some p) = track-SameLink cfg w p s

  end_current-SameLink :
      (now : ℕ) (st : Text) (o : Option ℕ) (s : Service A) → SameLink s (end_current now st o s)
  unfolding end_current start_finalize
  end_current-SameLink now st none s = note_idle-SameLink now st s
  end_current-SameLink now st (some p) s = (refl, refl, refl)

  dispatch-SameLink :
      (ph : Phase) (cfg : Options) (w : World) (st : Text) (s : Service A)
      → SameLink s (dispatch ph cfg w st s)
  dispatch-SameLink running cfg w st s =
      let left = leave_other s.current s in
      let open_now = ensure_begun cfg w left in
      let after = track_open cfg w open_now in
      SameLink-trans s left.0 after (leave_other-SameLink s.current s) (
        SameLink-trans left.0 open_now.0 after (ensure_begun-SameLink cfg w left)
          (track_open-SameLink cfg w open_now))
  dispatch-SameLink pausing cfg w st s = (refl, refl, refl)
  dispatch-SameLink ended cfg w st s = end_current-SameLink w.now st s.current s
  dispatch-SameLink unknown cfg w st s = (refl, refl, refl)

  pub handle-SameLink : (cfg : Options) (w : World) (s : Service A) → SameLink s (handle cfg w s)
  unfolding handle
  handle-SameLink cfg w s =
      dispatch-SameLink (phase (gcode_state s.view)) cfg w (gcode_state s.view) s
