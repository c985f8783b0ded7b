-- ===== src/Service/Lifecycle/Transitions.antt =====
-- internal/service/service.go, `handle`: which session a report opens, keeps and ends.
use bambu_timelapse.Prelude.{
  ℕ, ◌≡◌, ◌≢◌, refl, ap, ◌∙◌, ℤ, true, false, Option, none, some, [], ◌∷◌, if◌then◌else◌, arith,
  Bool-cases, inl, inr, ◌⊎◌,
}
use bambu_timelapse.Go.Text.{text_eq_iff, is_empty_iff, is_empty}
use bambu_timelapse.Go.Float.{Float}
use bambu_timelapse.Telemetry.{state_finish, layer, total_layers, job_name, task_id, gcode_state}
use bambu_timelapse.Session.Store.{Store, Created, created, cannot_create, create}
use bambu_timelapse.Service.{Service, Options, World}
use bambu_timelapse.Service.Lifecycle.{
  running, ended, phase, start_finalize, capture, begun, begin, tracked, track, is_other,
  leave_other, ensure_begun, track_open, end_current, dispatch, handle,
}

opened : {n : ℕ} {o c : Option ℕ} → (o ≡ none) ⊎ (o ≡ some n) → c ≡ o → (c ≡ none) ⊎ (c ≡ some n)
opened (inl e) at = inl (at ∙ e)
opened (inr e) at = inr (at ∙ e)

module _ {A : Type 0} where
  capture_keeps :
      (cfg : Options) (w : World) (p : ℕ) (l : ℤ) (s : Service A)
      → let t = capture cfg w p l s in
        (t.current ≡ s.current) × (t.endings ≡ s.endings) × (t.next ≡ s.next)
  unfolding capture
  capture_keeps cfg w p l s = ground arith

module _ {A : Type 0} ⦃f : Float A⦄ where
  track_keeps :
      (cfg : Options) (w : World) (p : ℕ) (s : Service A)
      → let t = track cfg w p s in
        (t.current ≡ s.current) × (t.endings ≡ s.endings) × (t.next ≡ s.next)
  unfolding track
  track_keeps cfg w p s = ground (arith, capture_keeps cfg w p (layer s.view) (tracked w p s))

  -- The session that a report opens is the next one, and nothing is ended for it.
  begun_opens :
      (cfg : Options) (s : Service A) (r : Store A × Created A)
      → s.current ≡ none
      → let t = begun cfg s r in
        (t.0.current ≡ t.1) × ((t.1 ≡ none) ⊎ (t.1 ≡ some s.next)) × (t.0.endings ≡ s.endings)
  begun_opens cfg s (st, cannot_create) idle = (idle, inl refl, refl)
  begun_opens cfg s (st, created sess resumed) idle = (refl, inr refl, refl)

  begin_opens :
      (cfg : Options) (w : World) (s : Service A)
      → s.current ≡ none
      → let t = begin cfg w s in
        (t.0.current ≡ t.1) × ((t.1 ≡ none) ⊎ (t.1 ≡ some s.next)) × (t.0.endings ≡ s.endings)
  unfolding begin
  begin_opens cfg w s idle = elim (Bool-cases (is_empty (task_id s.view))) [
    | inl blank ↦ rw blank (idle, inl refl, refl)
    | inr known ↦ rw known (
        begun_opens cfg s
          (create w.made w.created w.now (task_id s.view) (job_name s.view) (total_layers s.view)
            (layer s.view) s.store)
          idle)
  ]

  track_open_keeps :
      (cfg : Options) (w : World) (r : Service A × Option ℕ)
      → let t = track_open cfg w r in (t.current ≡ r.0.current) × (t.endings ≡ r.0.endings)
  track_open_keeps cfg w (s, none) = (refl, refl)
  track_open_keeps cfg w (s, some p) = let k = track_keeps cfg w p s in (k.0, k.1)

  pub handle_running :
      (cfg : Options) (w : World) (s : Service A)
      → phase (gcode_state s.view) ≡ running
      → handle cfg w s ≡ track_open cfg w (ensure_begun cfg w (leave_other s.current s))
  unfolding handle
  handle_running cfg w s ph = rw ph refl

  pub handle_open :
      (cfg : Options) (w : World) (s : Service A) (p : ℕ)
      → phase (gcode_state s.view) ≡ running
      → s.current ≡ some p
      → is_other p s ≡ false
      → handle cfg w s ≡ track cfg w p s
  unfolding leave_other ensure_begun
  handle_open cfg w s p ph at same =
      handle_running cfg w s ph
      ∙ (ap (λ o. track_open cfg w (ensure_begun cfg w (leave_other o s))) at
          ∙ ap
              (λ b. track_open cfg w (
                ensure_begun cfg w (
                  if b
                  then (start_finalize p state_finish true (record s { current = none }), none)
                  else (s, some p))))
              same)

  same_job :
      (p : ℕ) (s : Service A)
      → ((s.sessions p).task_id ≡ task_id s.view) ⊎ (task_id s.view ≡ [])
      → is_other p s ≡ false
  same_job p s (inl same) = ground (arith, text_eq_iff (s.sessions p).task_id (task_id s.view))
  same_job p s (inr blank) = rw blank (ground arith)

  other_job :
      (p : ℕ) (s : Service A)
      → (s.sessions p).task_id ≢ task_id s.view
      → task_id s.view ≢ []
      → is_other p s ≡ true
  other_job p s differs known =
      ground
        (arith, text_eq_iff (s.sessions p).task_id (task_id s.view), is_empty_iff (task_id s.view))

  -- While the printer runs, a report of the job that is open, or one with no task id, keeps its
  -- session current, opens no other and ends none.
  pub handle_same_job :
      (cfg : Options) (w : World) (s : Service A) (p : ℕ)
      → phase (gcode_state s.view) ≡ running
      → s.current ≡ some p
      → ((s.sessions p).task_id ≡ task_id s.view) ⊎ (task_id s.view ≡ [])
      → let t = handle cfg w s in (t.current ≡ some p) × (t.endings ≡ s.endings) × (t.next ≡ s.next)
  handle_same_job cfg w s p ph at same =
      let k = track_keeps cfg w p s in
      rw (handle_open cfg w s p ph at (same_job p s same)) (k.0 ∙ at, k.1, k.2)

  abbrev left : ℕ → Service A → Service A
  left p s = start_finalize p state_finish true (record s { current = none })

  handle-left :
      (cfg : Options) (w : World) (s : Service A) (p : ℕ)
      → phase (gcode_state s.view) ≡ running
      → s.current ≡ some p
      → is_other p s ≡ true
      → handle cfg w s ≡ track_open cfg w (begin cfg w (left p s))
  unfolding leave_other ensure_begun
  handle-left cfg w s p ph at other =
      handle_running cfg w s ph
      ∙ (ap (λ o. track_open cfg w (ensure_begun cfg w (leave_other o s))) at
          ∙ ap
              (λ b.
                track_open cfg w (ensure_begun cfg w (if b then (left p s, none) else (s, some p))))
              other)

  -- While the printer runs, a report with a task id other than that of the open session ends the
  -- session, as finished and without the wait for a closing shot. The current session is then a
  -- new one, or there is none.
  pub handle_next_job :
      (cfg : Options) (w : World) (s : Service A) (p : ℕ)
      → phase (gcode_state s.view) ≡ running
      → s.current ≡ some p
      → (s.sessions p).task_id ≢ task_id s.view
      → task_id s.view ≢ []
      → let t = handle cfg w s in
        (t.endings
          ≡ record { who = p; end_state = state_finish; skip_delay = true; finished = false }
            ∷ s.endings)
        × ((t.current ≡ none) ⊎ (t.current ≡ some s.next))
  unfolding start_finalize
  handle_next_job cfg w s p ph at differs known =
      let t = left p s in
      let b = begin_opens cfg w t refl in
      let k = track_open_keeps cfg w (begin cfg w t) in
      rw (handle-left cfg w s p ph at (other_job p s differs known))
        (k.1 ∙ b.2, opened b.1 (k.0 ∙ b.0))

  -- A report that the print is over, on an open session.
  pub handle_ended :
      (cfg : Options) (w : World) (s : Service A) (p : ℕ)
      → phase (gcode_state s.view) ≡ ended
      → s.current ≡ some p
      → let t = handle cfg w s in
        (t.current ≡ none)
        × (t.endings
            ≡ record {
              who = p;
              end_state = gcode_state s.view;
              skip_delay = false;
              finished = false;
            }
              ∷ s.endings)
        × (t.store ≡ s.store)
        × (t.next ≡ s.next)
  unfolding handle end_current start_finalize
  handle_ended cfg w s p ph at =
      rw
        (ap (λ ph. dispatch ph cfg w (gcode_state s.view) s) ph
          ∙ ap (λ o. end_current w.now (gcode_state s.view) o s) at)
        (refl, refl, refl, refl)

  -- Without a task id no session is opened: a running printer that reports none changes nothing.
  pub handle_without_id :
      (cfg : Options) (w : World) (s : Service A)
      → phase (gcode_state s.view) ≡ running
      → s.current ≡ none
      → task_id s.view ≡ []
      → handle cfg w s ≡ s
  unfolding leave_other ensure_begun begin
  handle_without_id cfg w s ph idle blank =
      handle_running cfg w s ph
      ∙ (ap (λ o. track_open cfg w (ensure_begun cfg w (leave_other o s))) idle
          ∙ ap
              (λ b. track_open cfg w (
                if b
                then (s, none)
                else begun cfg s (
                    create w.made w.created w.now (task_id s.view) (job_name s.view)
                      (total_layers s.view) (layer s.view) s.store)))
              (ap is_empty blank))
