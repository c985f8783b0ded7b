-- ===== src/Service/Lifecycle.antt =====
-- internal/service/service.go: what one report does to the daemon (`onMessage`, `handle`, `begin`,
-- `record`, `capture`, `noteIdle`, `startFinalize`), and how the capture goroutine ends.
pub mod Transitions
pub mod Over
use bambu_timelapse.Prelude.{
  ℕ, ◌+◌, ◌*◌, ℤ, pos, Bool, true, false, ◌&&◌, not, Option, none, some, [], ◌∷◌, ltb, ltb_ℤ, eq_ℤ,
  if◌then◌else◌,
}
use bambu_timelapse.Go.Text.{Text, text_eq, is_empty}
use bambu_timelapse.Go.Float.{Float}
use bambu_timelapse.Telemetry.{
  State, state_running, state_pause, state_finish, state_failed, state_idle, gcode_state, task_id,
  layer, total_layers, job_name, nozzle, bed,
}
use bambu_timelapse.Telemetry.Filament.{filament}
use bambu_timelapse.Session.{Session}
use bambu_timelapse.Session.Temperature.{add_sample}
use bambu_timelapse.Session.Store.{Store, Created, created, cannot_create, create, save}
use bambu_timelapse.Service.{Service, Options, Grab, World, store_at, second}

-- The cases of the `switch` on `gcode_state`.
pub data Phase : Type 0 where
  running pausing ended unknown : Phase

unfoldable pub phase : Text → Phase
phase st =
    if text_eq st state_running
    then running
    else if text_eq st state_pause
    then pausing
    else if text_eq st state_finish
    then ended
    else if text_eq st state_failed
    then ended
    else if text_eq st state_idle
    then ended
    else unknown

-- `changedLayer`
unfoldable pub changed_layer : ℤ → ℤ → Bool
changed_layer layer last = not (eq_ℤ layer last) && ltb_ℤ (pos 0) layer

abbrev pub idle_reminder : ℕ
idle_reminder = 300 * second

abbrev pub lacks_space : Options → Option ℕ → Bool
lacks_space cfg none = false
lacks_space cfg (some free) = ltb free cfg.min_free

abbrev pub capturing : Option Grab → Bool
capturing none = false
capturing (some g) = true

module _ {A : Type 0} where
  -- `startFinalize`
  unfoldable pub start_finalize : ℕ → Text → Bool → Service A → Service A
  start_finalize p st skip s = record s {
    endings = record { who = p; end_state = st; skip_delay = skip; finished = false } ∷ s.endings;
  }

  -- `noteIdle`: time.Sub is negative where the clock went back.
  unfoldable pub note_idle : ℕ → Text → Service A → Service A
  note_idle now st s =
      if text_eq st s.idle_state && ltb now (s.idle_logged + idle_reminder)
      then s
      else record s { idle_state = st; idle_logged = now; notes = (st, now) ∷ s.notes }

  -- `capture`, up to the goroutine that it starts.
  unfoldable pub capture : Options → World → ℕ → ℤ → Service A → Service A
  capture cfg w p layer s =
      if capturing s.grab
      then s
      else if lacks_space cfg w.free
      then s
      else record s { grab = some (record { target = p; layer = layer }) }

module _ {A : Type 0} ⦃f : Float A⦄ where
  -- `record`
  unfoldable pub record_report : State A → Session A → Session A
  record_report v sess = record sess {
    nozzle = add_sample sess.nozzle (nozzle v);
    bed = add_sample sess.bed (bed v);
    filament = if is_empty sess.filament then filament v else sess.filament;
    total_layers = if eq_ℤ sess.total_layers (pos 0) then total_layers v else sess.total_layers;
  }

  -- The session that `Create` gave becomes a new object, and the current one.
  abbrev pub begun : Options → Service A → Store A × Created A → Service A × Option ℕ
  begun cfg s (st, cannot_create) = (record s { store = st }, none)
  begun cfg s (st, created sess resumed) = (
    record s {
      store = st;
      sessions = store_at s.next sess s.sessions;
      next = s.next + 1;
      current = some s.next;
      idle_state = [];
      fetching = if not resumed && ltb 0 cfg.intro then s.next ∷ s.fetching else s.fetching;
    },
    some s.next,
  )

  -- `begin`
  unfoldable pub begin : Options → World → Service A → Service A × Option ℕ
  begin cfg w s =
      let v = s.view in
      if is_empty (task_id v)
      then (s, none)
      else begun cfg s (
          create w.made w.created w.now (task_id v) (job_name v) (total_layers v) (layer v) s.store)

  -- The report is recorded, and its layer is the last one and on disk.
  abbrev pub tracked : World → ℕ → Service A → Service A
  tracked w p s =
      let sess = record (record_report s.view (s.sessions p)) { last_layer = layer s.view } in
      record s { sessions = store_at p sess s.sessions; store = (save w.saved sess s.store).0 }

  -- The tail of the `RUNNING` case: record the report, and capture a layer that is new.
  unfoldable pub track : Options → World → ℕ → Service A → Service A
  unfolding capture record_report
  track cfg w p s =
      let sess = record_report s.view (s.sessions p) in
      let l = layer s.view in
      let s' = record s { sessions = store_at p sess s.sessions } in
      let sess' = record sess { last_layer = l } in
      if changed_layer l sess.last_layer
      then capture cfg w p l (record s' {
        sessions = store_at p sess' s.sessions;
        store = (save w.saved sess' s.store).0;
      })
      else s'

  abbrev pub is_other : ℕ → Service A → Bool
  is_other p s =
      not (text_eq (s.sessions p).task_id (task_id s.view)) && not (is_empty (task_id s.view))

  -- A report of another job ends the one that is open.
  unfoldable pub leave_other : Option ℕ → Service A → Service A × Option ℕ
  unfolding start_finalize
  leave_other none s = (s, none)
  leave_other (some p) s =
      if is_other p s
      then (start_finalize p state_finish true (record s { current = none }), none)
      else (s, some p)

  unfoldable pub ensure_begun : Options → World → Service A × Option ℕ → Service A × Option ℕ
  ensure_begun cfg w (s, some p) = (s, some p)
  ensure_begun cfg w (s, none) = begin cfg w s

  abbrev pub track_open : Options → World → Service A × Option ℕ → Service A
  track_open cfg w (s, none) = s
  track_open cfg w (s, some p) = track cfg w p s

  unfoldable pub end_current : ℕ → Text → Option ℕ → Service A → Service A
  unfolding start_finalize note_idle
  end_current now st none s = note_idle now st s
  end_current now st (some p) s = start_finalize p st false (record s { current = none })

  abbrev pub dispatch : Phase → Options → World → Text → Service A → Service A
  dispatch running cfg w st s = track_open cfg w (ensure_begun cfg w (leave_other s.current s))
  dispatch pausing cfg w st s = s
  dispatch ended cfg w st s = end_current w.now st s.current s
  dispatch unknown cfg w st s = s

  -- `handle`
  unfoldable pub handle : Options → World → Service A → Service A
  handle cfg w s = dispatch (phase (gcode_state s.view)) cfg w (gcode_state s.view) s
