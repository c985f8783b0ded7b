-- ===== src/Service/Reconcile.antt =====
-- internal/service/service.go, `reconcile`: what becomes of the sessions that an earlier process left.
pub mod Settled
use bambu_timelapse.Prelude.{◌+◌, Bool, true, ◌&&◌, ◌||◌, not, some, List, [], ◌∷◌, if◌then◌else◌}
use bambu_timelapse.Go.Text.{Text, text_eq, is_empty}
use bambu_timelapse.Go.Float.{Float}
use bambu_timelapse.Telemetry.{state_running, state_pause, state_finish, gcode_state, task_id}
use bambu_timelapse.Session.{Session}
use bambu_timelapse.Session.Store.{list}
use bambu_timelapse.Service.Lifecycle.{start_finalize}
use bambu_timelapse.Service.{Service, store_at}

abbrev pub is_live : Text → Bool
is_live st = text_eq st state_running || text_eq st state_pause

module _ {A : Type 0} ⦃f : Float A⦄ where
  -- A session found on disk becomes an object. It is adopted if its job is still printing, and
  -- finalised otherwise.
  unfoldable pub settle : Bool → Text → Session A → Service A → Service A
  unfolding start_finalize
  settle is_running live sess s =
      let p = s.next in
      let s' = record s { sessions = store_at p sess s.sessions; next = p + 1 } in
      if is_running && text_eq sess.task_id live
      then record s' { current = some p; gauges = record s.gauges { session_frames = sess.frames } }
      else start_finalize p state_finish true s'

  unfoldable pub settle_all : Bool → Text → List (Session A) → Service A → Service A
  settle_all is_running live [] s = s
  settle_all is_running live (sess ∷ rest) s =
      settle_all is_running live rest (settle is_running live sess s)

  -- `reconcile`; `listed` is whether the staging directory could be read.
  unfoldable pub reconcile : Bool → Service A → Service A
  reconcile listed s =
      if listed
      then settle_all (is_live (gcode_state s.view)) (task_id s.view) (list s.store) s
      else s

  unfoldable pub reconcile_once : Bool → Service A → Service A
  unfolding reconcile
  reconcile_once listed s =
      if not s.reconciled && not (is_empty (gcode_state s.view))
      then reconcile listed (record s { reconciled = true })
      else s
