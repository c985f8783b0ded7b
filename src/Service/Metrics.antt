-- ===== src/Service/Metrics.antt =====
-- internal/service/metrics.go: the gauges and counters of the service, as values.
use bambu_timelapse.Prelude.{ℕ, Bool, List, [], ◌∷◌, ℤ}
use bambu_timelapse.Go.Text.{Text, text_eq}
use bambu_timelapse.Go.Float.{Float}
use bambu_timelapse.Telemetry.{
  State, state_running, state_pause, state_finish, state_failed, state_idle, layer, total_layers,
  progress, nozzle, bed, gcode_state,
}

-- The active label of the print-state gauge is the one at 1.
pub record Gauges (A : Type 0) : Type 0 where
  pub mqtt_up : Bool
  pub layer : ℤ
  pub total_layers : ℤ
  pub progress : ℤ
  pub nozzle : A
  pub bed : A
  pub session_frames : ℕ
  pub last_upload : ℕ
  pub print_state : List (Text × Bool)

pub record Counters : Type 0 where
  pub frames_captured : ℕ
  pub capture_failures : ℕ
  pub uploads_ok : ℕ
  pub uploads_failed : ℕ
  pub uploads_skipped : ℕ
  pub uploads_local : ℕ

abbrev pub known_states : List Text
known_states = state_running ∷ state_pause ∷ state_finish ∷ state_failed ∷ state_idle ∷ []

-- The loop of `SetState`.
unfoldable pub states_from : List Text → Text → List (Text × Bool)
states_from [] state = []
states_from (st ∷ sts) state = (st, text_eq st state) ∷ states_from sts state

module _ {A : Type 0} where
  unfoldable pub set_state : Text → Gauges A → Gauges A
  set_state state g = record g { print_state = states_from known_states state }

module _ {A : Type 0} ⦃f : Float A⦄ where
  -- `observe`
  unfoldable pub observe_gauges : State A → Gauges A → Gauges A
  unfolding set_state
  observe_gauges s g = set_state (gcode_state s) (record g {
    layer = layer s;
    total_layers = total_layers s;
    progress = progress s;
    nozzle = nozzle s;
    bed = bed s;
  })
