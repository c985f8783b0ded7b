-- ===== src/Telemetry.antt =====
-- internal/telemetry/report.go: the merged view of the printer's reports. encoding/json is a
-- parameter, `Decoder`: what it makes of a payload and of the raw "print" section.
pub mod Json
pub mod Merge
pub mod Identity
pub mod Filament
mod Tests
use bambu_timelapse.Prelude.{
  ℤ, pos, Bool, true, false, ◌&&◌, not, Option, none, some, List, [], ◌∷◌, if◌then◌else◌,
}
use bambu_timelapse.Go.Text.{Text, text, text_eq, is_empty}
use bambu_timelapse.Go.Number.{atoi}
use bambu_timelapse.Go.Float.{Float}
use Json.{Value, num, str, Members, end, lookup, insert_all, delete_all}

abbrev pub state_running : Text
state_running = text "RUNNING"

abbrev pub state_pause : Text
state_pause = text "PAUSE"

abbrev pub state_finish : Text
state_finish = text "FINISH"

abbrev pub state_failed : Text
state_failed = text "FAILED"

abbrev pub state_idle : Text
state_idle = text "IDLE"

-- The fields that describe the job and not the printer.
abbrev pub job_scoped : List Text
job_scoped =
    text "layer_num"
    ∷ text "total_layer_num"
    ∷ text "mc_percent"
    ∷ text "mc_remaining_time"
    ∷ text "subtask_name"
    ∷ text "gcode_file"
    ∷ []

abbrev pub id_keys : List Text
id_keys = text "task_id" ∷ text "subtask_id" ∷ text "lan_task_id" ∷ text "job_id" ∷ []

pub record State (A : Type 0) : Type 0 where
  pub fields : Members A

-- json.Unmarshal of a payload into a map of raw members, and of a raw member into a section.
pub record Decoder (A : Type 0) : Type 0 where
  pub message : Text → Option (Text → Option Text)
  pub section : Text → Option (Members A)

module _ {A : Type 0} where
  unfoldable pub new_state : State A
  new_state = record { fields = end }

  unfoldable pub has : State A → Text → Bool
  has s key = elim (lookup key s.fields) [ none ↦ false | some v ↦ true ]

abbrev or_zero : Option ℤ → ℤ
or_zero none = pos 0
or_zero (some n) = n

abbrev pub is_id : Text → Bool
is_id v = not (is_empty v) && not (text_eq v (text "0"))

module _ {A : Type 0} ⦃f : Float A⦄ where
  abbrev pub as_string : Option (Value A) → Text
  as_string (some (str v)) = v
  as_string (some (num v)) = f.shortest v
  as_string _ = []

  abbrev pub as_int : Option (Value A) → ℤ
  as_int (some (num v)) = f.trunc v
  as_int (some (str v)) = or_zero (atoi v)
  as_int _ = pos 0

  abbrev or_float_zero : Option A → A
  or_float_zero none = f.zero
  or_float_zero (some v) = v

  abbrev pub as_float : Option (Value A) → A
  as_float (some (num v)) = v
  as_float (some (str v)) = or_float_zero (f.parse v)
  as_float _ = f.zero

  -- `String`, `Int` and `Float`
  unfoldable pub string_field : State A → Text → Text
  string_field s key = as_string (lookup key s.fields)

  unfoldable pub int_field : State A → Text → ℤ
  int_field s key = as_int (lookup key s.fields)

  unfoldable pub float_field : State A → Text → A
  float_field s key = as_float (lookup key s.fields)

  unfoldable pub gcode_state : State A → Text
  unfolding string_field
  gcode_state s = string_field s (text "gcode_state")

  unfoldable pub layer : State A → ℤ
  unfolding int_field
  layer s = int_field s (text "layer_num")

  unfoldable pub total_layers : State A → ℤ
  unfolding int_field
  total_layers s = int_field s (text "total_layer_num")

  unfoldable pub gcode_file : State A → Text
  unfolding string_field
  gcode_file s = string_field s (text "gcode_file")

  unfoldable pub job_name : State A → Text
  unfolding string_field
  job_name s = string_field s (text "subtask_name")

  unfoldable pub nozzle : State A → A
  unfolding float_field
  nozzle s = float_field s (text "nozzle_temper")

  unfoldable pub bed : State A → A
  unfolding float_field
  bed s = float_field s (text "bed_temper")

  unfoldable pub progress : State A → ℤ
  unfolding int_field
  progress s = int_field s (text "mc_percent")

  -- The loop of `TaskID`.
  unfoldable pub first_id : List Text → State A → Text
  first_id [] s = []
  first_id (key ∷ keys) s = let v = string_field s key in if is_id v then v else first_id keys s

  unfoldable pub task_id : State A → Text
  unfolding first_id
  task_id s = first_id id_keys s

  -- Does a report with this section announce another job than the one in view?
  unfoldable pub announces_new_job : State A → Members A → Bool
  announces_new_job s section =
      let current = task_id s in
      let incoming = task_id (record { fields = section }) in
      not (is_empty current) && (not (is_empty incoming) && not (text_eq incoming current))

  unfoldable pub forget_previous_job : State A → Members A → State A
  forget_previous_job s section =
      if announces_new_job s section
      then record s { fields = delete_all job_scoped s.fields }
      else s

  unfoldable pub merge_section : State A → Members A → State A
  unfolding forget_previous_job insert_all
  merge_section s section =
      let t = forget_previous_job s section in record t { fields = insert_all section t.fields }

  abbrev merge_decoded : State A → Option (Members A) → State A × Bool
  merge_decoded s none = (s, false)
  merge_decoded s (some section) = (merge_section s section, true)

  abbrev merge_raw : Decoder A → State A → Option Text → State A × Bool
  merge_raw d s none = (s, false)
  merge_raw d s (some raw) = merge_decoded s (d.section raw)

  abbrev merge_message : Decoder A → State A → Option (Text → Option Text) → State A × Bool
  merge_message d s none = (s, false)
  merge_message d s (some msg) = merge_raw d s (msg (text "print"))

  unfoldable pub merge : Decoder A → State A → Text → State A × Bool
  merge d s payload = merge_message d s (d.message payload)
