-- ===== src/Command.antt =====
-- cmd/bambu-timelapse/main.go: the commands and their exit codes. The package `flag` is a
-- parameter, which gives the flags of a command or nothing; so are `New` and the runs, each with the
-- error that it returns.
mod Tests
use bambu_timelapse.Prelude.{
  ℕ, ℤ, pos, Bool, false, Option, none, some, List, [], ◌∷◌, ltb_ℤ, if◌then◌else◌,
}
use bambu_timelapse.Go.Text.{Text, text, text_eq}
use bambu_timelapse.Config.{Config, Env, Fields, load}

pub data Command : Type 0 where
  debug_with record_with : List Text → Command
  show_version : Command
  watch : Command

abbrev named : Text → List Text → Command
named name rest =
    if text_eq name (text "debug")
    then debug_with rest
    else if text_eq name (text "record")
    then record_with rest
    else if text_eq name (text "version")
    then show_version
    else watch

-- The `switch` of `run`, on os.Args
unfoldable pub command_of : List Text → Command
command_of (program ∷ name ∷ rest) = named name rest
command_of _ = watch

-- What a command comes to: its exit code, and what it ran, if it got so far.
pub record Done (R : Type 0) : Type 0 where
  pub exit : ℕ
  pub ran : Option R

-- `exitUsage`
abbrev pub exit_usage : ℕ
exit_usage = 2

abbrev code_of : Option Text → ℕ
code_of none = 0
code_of (some why) = 1

abbrev pub gave_up : {R : Type 0} → ℕ → Done R
gave_up code = record { exit = code; ran = none }

abbrev pub finished : {R : Type 0} → R → Option Text → Done R
finished r why = record { exit = code_of why; ran = some r }

abbrev pub with_service : {R : Type 0} → Option Text → (R → Option Text) → R → Done R
with_service (some why) run r = gave_up 1
with_service none run r = finished r (run r)

abbrev pub with_config : {R : Type 0} → List Text → Done R → Done R
with_config [] rest = rest
with_config (e ∷ es) rest = gave_up 1

-- The tail of `run`: `watching` is what `Run` returns.
unfoldable pub run_watch :
    Config × List Text → (Config → Option Text) → (Config → Option Text) → Done Config
run_watch (cfg, errors) new watching = with_config errors (with_service (new cfg) watching cfg)

pub record RecordFlags : Type 0 where
  pub out : Text
  pub staging : Text
  pub once : Bool
  pub every : ℤ
  pub frames : ℤ

pub data Mode : Type 0 where
  on_layers : Mode
  on_timer : ℤ → ℤ → Mode

-- A recording: the configuration, whether it ends after one print, and what frames are taken on.
pub record Recording : Type 0 where
  pub config : Config
  pub once : Bool
  pub mode : Mode

abbrev pub mode_of : RecordFlags → Mode
mode_of f = if ltb_ℤ (pos 0) f.every then on_timer f.every f.frames else on_layers

unfoldable pub recording : RecordFlags → Config → Recording
recording f cfg = record {
  config = record cfg { output_dir = f.out; staging_dir = f.staging };
  once = f.once;
  mode = mode_of f;
}

abbrev pub recorded_with :
    Option RecordFlags
    → Config × List Text
    → (Config → Option Text)
    → (Recording → Option Text)
    → Done Recording
recorded_with none loaded new run = gave_up exit_usage
recorded_with (some f) (cfg, errors) new run =
    let r = recording f cfg in with_config errors (with_service (new r.config) run r)

module _ (quote : Text → Text) (decode : Text → Fields) (env : Env) where
  -- `LoadPrinter`
  unfoldable pub load_printer : Config × List Text
  unfolding load
  load_printer = load quote decode false env

  -- `runRecord`
  unfoldable pub run_record :
      (List Text → Option RecordFlags)
      → (Config → Option Text)
      → (Recording → Option Text)
      → List Text
      → Done Recording
  unfolding load_printer recording
  run_record parse new run args = recorded_with (parse args) load_printer new run

pub record DebugFlags : Type 0 where
  pub raw : Bool
  pub frame : Text
  pub wait : ℤ

abbrev pub debugged_with :
    Option DebugFlags
    → Config × List Text
    → (Config × DebugFlags → Option Text)
    → Done (Config × DebugFlags)
debugged_with none loaded run = gave_up exit_usage
debugged_with (some f) (cfg, errors) run = with_config errors (finished (cfg, f) (run (cfg, f)))

module _ (quote : Text → Text) (decode : Text → Fields) (env : Env) where
  -- `runDebug`
  unfoldable pub run_debug :
      (List Text → Option DebugFlags)
      → (Config × DebugFlags → Option Text)
      → List Text
      → Done (Config × DebugFlags)
  unfolding load_printer
  run_debug parse run args = debugged_with (parse args) (load_printer quote decode env) run
