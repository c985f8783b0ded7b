-- ===== src/Session.antt =====
-- internal/session/session.go: the record of one print on disk, and the staging area.
-- A directory of the staging tree is a value of `JobDir`: what the program reads of it. System
-- calls that may fail take their outcome, and the clock its reading, as arguments.
pub mod Name
pub mod Temperature
pub mod Dirs
pub mod Store
pub mod Atomic
pub mod Paths
mod Tests
use bambu_timelapse.Prelude.{ℕ, ℤ, Bool, List}
use bambu_timelapse.Go.Text.{Text}
use Temperature.{Temps}

-- A directory of the staging tree: `root/name`, or `root/failed/name`.
pub data Place : Type 0 where
  staged parked : Text → Place

-- `started_at` is Unix time in nanoseconds. `Frames` only counts up from 0.
pub record Session (A : Type 0) : Type 0 where
  pub task_id : Text
  pub job_name : Text
  pub started_at : ℕ
  pub frames : ℕ
  pub last_layer : ℤ
  pub total_layers : ℤ
  pub layers : List ℤ
  pub nozzle : Temps A
  pub bed : Temps A
  pub filament : Text
  pub pauses : ℕ
  pub partial : Bool
  pub dir : Place
