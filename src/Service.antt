-- ===== src/Service.antt =====
-- internal/service/service.go, the state of the daemon. A `*Session` is a number, and the sessions
-- that exist are the values of `sessions` below `next`. A goroutine is an entry of the state: the
-- grab in flight, the plate previews being fetched and the finalisations started.
pub mod Metrics
pub mod Lifecycle
pub mod Reconcile
pub mod Finalize
pub mod Events
pub mod Ownership
pub mod Alignment
pub mod Preflight
pub mod Caption
pub mod Retry
pub mod Wording
pub mod Timed
pub mod Health
pub mod Startup
pub mod Files
mod Tests
use bambu_timelapse.Prelude.{ℕ, ℤ, Bool, Option, List, ◌==◌, if◌then◌else◌, ◌^◌}
use bambu_timelapse.Go.Text.{Text}
use bambu_timelapse.Telemetry.{State}
use bambu_timelapse.Session.{Session}
use bambu_timelapse.Session.Store.{Store}
use Metrics.{Gauges, Counters}

-- time.Second, in nanoseconds
abbrev pub second : ℕ
second = 10 ^ 9

-- The part of the configuration that the lifecycle reads. The byte count is a uint64.
pub record Options : Type 0 where
  pub min_free : ℕ
  pub intro : ℕ

-- A finalisation that was started: of which session, in which printer state, whether the wait for
-- the closing shot is left out, and whether the goroutine has returned.
pub record Ending : Type 0 where
  pub who : ℕ
  pub end_state : Text
  pub skip_delay : Bool
  pub finished : Bool

-- The capture goroutine: the session that it writes to, and the layer it was started for.
pub record Grab : Type 0 where
  pub target : ℕ
  pub layer : ℤ

pub record Service (A : Type 0) : Type 0 where
  pub view : State A
  pub store : Store A
  pub sessions : ℕ → Session A
  pub next : ℕ
  pub current : Option ℕ
  pub reconciled : Bool
  pub idle_state : Text
  pub idle_logged : ℕ
  -- The "printer is not printing" lines of the log, the last one first.
  pub notes : List (Text × ℕ)
  pub grab : Option Grab
  pub fetching : List ℕ
  pub endings : List Ending
  pub last_report : ℕ
  pub mqtt_up : Bool
  -- whether Run's context was cancelled
  pub stopped : Bool
  pub gauges : Gauges A
  pub counters : Counters

-- What the world answers while one message is handled: the clock, whether a new session's directory
-- and state file can be made, whether a later save works, and the free bytes if statfs works.
pub record World : Type 0 where
  pub now : ℕ
  pub made : Bool
  pub created : Bool
  pub saved : Bool
  pub free : Option ℕ

module _ {A : Type 0} where
  -- `*p = s`
  abbrev pub store_at : ℕ → Session A → (ℕ → Session A) → ℕ → Session A
  store_at p s m q = if q == p then s else m q
