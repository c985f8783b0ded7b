-- ===== src/Service/Health.antt =====
-- internal/service/http.go, the health endpoint of `Serve`. Times are nanoseconds, the time of the
-- last report seconds, 0 before the first.
pub mod Link
pub mod Verdict
use bambu_timelapse.Prelude.{
  ℕ, ◌-◌, ◌*◌, ◌/◌, Bool, ◌&&◌, ◌||◌, Option, none, some, ltb, ◌==◌, if◌then◌else◌,
}
use bambu_timelapse.Service.{Service, second}

-- `reportStaleAfter`
abbrev pub report_stale_after : ℕ
report_stale_after = 5 * 60 * second

-- The answer: its status and the two members of its body, the age only after a report.
pub record Health : Type 0 where
  pub status : ℕ
  pub mqtt : Bool
  pub age_seconds : Option ℕ

-- time.Since, 0 before the first report
abbrev pub age_of : ℕ → ℕ → ℕ
age_of now last = if ltb 0 last then now - last * second else 0

unfoldable pub is_fresh : Bool → ℕ → ℕ → Bool
is_fresh up now last = up && ((last == 0) || ltb (age_of now last) report_stale_after)

-- The handler `health`, for a clock that has not gone back behind the last report.
unfoldable pub health : ℕ → Bool → ℕ → Health
unfolding is_fresh
health now up last = record {
  status = if is_fresh up now last then 200 else 503;
  mqtt = up;
  age_seconds = if ltb 0 last then some (age_of now last / second) else none;
}

module _ {A : Type 0} where
  unfoldable pub health_of : ℕ → Service A → Health
  unfolding health
  health_of now s = health now s.mqtt_up s.last_report
