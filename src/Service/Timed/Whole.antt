-- ===== src/Service/Timed/Whole.antt =====
-- `RunTimed` of internal/service/service.go, from the preflight to the finalisation.
use bambu_timelapse.Prelude.{ℕ, ◌<◌, ◌≤◌, pos, Bool, true, none, List, ◌≡◌, refl, arith, ◌⊎◌}
use bambu_timelapse.Go.Text.{text}
use bambu_timelapse.Go.Float.{Float}
use bambu_timelapse.Session.Store.{Store, job_dir, new_session, dir_at}
use bambu_timelapse.Session.Store.Resume.{create-fresh}
use bambu_timelapse.Service.Metrics.{Counters}
use bambu_timelapse.Service.Finalize.{Settings, Host, finalize}
use bambu_timelapse.Service.Timed.{
  Turn, Timed, begun, ended, left, timed_task, run_timed, capture_loop,
}
use bambu_timelapse.Service.Timed.Ends.{HasDone, came_count, Ended, still_due, capture_loop-Ended}

module _ {A : Type 0} ⦃f : Float A⦄ where
  left-ended :
      (cfg : Settings) (h : Host) (n : ℕ) (es : List Turn) (r : Timed A × Bool)
      → Ended n es r
      → left cfg h r ≡ ended (finalize cfg h r.0.counters r.0.session r.0.store)
  left-ended cfg h n es (t, b) e = rw e.0 refl

  -- A timed run with a limit, on a task that has no directory yet, ends once that many grabs have
  -- given a frame or its context is done: it then finalises, once, a session that has as many
  -- frames as the limit says, or fewer if it was stopped, with no gap in their numbers.
  pub run_timed-Ended :
      (cfg : Settings) (h : Host) (n : ℕ) (es : List Turn) (now : ℕ) (c : Counters) (st : Store A)
      → 0 < n
      → dir_at (job_dir (timed_task now)) st ≡ none
      → (HasDone es ⊎ (n ≤ came_count es))
      → (t : Timed A) × (run_timed none cfg h (pos n) es true true now c st
          ≡ ended (finalize cfg h t.counters t.session t.store))
        × Ended n es (t, true)
  unfolding run_timed new_session
  run_timed-Ended cfg h n es now c st k free en =
      let (st', d, e, there, none_yet) =
        create-fresh now (timed_task now) (text "timed capture") (pos 0) (pos 0) st free in
      let sess = new_session now (timed_task now) (text "timed capture") (pos 0) (pos 0) in
      let t = begun c sess st' in
      let r = capture_loop (pos n) es t in
      let loop =
        capture_loop-Ended n es t k (omega arith) (d, there, none_yet)
          (still_due (HasDone es) n _ _ en (omega arith)) in
      (r.0, rw e (left-ended cfg h n es r loop), (refl, loop.1, loop.2, loop.3))
