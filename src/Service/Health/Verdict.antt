-- ===== src/Service/Health/Verdict.antt =====
-- internal/service/http.go: what the health endpoint answers after any events.
use bambu_timelapse.Prelude.{
  ℕ, ◌/◌, ◌≡◌, refl, sym, ◌∙◌, Bool, true, false, ◌&&◌, not, Option, none, some, List, [], ◌∷◌, ◌*◌,
  ◌+◌, ◌<◌, ◌↔◌, ◌⊎◌, arith, Bool-cases, inl, inr, if◌then◌else◌,
}
use mathlib.Core.Bool.{true≢false}
use bambu_timelapse.Go.Text.{Text, text_eq, is_empty}
use bambu_timelapse.Go.Float.{Float}
use bambu_timelapse.Telemetry.{State, Decoder, merge, gcode_state, task_id}
use bambu_timelapse.Session.{Session}
use bambu_timelapse.Session.Store.{JobDir, dir_at, list}
use bambu_timelapse.Service.{Service, Options, Ending, Grab, World, second}
use bambu_timelapse.Service.Lifecycle.{handle, start_finalize}
use bambu_timelapse.Service.Reconcile.{is_live, settle, settle_all, reconcile, reconcile_once}
use bambu_timelapse.Service.Finalize.{
  Settings, Host, Outcome, too_few, encode_failed, output_unwritable, recorded, uploaded,
  upload_failed, finalize,
}
use bambu_timelapse.Service.Metrics.{Gauges, observe_gauges, set_state}
use bambu_timelapse.Service.Events.{
  GrabEnd, grabbed, refused, cancelled, Event, message, grab_end, fetch_end, finalize_end,
  connected, disconnected, on_message, heard, observed, grab_ends, grab_of, grab_result,
  grab_written, fetch_ends, without, preview_of, find_ending, finalized, finalize_ends, connection,
  step, run, uploaded_at,
}
use bambu_timelapse.Service.Health.{is_fresh, health, health_of}
use bambu_timelapse.Service.Health.Link.{SameLink, SameLink-trans, handle-SameLink}

module _ {A : Type 0} ⦃f : Float A⦄ where
  settle-SameLink :
      (is_running : Bool) (live : Text) (sess : Session A) (s : Service A)
      → SameLink s (settle is_running live sess s)
  unfolding settle start_finalize
  settle-SameLink is_running live sess s =
      elim (Bool-cases (is_running && text_eq sess.task_id live)) [
        | inl mine ↦ rw mine (refl, refl, refl)
        | inr old ↦ rw old (refl, refl, refl)
      ]

  settle_all-SameLink :
      (is_running : Bool) (live : Text) (found : List (Session A)) (s : Service A)
      → SameLink s (settle_all is_running live found s)
  unfolding settle_all
  settle_all-SameLink is_running live [] s = (refl, refl, refl)
  settle_all-SameLink is_running live (sess ∷ rest) s =
      SameLink-trans s (settle is_running live sess s)
        (settle_all is_running live rest (settle is_running live sess s))
        (settle-SameLink is_running live sess s)
        (settle_all-SameLink is_running live rest (settle is_running live sess s))

  reconcile_once-SameLink : (listed : Bool) (s : Service A) → SameLink s (reconcile_once listed s)
  unfolding reconcile_once reconcile
  reconcile_once-SameLink listed s =
      elim (Bool-cases (not s.reconciled && not (is_empty (gcode_state s.view)))) [
        | inl first ↦ rw first (settled listed)
        | inr later ↦ rw later (refl, refl, refl)
      ]
    where
      settled :
          (b : Bool)
          → SameLink s (
              if b
              then settle_all
                  (is_live (gcode_state s.view))
                  (task_id s.view)
                  (list s.store)
                  (record s { reconciled = true })
              else record s { reconciled = true })
      settled true =
          settle_all-SameLink (is_live (gcode_state s.view)) (task_id s.view) (list s.store)
            (record s { reconciled = true })
      settled false = (refl, refl, refl)

  heard-SameLink :
      (w : World) (v : State A) (s : Service A)
      → SameLink (record s { last_report = w.now / second }) (observed (heard w v s))
  unfolding observe_gauges set_state
  heard-SameLink w v s = (refl, refl, refl)

  -- A message moves the time of the last report, and nothing else of the link.
  on_message-SameLink :
      (d : Decoder A) (cfg : Options) (w : World) (listed : Bool) (payload : Text) (s : Service A)
      → SameLink (record s { last_report = w.now / second }) (on_message d cfg w listed payload s)
  unfolding on_message
  on_message-SameLink d cfg w listed payload s =
      let v = merge d s.view payload in
      elim (Bool-cases v.1) [
        | inl good ↦
            let told = record s { last_report = w.now / second } in
            let seen = observed (heard w v.0 s) in
            let settled = reconcile_once listed seen in
            rw good (
              SameLink-trans told seen (handle cfg w settled) (heard-SameLink w v.0 s) (
                SameLink-trans seen settled (handle cfg w settled)
                  (reconcile_once-SameLink listed seen) (handle-SameLink cfg w settled)))
        | inr bad ↦ rw bad (refl, refl, refl)
      ]

  grab_result-SameLink :
      (e : GrabEnd) (saved : Bool) (g : Grab) (s : Service A) → SameLink s (grab_result e saved g s)
  grab_result-SameLink cancelled saved g s = (refl, refl, refl)
  grab_result-SameLink refused saved g s = (refl, refl, refl)
  grab_result-SameLink (grabbed dest) saved g s = written (dir_at dest s.store)
    where
      written : (o : Option (JobDir A)) → SameLink s (grab_written saved g dest o s)
      written none = (refl, refl, refl)
      written (some d) = (refl, refl, refl)

  grab_of-SameLink :
      (o : Option Grab) (e : GrabEnd) (saved : Bool) (s : Service A)
      → SameLink s (grab_of o e saved s)
  grab_of-SameLink none e saved s = (refl, refl, refl)
  grab_of-SameLink (some g) e saved s = grab_result-SameLink e saved g s

  preview_of-SameLink :
      (p : ℕ) (image : Option ℕ) (s : Service A) → SameLink s (preview_of p image s)
  preview_of-SameLink p none s = (refl, refl, refl)
  preview_of-SameLink p (some size) s = (refl, refl, refl)

  uploaded_at-up :
      (o : Outcome) (now : ℕ) (g : Gauges A) → (uploaded_at o now g).mqtt_up ≡ g.mqtt_up
  uploaded_at-up too_few now g = refl
  uploaded_at-up encode_failed now g = refl
  uploaded_at-up output_unwritable now g = refl
  uploaded_at-up recorded now g = refl
  uploaded_at-up uploaded now g = refl
  uploaded_at-up upload_failed now g = refl

  finalized-SameLink :
      (cfg : Settings) (h : Host) (o : Option Ending) (s : Service A)
      → SameLink s (finalized cfg h o s)
  finalized-SameLink cfg h none s = (refl, refl, refl)
  finalized-SameLink cfg h (some e) s = (
    refl,
    refl,
    uploaded_at-up (finalize cfg h s.counters (s.sessions e.who) s.store).outcome (h.now / second)
        s.gauges,
  )

-- What the events say of the connection, and of the time of the last report, in seconds.
abbrev pub up_after : List Event → Bool → Bool
up_after [] up = up
up_after (connected ∷ es) up = up_after es true
up_after (disconnected ∷ es) up = up_after es false
up_after (message w listed payload ∷ es) up = up_after es up
up_after (grab_end e saved ∷ es) up = up_after es up
up_after (fetch_end p image ∷ es) up = up_after es up
up_after (finalize_end h p ∷ es) up = up_after es up

abbrev pub heard_after : List Event → ℕ → ℕ
heard_after [] last = last
heard_after (message w listed payload ∷ es) last = heard_after es (w.now / second)
heard_after (connected ∷ es) last = heard_after es last
heard_after (disconnected ∷ es) last = heard_after es last
heard_after (grab_end e saved ∷ es) last = heard_after es last
heard_after (fetch_end p image ∷ es) last = heard_after es last
heard_after (finalize_end h p ∷ es) last = heard_after es last

fresh_iff :
    (now : ℕ) (up : Bool) (last : ℕ)
    → (is_fresh up now last ≡ true)
      ↔ ((up ≡ true) × ((last ≡ 0) ⊎ (now < last * 1000000000 + 300000000000)))
unfolding is_fresh
fresh_iff now up last = ground arith

codes_differ : ◌≡◌ {A = ℕ} 503 200 → ⊥
codes_differ e = omega arith

health_verdict :
    (now : ℕ) (up : Bool) (last : ℕ)
    → ((health now up last).status ≡ 200 ⊎ ((health now up last).status ≡ 503))
      × (((health now up last).status ≡ 200)
          ↔ ((up ≡ true) × ((last ≡ 0) ⊎ (now < last * 1000000000 + 300000000000))))
unfolding health is_fresh
health_verdict now up last = elim (Bool-cases (is_fresh up now last)) [
  | inl fresh ↦ rw fresh (inl refl, (λ e. (fresh_iff now up last).0 fresh, λ h. refl))
  | inr stale ↦ rw stale (
    inr refl,
    (
      λ e. absurd (codes_differ e),
      λ h. absurd (true≢false (sym ((fresh_iff now up last).1 h) ∙ stale)),
    ),
  )
]

module _ {A : Type 0} ⦃f : Float A⦄ where
  -- The flag, the gauge and the time tell the same as the events.
  abbrev IsLinked : Bool → ℕ → Service A → Type 0
  IsLinked up last s = (s.mqtt_up ≡ up) × (s.last_report ≡ last) × (s.gauges.mqtt_up ≡ up)

  IsLinked-same :
      (up : Bool) (last : ℕ) (s t : Service A)
      → SameLink s t
      → IsLinked up last s
      → IsLinked up last t
  IsLinked-same up last s t (a1, a2, a3) (b1, b2, b3) = (a1 ∙ b1, a2 ∙ b2, a3 ∙ b3)

  run-IsLinked :
      (d : Decoder A) (cfg : Options) (settings : Settings) (es : List Event) (up : Bool) (last : ℕ)
      (s : Service A)
      → IsLinked up last s
      → IsLinked (up_after es up) (heard_after es last) (run d cfg settings es s)
  unfolding run step
  run-IsLinked d cfg settings [] up last s h = h
  run-IsLinked d cfg settings (message w listed payload ∷ es) up last s (h1, h2, h3) =
      run-IsLinked d cfg settings es up (w.now / second) (on_message d cfg w listed payload s) (
        IsLinked-same up (w.now / second) (record s { last_report = w.now / second })
          (on_message d cfg w listed payload s) (on_message-SameLink d cfg w listed payload s)
          (h1, refl, h3))
  run-IsLinked d cfg settings (grab_end e saved ∷ es) up last s h =
      run-IsLinked d cfg settings es up last (grab_ends e saved s) (
        unfold grab_ends in
        IsLinked-same up last s (grab_of s.grab e saved s) (grab_of-SameLink s.grab e saved s) h)
  run-IsLinked d cfg settings (fetch_end p image ∷ es) up last s h =
      run-IsLinked d cfg settings es up last (fetch_ends p image s) (
        unfold fetch_ends in
        IsLinked-same up last (record s { fetching = without p s.fetching })
          (preview_of p image (record s { fetching = without p s.fetching }))
          (preview_of-SameLink p image (record s { fetching = without p s.fetching })) h)
  run-IsLinked d cfg settings (finalize_end h' p ∷ es) up last s h =
      run-IsLinked d cfg settings es up last (finalize_ends settings h' p s) (
        unfold finalize_ends in
        IsLinked-same up last s (finalized settings h' (find_ending p s.endings) s)
          (finalized-SameLink settings h' (find_ending p s.endings) s) h)
  run-IsLinked d cfg settings (connected ∷ es) up last s (h1, h2, h3) =
      run-IsLinked d cfg settings es true last (connection true s)
        (unfold connection in (refl, h2, refl))
  run-IsLinked d cfg settings (disconnected ∷ es) up last s (h1, h2, h3) =
      run-IsLinked d cfg settings es false last (connection false s)
        (unfold connection in (refl, h2, refl))

  -- Whatever events a daemon has seen, the endpoint answers 200 exactly if the last connection event
  -- was a connection and the last message, if there was one, came less than five minutes ago, and
  -- 503 otherwise. The gauge of the connection says what the last connection event was.
  pub health_of-run :
      (d : Decoder A) (cfg : Options) (settings : Settings) (es : List Event) (s : Service A)
      (now : ℕ)
      → s.gauges.mqtt_up ≡ s.mqtt_up
      → let code = (health_of now (run d cfg settings es s)).status in
        let last = heard_after es s.last_report in
        ((code ≡ 200) ⊎ (code ≡ 503))
        × ((code ≡ 200) ↔ (
            (up_after es s.mqtt_up ≡ true)
            × ((last ≡ 0) ⊎ (now < last * 1000000000 + 300000000000))))
        × ((run d cfg settings es s).gauges.mqtt_up ≡ up_after es s.mqtt_up)
  unfolding health_of
  health_of-run d cfg settings es s now same =
      let (h1, h2, h3) =
        run-IsLinked d cfg settings es s.mqtt_up s.last_report s (refl, refl, same) in
      let v = health_verdict now (up_after es s.mqtt_up) (heard_after es s.last_report) in
      (rw (h1, h2) v.0, rw (h1, h2) v.1, h3)
