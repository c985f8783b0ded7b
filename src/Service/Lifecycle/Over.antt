-- ===== src/Service/Lifecycle/Over.antt =====
-- internal/service/service.go, `handle`: a printer that repeats that its print is over.
use bambu_timelapse.Prelude.{
  ℕ, ◌≡◌, refl, ap, ◌∙◌, false, none, some, List, [], ◌∷◌, arith, inl, inr, ◌⊎◌,
}
use bambu_timelapse.Go.Text.{text, text_eq}
use bambu_timelapse.Go.Float.{Float}
use bambu_timelapse.Telemetry.{State, gcode_state}
use bambu_timelapse.Service.{Service, Options, World}
use bambu_timelapse.Service.Lifecycle.{ended, phase, note_idle, end_current, dispatch, handle}
use bambu_timelapse.Service.Lifecycle.Transitions.{handle_ended}

module _ {A : Type 0} ⦃f : Float A⦄ where
  -- The printer reports that the print is over.
  abbrev pub IsOver : State A → Type 0
  IsOver v =
      (gcode_state v ≡ text "FINISH")
      ⊎ (gcode_state v ≡ text "FAILED")
      ⊎ (gcode_state v ≡ text "IDLE")

  phase-IsOver : (v : State A) → IsOver v → phase (gcode_state v) ≡ ended
  unfolding phase text_eq
  phase-IsOver v (inl e) = rw e refl
  phase-IsOver v (inr (inl e)) = rw e refl
  phase-IsOver v (inr (inr e)) = rw e refl

  -- A series of reports, each with the view that it makes.
  abbrev pub handle_all : Options → List (World × State A) → Service A → Service A
  handle_all cfg [] s = s
  handle_all cfg ((w, v) ∷ rest) s = handle_all cfg rest (handle cfg w (record s { view = v }))

  abbrev pub AllOver : List (World × State A) → Type 0
  AllOver [] = Unit
  AllOver ((w, v) ∷ rest) = IsOver v × AllOver rest

  abbrev SameJobs : Service A → Service A → Type 0
  SameJobs s t =
      (t.current ≡ s.current) × (t.endings ≡ s.endings) × (t.store ≡ s.store) × (t.next ≡ s.next)

  handle_over :
      (cfg : Options) (w : World) (s : Service A)
      → phase (gcode_state s.view) ≡ ended
      → s.current ≡ none
      → SameJobs s (handle cfg w s)
  unfolding handle end_current note_idle
  handle_over cfg w s ph idle =
      rw
        (ap (λ ph. dispatch ph cfg w (gcode_state s.view) s) ph
          ∙ ap (λ o. end_current w.now (gcode_state s.view) o s) idle)
        (ground arith)

  handle_all_over :
      (cfg : Options) (rs : List (World × State A)) (s : Service A)
      → AllOver rs
      → s.current ≡ none
      → SameJobs s (handle_all cfg rs s)
  handle_all_over cfg [] s h idle = (refl, refl, refl, refl)
  handle_all_over cfg ((w, v) ∷ rest) s h idle =
      let (a1, a2, a3, a4) = handle_over cfg w (record s { view = v }) (phase-IsOver v h.0) idle in
      let (b1, b2, b3, b4) =
        handle_all_over cfg rest (handle cfg w (record s { view = v })) h.1 (a1 ∙ idle) in
      (b1 ∙ a1, b2 ∙ a2, b3 ∙ a3, b4 ∙ a4)

  -- A printer repeats that its print is over in every report. However many reports of FINISH,
  -- FAILED or IDLE follow one another, the session that was open is handed to one finalisation
  -- alone, with the state of the first of them and with the wait for the closing shot. No session
  -- is current then or opened, and the staging area is as it was.
  pub handle_all-ended :
      (cfg : Options) (w : World) (v : State A) (rs : List (World × State A)) (s : Service A)
      (p : ℕ)
      → s.current ≡ some p
      → IsOver v
      → AllOver rs
      → let t = handle_all cfg ((w, v) ∷ rs) s in
        (t.current ≡ none)
        × (t.endings
            ≡ record { who = p; end_state = gcode_state v; skip_delay = false; finished = false }
              ∷ s.endings)
        × (t.store ≡ s.store)
        × (t.next ≡ s.next)
  handle_all-ended cfg w v rs s p at over all =
      let s' = record s { view = v } in
      let (a1, a2, a3, a4) = handle_ended cfg w s' p (phase-IsOver v over) at in
      let (b1, b2, b3, b4) = handle_all_over cfg rs (handle cfg w s') all a1 in
      (b1 ∙ a1, b2 ∙ a2, b3 ∙ a3, b4 ∙ a4)
