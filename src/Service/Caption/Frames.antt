-- ===== src/Service/Caption/Frames.antt =====
-- internal/service/service.go, `overlay`: one caption for each frame.
use bambu_timelapse.Prelude.{
  ℕ, zero, suc, ◌≡◌, refl, ap, ◌∙◌, Option, none, some, List, [], ◌∷◌, map, if◌then◌else◌, length,
  get_elem?, ==_iff, Bool-cases, inl, inr,
}
use bambu_timelapse.Go.Text.{Text, is_empty}
use bambu_timelapse.Go.Float.{Float}
use bambu_timelapse.Telemetry.{Decoder}
use bambu_timelapse.Session.{Session}
use bambu_timelapse.Camera.{Overlay}
use bambu_timelapse.Service.{Service, Options}
use bambu_timelapse.Service.Finalize.{Settings}
use bambu_timelapse.Service.Events.{Event, run}
use bambu_timelapse.Service.Alignment.{IsAligned}
use bambu_timelapse.Service.Alignment.Events.{run-IsAligned}
use bambu_timelapse.Service.Caption.{Look, layer_line, lines_of, overlay}

length-map : {B C : Type 0} (g : B → C) (xs : List B) → length (map g xs) ≡ length xs
length-map g [] = refl
length-map g (x ∷ xs) = ap suc (length-map g xs)

abbrev map_some : {B C : Type 0} → (B → C) → Option B → Option C
map_some g none = none
map_some g (some x) = some (g x)

get_elem?-map :
    {B C : Type 0} (g : B → C) (xs : List B) (i : ℕ)
    → get_elem? (map g xs) i ≡ map_some g (get_elem? xs i)
get_elem?-map g [] i = refl
get_elem?-map g (x ∷ xs) zero = refl
get_elem?-map g (x ∷ xs) (suc i) = get_elem?-map g xs i

module _ {A : Type 0} where
  -- Captions that are drawn: one for each frame, each of the layer of its own frame.
  abbrev pub CaptionsFrames : Session A → Option Overlay → Type 0
  CaptionsFrames s none = Unit
  CaptionsFrames s (some o) =
      (length o.lines ≡ s.frames)
      × ((i : ℕ)
          → get_elem? o.lines i ≡ map_some (layer_line s.total_layers) (get_elem? s.layers i))

  lines_lem :
      (s : Session A)
      → length s.layers ≡ s.frames
      → lines_of s ≡ map (layer_line s.total_layers) s.layers
  lines_lem s h =
      ap (λ b. if b then map (layer_line s.total_layers) s.layers else [])
        ((==_iff (length s.layers) s.frames).1 h)

  overlay-CaptionsFrames :
      (cfg : Look) (font : Text) (s : Session A)
      → length s.layers ≡ s.frames
      → CaptionsFrames s (overlay cfg font s)
  unfolding overlay
  overlay-CaptionsFrames cfg font s h = elim (Bool-cases cfg.overlay) [
    | inr off ↦ simp off tt
    | inl on ↦ elim (Bool-cases (is_empty font)) [
      | inl bare ↦ simp (on, bare) tt
      | inr ink ↦
          simp (on, ink)
            (
              ap length (lines_lem s h) ∙ (length-map (layer_line s.total_layers) s.layers ∙ h),
              λ i.
                  ap (λ (ls : List Text). get_elem? ls i) (lines_lem s h)
                  ∙ get_elem?-map (layer_line s.total_layers) s.layers i,
            )
    ]
  ]

module _ {A : Type 0} ⦃f : Float A⦄ (d : Decoder A) (cfg : Options) (settings : Settings) where
  -- After any order of events from an aligned start, the caption of a session that the daemon
  -- holds, where one is drawn, has one line for each captured frame, and the line of each frame
  -- names the layer at its place in the list of layers.
  pub run-CaptionsFrames :
      (es : List Event) (s : Service A)
      → IsAligned s
      → (look : Look) (font : Text) (p : ℕ)
      → let t = run d cfg settings es s in
        CaptionsFrames (t.sessions p) (overlay look font (t.sessions p))
  run-CaptionsFrames es s al look font p =
      let t = run d cfg settings es s in
      overlay-CaptionsFrames look font (t.sessions p)
        ((run-IsAligned d cfg settings es s al).held p).0
