-- ===== src/Camera/Encode/Graph.antt =====
-- internal/camera/encode.go, `buildGraph`: the stills around the footage.
use bambu_timelapse.Prelude.{
  ℕ, ◌+◌, ◌≡◌, refl, ap, ◌∙◌, ℤ, Bool, true, some, List, [], ◌∷◌, ◌++◌, if◌then◌else◌, length,
  Bool-cases, inl, inr, append-nil, append_assoc,
}
use bambu_timelapse.Go.Text.{Text, text, join}
use bambu_timelapse.Go.Number.{digits}
use bambu_timelapse.Go.Float.{Float}
use bambu_timelapse.Camera.{shown, EncodeOptions, still_chain}
use bambu_timelapse.Camera.Encode.{
  stills_of, main_chain, filters_for, graph_of, stills_around, build_graph,
}

abbrev only_if : Bool → Text → List Text
only_if b t = if b then t ∷ [] else []

-- The stills that are shown, in the order of ffmpeg's inputs.
abbrev pub labels : EncodeOptions → List Text
labels opts = only_if (shown opts.intro) (text "intro") ++ only_if (shown opts.outro) (text "outro")

-- The streams of the video, in the order in which they play.
abbrev pub streams : EncodeOptions → List Text
streams opts =
    only_if (shown opts.intro) (text "[intro]")
    ++ text "[main]" ∷ only_if (shown opts.outro) (text "[outro]")

-- Each of these stills conformed, from this input on.
abbrev pub chains : EncodeOptions → ℤ → ℤ → ℕ → List Text → Text
chains opts width height n [] = []
chains opts width height n (l ∷ ls) =
    still_chain n l width height opts.fps ++ chains opts width height (n + 1) ls

abbrev pub concat_of : EncodeOptions → Text
concat_of opts =
    text ";"
    ++ (join [] (streams opts)
        ++ (text "concat=n=" ++ (digits (length (stills_of opts) + 1) ++ text ":v=1:a=0[out]")))

stills_around_lem :
    (opts : EncodeOptions) (width height : ℤ) (main : Text)
    → stills_around opts width height main
      ≡ main ++ (chains opts width height 1 (labels opts) ++ concat_of opts)
stills_around_lem opts width height main = elim (Bool-cases (shown opts.intro)) [
  | inl opens ↦ elim (Bool-cases (shown opts.outro)) [
    | inl closes ↦ simp (opens, closes, append_assoc, append-nil) refl
    | inr stops ↦ simp (opens, stops, append_assoc, append-nil) refl
  ]
  | inr starts ↦ elim (Bool-cases (shown opts.outro)) [
    | inl closes ↦ simp (starts, closes, append_assoc, append-nil) refl
    | inr stops ↦ simp (starts, stops, append-nil) refl
  ]
]

module _ (A : Type 0) ⦃f : Float A⦄ where
  -- With stills, and with a caption that could be written if there is one, the graph is that of
  -- the footage, then one chain for each still that is shown, reading the inputs from 1 on, then a
  -- concat of the intro, the footage and the outro, of as many streams as there are stills and one
  -- more.
  pub build_graph_lem :
      (written : Bool) (path : Text) (opts : EncodeOptions) (width height : ℤ) (overlay : List Text)
      → filters_for written path opts.overlay ≡ some overlay
      → build_graph A written path opts true width height
        ≡ some (
          main_chain A opts overlay ++ (chains opts width height 1 (labels opts) ++ concat_of opts),
          text "[out]",
        )
  unfolding build_graph
  build_graph_lem written path opts width height overlay drawn =
      ap (graph_of A opts true width height) drawn
      ∙ ap (λ (t : Text). some (t, text "[out]"))
          (stills_around_lem opts width height (main_chain A opts overlay))
