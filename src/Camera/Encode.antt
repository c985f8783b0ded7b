-- ===== src/Camera/Encode.antt =====
-- internal/camera/encode.go, `Encode` and `buildGraph`: the command line and the filter graph. A
-- joined path is a text that the caller gives, and the sizes are what `targetSize` measured.
pub mod Graph
use bambu_timelapse.Prelude.{
  ℕ, ℤ, pos, Bool, ◌&&◌, not, Option, none, some, List, [], ◌∷◌, ◌++◌, eq_ℤ, ltb, if◌then◌else◌,
  length,
}
use bambu_timelapse.Go.Text.{Text, text, is_empty, join}
use bambu_timelapse.Go.Number.{digits}
use bambu_timelapse.Go.Float.{Float}
use bambu_timelapse.Camera.{
  Overlay, Still, shown, EncodeOptions, still_chain, seconds, overlay_filters,
}

abbrev is_zero : ℤ → Bool
is_zero w = eq_ℤ w (pos 0)

abbrev when_set : Bool → Text → List Text → List Text
when_set b t rest = if b then t ∷ rest else rest

-- The graph of the footage alone, or that of the stills around it. `input` counts the inputs of
-- ffmpeg, of which 0 is the frames.
abbrev pub with_outro : EncodeOptions → ℤ → ℤ → ℕ → Text → List Text → Text × List Text
with_outro opts width height input graph segments =
    if shown opts.outro
    then (
      graph ++ still_chain input (text "outro") width height opts.fps,
      segments ++ text "[outro]" ∷ [],
    )
    else (graph, segments)

abbrev pub concatenated : Text × List Text → Text
concatenated (graph, segments) =
    graph
    ++ (text ";"
        ++ (join [] segments
            ++ (text "concat=n=" ++ (digits (length segments) ++ text ":v=1:a=0[out]"))))

abbrev pub stills_around : EncodeOptions → ℤ → ℤ → Text → Text
stills_around opts width height main =
    if shown opts.intro
    then concatenated (
        with_outro opts width height 2 (main ++ still_chain 1 (text "intro") width height opts.fps)
          (text "[intro]" ∷ text "[main]" ∷ []))
    else concatenated (with_outro opts width height 1 main (text "[main]" ∷ []))

abbrev pub filters_for : Bool → Text → Option Overlay → Option (List Text)
filters_for written path none = some []
filters_for written path (some o) = overlay_filters written path o

-- The stills of `Encode`, in the order of its arguments.
abbrev pub stills_of : EncodeOptions → List Still
stills_of opts =
    let outro = if shown opts.outro then opts.outro ∷ [] else [] in
    if shown opts.intro then opts.intro ∷ outro else outro

-- Stills are left out where no frame could be measured.
abbrev pub measured : ℤ → List Still → List Still
measured width stills = if is_zero width then [] else stills

abbrev graph_args : Text → List Text → Option (Text × Text) → Option (List Text)
graph_args out inputs none = none
graph_args out inputs (some (graph, label)) = some (
    inputs
    ++ text "-filter_complex"
      ∷ graph
      ∷ text "-map"
      ∷ label
      ∷ text "-c:v"
      ∷ text "libx264"
      ∷ text "-preset"
      ∷ text "veryfast"
      ∷ text "-crf"
      ∷ text "23"
      ∷ text "-pix_fmt"
      ∷ text "yuv420p"
      ∷ text "-movflags"
      ∷ text "+faststart"
      ∷ out
      ∷ [])

module _ (A : Type 0) ⦃f : Float A⦄ where
  -- `main` of `buildGraph`, after the overlay's filters
  abbrev pub main_filters : EncodeOptions → List Text → List Text
  main_filters opts overlay = when_set (not (is_empty opts.crop)) (text "crop=" ++ opts.crop) (
      overlay
      ++ when_set (ltb 0 opts.tail_hold && not (shown opts.outro))
          (text "tpad=stop_mode=clone:stop_duration=" ++ seconds A opts.tail_hold)
          (text "format=yuv420p" ∷ text "setsar=1" ∷ []))

  abbrev pub main_chain : EncodeOptions → List Text → Text
  main_chain opts overlay =
      text "[0:v]" ++ (join (text ",") (main_filters opts overlay) ++ text "[main]")

  abbrev pub graph_of : EncodeOptions → Bool → ℤ → ℤ → Option (List Text) → Option (Text × Text)
  graph_of opts stills width height none = none
  graph_of opts stills width height (some overlay) =
      let main = main_chain opts overlay in
      if not stills
      then some (main, text "[main]")
      else some (stills_around opts width height main, text "[out]")

  -- `buildGraph`: the graph and the label to map.
  unfoldable pub build_graph : Bool → Text → EncodeOptions → Bool → ℤ → ℤ → Option (Text × Text)
  unfolding overlay_filters
  build_graph written path opts stills width height =
      graph_of opts stills width height (filters_for written path opts.overlay)

  unfoldable pub still_args : ℕ → List Still → List Text
  unfolding seconds
  still_args fps [] = []
  still_args fps (s ∷ rest) =
      text "-loop"
      ∷ text "1"
      ∷ text "-framerate"
      ∷ digits fps
      ∷ text "-t"
      ∷ seconds A s.hold
      ∷ text "-i"
      ∷ s.path
      ∷ still_args fps rest

  -- The arguments of ffmpeg in `Encode`, if the graph can be built.
  unfoldable pub encode_args :
      Bool → Text → Text → Text → EncodeOptions → ℤ → ℤ → Option (List Text)
  unfolding build_graph still_args
  encode_args written path frames out opts width height =
      let stills = measured width (stills_of opts) in
      graph_args out
        (text "-hide_banner"
          ∷ text "-loglevel"
          ∷ text "error"
          ∷ text "-y"
          ∷ text "-framerate"
          ∷ digits opts.fps
          ∷ text "-i"
          ∷ frames
          ∷ still_args opts.fps stills)
        (build_graph written path opts (ltb 0 (length stills)) width height)
