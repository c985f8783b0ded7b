-- ===== src/Service/Caption/Stills.antt =====
-- internal/service/service.go, `encode`, after internal/service/preflight.go, `captionChecks`: the
-- shot at the end of the video.
use bambu_timelapse.Prelude.{
  ◌+◌, ◌≡◌, refl, ◌∙◌, ℤ, Bool, true, false, some, List, [], ◌∷◌, ◌++◌, ltb, arith, append_assoc,
  length, Bool-cases, inl, inr,
}
use bambu_timelapse.Go.Text.{Text, text, is_empty, join}
use bambu_timelapse.Go.Number.{digits}
use bambu_timelapse.Go.Float.{Float}
use bambu_timelapse.Session.{Session}
use bambu_timelapse.Camera.{shown, EncodeOptions}
use bambu_timelapse.Camera.Encode.{stills_of, main_chain, filters_for, build_graph}
use bambu_timelapse.Camera.Encode.Graph.{labels, streams, chains, concat_of, build_graph_lem}
use bambu_timelapse.Camera.Tools.{Support, has_filter}
use bambu_timelapse.Service.Preflight.{
  Drawing, Conf, overlay_checks, overlay_missing, missing_from, tail_checks, intro_checks,
  caption_checks,
}
use bambu_timelapse.Service.Caption.{Look, encode_options}

overlay_missing_keeps :
    (sup : Support) (fs : List Text) (d : Drawing) → (overlay_missing sup fs d).1.tail ≡ d.tail
overlay_missing_keeps sup (f ∷ fs) d = refl
overlay_missing_keeps sup [] d = elim (Bool-cases (is_empty d.font)) [
  | inl bare ↦ rw bare refl
  | inr ink ↦ rw ink refl
]

overlay_keeps :
    (cfg : Conf) (sup : Support) (d : Drawing) → (overlay_checks cfg sup d).1.tail ≡ d.tail
unfolding overlay_checks
overlay_keeps cfg sup d = elim (Bool-cases cfg.overlay) [
  | inr off ↦ simp off refl
  | inl on ↦ elim (Bool-cases (is_empty sup.ffmpeg)) [
    | inl absent ↦ simp (on, absent) refl
    | inr there ↦
        simp (on, there)
          (overlay_missing_keeps sup (missing_from sup (text "drawtext" ∷ text "sendcmd" ∷ [])) d)
  ]
]

tail_keeps :
    (sup : Support) (d : Drawing)
    → has_filter sup (text "tpad") ≡ true
    → (tail_checks sup d).1.tail ≡ d.tail
unfolding tail_checks
tail_keeps sup d has = ground arith

intro_keeps_tail : (sup : Support) (d : Drawing) → (intro_checks sup d).1.tail ≡ d.tail
unfolding intro_checks
intro_keeps_tail sup d = ground arith

kept_tail :
    (cfg : Conf) (sup : Support) (d : Drawing)
    → has_filter sup (text "tpad") ≡ true
    → (caption_checks cfg sup d).1.tail ≡ d.tail
unfolding caption_checks
kept_tail cfg sup d has =
    let d1 = (overlay_checks cfg sup d).1 in
    let d2 = (tail_checks sup d1).1 in
    intro_keeps_tail sup d2 ∙ (tail_keeps sup d1 has ∙ overlay_keeps cfg sup d)

-- The concat filter stands in a text.
abbrev pub HasConcat : Text → Type 0
HasConcat t = (front back : Text) × (t ≡ front ++ (text "concat=n=" ++ back))

module _ (A : Type 0) ⦃f : Float A⦄ where
  stills_concat :
      (written : Bool) (path : Text) (opts : EncodeOptions) (width height : ℤ) (overlay : List Text)
      → filters_for written path opts.overlay ≡ some overlay
      → (graph : Text) × (build_graph A written path opts true width height
          ≡ some (graph, text "[out]"))
        × HasConcat graph
  stills_concat written path opts width height overlay drawn =
      let main = main_chain A opts overlay in
      let held = chains opts width height 1 (labels opts) in
      let back = digits (length (stills_of opts) + 1) ++ text ":v=1:a=0[out]" in
      (
        main ++ (held ++ concat_of opts),
        build_graph_lem A written path opts width height overlay drawn,
        (main ++ (held ++ (text ";" ++ join [] (streams opts))), back, simp append_assoc refl),
      )

  -- If ffmpeg has tpad, and there is a shot to end on and a time to hold it, it is held, and the
  -- graph of the encode uses concat, whether ffmpeg was found to have it or not.
  pub outro_without_concat :
      (cfg : Conf) (sup : Support) (d : Drawing) (look : Look) (preview cover : Text)
      (s : Session A) (written : Bool) (path : Text) (width height : ℤ) (overlay : List Text)
      → has_filter sup (text "tpad") ≡ true
      → ltb 0 d.tail ≡ true
      → is_empty cover ≡ false
      → let opts = encode_options look (caption_checks cfg sup d).1 preview cover s in
        filters_for written path opts.overlay ≡ some overlay
        → (shown opts.outro ≡ true)
          × ((graph : Text) × (build_graph A written path opts true width height
                ≡ some (graph, text "[out]"))
              × HasConcat graph)
  unfolding encode_options
  outro_without_concat cfg sup d look preview cover s written path width height overlay has held
        there drawn =
      let opts = encode_options look (caption_checks cfg sup d).1 preview cover s in
      (
        ground (arith, kept_tail cfg sup d has),
        stills_concat written path opts width height overlay drawn,
      )
