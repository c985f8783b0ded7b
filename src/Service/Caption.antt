-- ===== src/Service/Caption.antt =====
-- internal/service/service.go, `overlay`, `duration` and `encode`: what the final encode is asked for.
pub mod Frames
pub mod Stills
mod Tests
use bambu_timelapse.Prelude.{
  ℕ, ◌+◌, ◌*◌, ◌/◌, ℤ, pos, Bool, not, Option, none, some, List, [], ◌++◌, map, ltb, ltb_ℤ, ◌==◌,
  if◌then◌else◌, length,
}
use bambu_timelapse.Go.Text.{Text, text, is_empty}
use bambu_timelapse.Go.Number.{itoa}
use bambu_timelapse.Session.{Session}
use bambu_timelapse.Camera.{Overlay, EncodeOptions}
use bambu_timelapse.Service.{second}
use bambu_timelapse.Service.Preflight.{Drawing}

-- The configuration that the encode reads; `validate` has seen that the frame rate is positive.
pub record Look : Type 0 where
  pub printer_name : Text
  pub overlay : Bool
  pub fps : ℕ
  pub crop : Text

-- `Layer %d/%d` and `Layer %d`
abbrev pub layer_line : ℤ → ℤ → Text
layer_line total layer =
    if ltb_ℤ (pos 0) total
    then text "Layer " ++ (itoa layer ++ (text "/" ++ itoa total))
    else text "Layer " ++ itoa layer

module _ {A : Type 0} where
  abbrev pub title_of : Look → Session A → Text
  title_of cfg s =
      if not (is_empty s.job_name)
      then cfg.printer_name ++ (text " · " ++ s.job_name)
      else cfg.printer_name

  abbrev pub lines_of : Session A → List Text
  lines_of s = if length s.layers == s.frames then map (layer_line s.total_layers) s.layers else []

  -- `overlay`
  unfoldable pub overlay : Look → Text → Session A → Option Overlay
  overlay cfg font s =
      if not cfg.overlay
      then none
      else if is_empty font
      then none
      else some (record { font_file = font; title = title_of cfg s; lines = lines_of s })

  -- `duration`; `preview` is what `PreviewPath` gives. Below 2 ^ 22 seconds the float that `Seconds`
  -- returns has the whole seconds of the duration, and the nanoseconds fit an int64.
  unfoldable pub duration : Look → Drawing → Text → Session A → ℕ
  duration cfg d preview s =
      let footage = s.frames * second / cfg.fps + d.tail in
      let total = if not (is_empty preview) then footage + d.intro else footage in
      if ltb 1 (total / second) then total / second else 1

  -- The options of `encode`.
  unfoldable pub encode_options : Look → Drawing → Text → Text → Session A → EncodeOptions
  unfolding overlay
  encode_options cfg d preview cover s = record {
    fps = cfg.fps;
    crop = cfg.crop;
    intro = record { path = preview; hold = d.intro };
    outro = record { path = cover; hold = d.tail };
    tail_hold = d.tail;
    overlay = overlay cfg d.font s;
  }
