-- ===== src/Service/Preflight.antt =====
-- internal/service/preflight.go: what the host is asked before the service starts. `quote` is the
-- verb %q, and the answers of the printer are those of internal/probe/probe.go.
pub mod Verdict
mod Tests
use bambu_timelapse.Prelude.{
  ℕ, ◌/◌, ◌^◌, Bool, true, false, ◌&&◌, not, Option, none, some, List, [], ◌∷◌, ◌++◌, ltb,
  if◌then◌else◌,
}
use bambu_timelapse.Go.Text.{Text, text, is_empty, join}
use bambu_timelapse.Go.Number.{digits}
use bambu_timelapse.Camera.Tools.{Support, has_filter}
use bambu_timelapse.Probe.{ProbeResult}

pub record Check : Type 0 where
  pub name : Text
  pub detail : Text
  pub ok : Bool
  pub fatal : Bool

-- What the checks may turn off: the font, the hold at the end, and the intro.
pub record Drawing : Type 0 where
  pub font : Text
  pub tail : ℕ
  pub intro : ℕ

pub record Conf : Type 0 where
  pub ffmpeg_bin : Text
  pub ffprobe_bin : Text
  pub root : Text
  pub overlay : Bool
  pub min_free : ℕ

-- `found`
abbrev pub found : Text → Text → Text
found path missing = if is_empty path then missing else path

abbrev pub warning : Text → Text → Check
warning name detail = record { name = name; detail = detail; ok = false; fatal = false }

abbrev pub missing_from : Support → List Text → List Text
missing_from sup [] = []
missing_from sup (f ∷ fs) =
    let rest = missing_from sup fs in if not (has_filter sup f) then f ∷ rest else rest

abbrev pub overlay_name : Text
overlay_name = text "overlay"

-- The caption itself.
abbrev pub overlay_missing : Support → List Text → Drawing → List Check × Drawing
overlay_missing sup (f ∷ fs) d = (
  warning overlay_name
        (text "ffmpeg lacks " ++ (join (text ", ") (f ∷ fs) ++ text "; captions are off"))
      ∷ [],
  record d { font = [] },
)
overlay_missing sup [] d =
    if is_empty d.font
    then (warning overlay_name (text "no font to draw with; captions are off") ∷ [], d)
    else (record { name = overlay_name; detail = d.font; ok = true; fatal = false } ∷ [], d)

unfoldable pub overlay_checks : Conf → Support → Drawing → List Check × Drawing
unfolding has_filter
overlay_checks cfg sup d =
    if not cfg.overlay
    then ([], d)
    else if is_empty sup.ffmpeg
    then ([], d)
    else overlay_missing sup (missing_from sup (text "drawtext" ∷ text "sendcmd" ∷ [])) d

unfoldable pub tail_checks : Support → Drawing → List Check × Drawing
unfolding has_filter
tail_checks sup d =
    if ltb 0 d.tail && (not (is_empty sup.ffmpeg) && not (has_filter sup (text "tpad")))
    then (
      warning (text "tail hold") (text "ffmpeg lacks tpad; the video will end on the last frame")
          ∷ [],
      record d { tail = 0 },
    )
    else ([], d)

unfoldable pub intro_checks : Support → Drawing → List Check × Drawing
unfolding has_filter
intro_checks sup d =
    if ltb 0 d.intro && (not (is_empty sup.ffmpeg) && not (has_filter sup (text "concat")))
    then (
      warning (text "cover intro")
            (text "ffmpeg lacks concat; the video will open on the first frame")
          ∷ [],
      record d { intro = 0 },
    )
    else ([], d)

-- `captionChecks`
unfoldable pub caption_checks : Conf → Support → Drawing → List Check × Drawing
unfolding overlay_checks tail_checks intro_checks
caption_checks cfg sup d =
    let (captions, d1) = overlay_checks cfg sup d in
    let (tail, d2) = tail_checks sup d1 in
    let (intro, d3) = intro_checks sup d2 in (captions ++ (tail ++ intro), d3)

-- `printerChecks`
unfoldable pub printer_checks : List ProbeResult → List Check
printer_checks [] = []
printer_checks (r ∷ rs) =
    record { name = r.name; detail = r.detail; ok = r.ok; fatal = false } ∷ printer_checks rs

abbrev mib : ℕ → Text
mib bytes = digits (bytes / 2 ^ 20)

abbrev pub space_checks : Conf → Option ℕ → List Check
space_checks cfg none = []
space_checks cfg (some free) =
    if ltb free cfg.min_free
    then warning (text "free space")
        (mib free ++ (text " MiB free, below the " ++ (mib cfg.min_free ++ text " MiB floor")))
      ∷ []
    else []

-- The error of `stagingWritable`, if there is one.
abbrev staging_detail : Conf → Option Text → Text
staging_detail cfg none = cfg.root
staging_detail cfg (some why) = cfg.root ++ (text ": " ++ why)

abbrev pub host_checks : (Text → Text) → Conf → Support → Bool → Option Text → List Check
host_checks quote cfg sup writable why =
    record {
      name = text "ffmpeg";
      detail = found sup.ffmpeg (
          quote cfg.ffmpeg_bin
          ++ text " not found; no frame can be grabbed or encoded (set FFMPEG_BIN)");
      ok = not (is_empty sup.ffmpeg);
      fatal = true;
    }
    ∷ record {
      name = text "ffprobe";
      detail = found sup.ffprobe (
          quote cfg.ffprobe_bin
          ++ text " not found; the video will carry no dimensions (set FFPROBE_BIN)");
      ok = not (is_empty sup.ffprobe);
      fatal = false;
    }
    ∷ record { name = text "staging"; detail = staging_detail cfg why; ok = writable; fatal = true }
    ∷ []

-- The loop over the checks: the messages of those that stop the start.
unfoldable pub fatal_of : List Check → List Text
fatal_of [] = []
fatal_of (c ∷ cs) =
    let rest = fatal_of cs in
    if not c.ok && c.fatal then (c.name ++ (text ": " ++ c.detail)) ∷ rest else rest

abbrev pub stop_on : List Text → Option Text
stop_on [] = none
stop_on (m ∷ ms) = some (text "preflight: " ++ join (10 ∷ []) (m ∷ ms))

-- `preflight`: the error that it returns, if any, and what is left to draw with.
unfoldable pub preflight :
    (Text → Text)
    → Conf
    → Support
    → Bool
    → Option Text
    → Option ℕ
    → List ProbeResult
    → Drawing
    → Option Text × Drawing
unfolding caption_checks printer_checks fatal_of
preflight quote cfg sup writable why free printer d =
    let (captions, d') = caption_checks cfg sup d in
    let checks =
      host_checks quote cfg sup writable why
      ++ (space_checks cfg free ++ (captions ++ printer_checks printer)) in
    (stop_on (fatal_of checks), d')
