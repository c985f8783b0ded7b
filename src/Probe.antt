-- ===== src/Probe.antt =====
-- internal/probe/probe.go: the four questions about the printer, and what is answered. The network
-- and the host are parameters: what a dial and the MQTT handshake came to, and the file system.
pub mod Order
mod Tests
use bambu_timelapse.Prelude.{
  ℕ, Bool, true, false, not, Option, none, some, List, [], ◌∷◌, ◌++◌, if◌then◌else◌,
}
use bambu_timelapse.Go.Text.{Text, text, is_empty}
use bambu_timelapse.Go.Number.{digits}
use bambu_timelapse.Go.Strings.{join_host_port}
use bambu_timelapse.Camera.Tools.{Ran, grab}

abbrev pub mqtt_port : Text
mqtt_port = text "8883"

abbrev pub rtsps_port : Text
rtsps_port = text "322"

abbrev pub check_printer : Text
check_printer = text "printer"

abbrev pub check_access : Text
check_access = text "access"

abbrev pub check_liveview : Text
check_liveview = text "liveview"

abbrev pub check_camera : Text
check_camera = text "camera"

-- `Result`
pub record ProbeResult : Type 0 where
  pub name : Text
  pub detail : Text
  pub ok : Bool

abbrev pub bad : Text → Text → ProbeResult
bad name detail = record { name = name; detail = detail; ok = false }

abbrev pub good : Text → Text → ProbeResult
good name detail = record { name = name; detail = detail; ok = true }

-- What the MQTT handshake came to.
pub data Handshake : Type 0 where
  silent accepted : Handshake
  refused : Text → Handshake

-- What the host makes of the test still: the errors of making a directory for it, the run of
-- ffmpeg, and os.Stat of the still after it, a size or an error.
pub record Still : Type 0 where
  pub no_dir : Option Text
  pub ran : Ran
  pub removable : Bool
  pub left : Option ℕ
  pub stat_error : Option Text

pub record Printer : Type 0 where
  -- the error of a dial of a port
  pub dial : Text → Option Text
  pub handshake : Handshake
  pub still : Still

abbrev reached : Text → Option Text → ProbeResult
reached host none = good check_printer (join_host_port host mqtt_port)
reached host (some why) = bad check_printer (
    text "no answer from "
    ++ (host
        ++ (text " on "
            ++ (mqtt_port
                ++ (text ": " ++ (why ++ text " (wrong PRINTER_HOST, or the printer is off)"))))))

-- `reachable`
unfoldable pub reachable : Printer → Text → ProbeResult
reachable p host = reached host (p.dial mqtt_port)

-- `access`
unfoldable pub access : Handshake → ProbeResult
access silent = bad check_access (text "no answer to the MQTT handshake within 10s")
access accepted = good check_access (text "access code accepted")
access (refused why) = bad check_access (
    text "refused: "
    ++ (why ++ text " (check PRINTER_ACCESS_CODE on the printer's network screen)"))

abbrev viewed : Option Text → ProbeResult
viewed none = good check_liveview (text "LAN Only Liveview is enabled")
viewed (some why) =
    bad check_liveview (
      rtsps_port ++ (text " closed: " ++ (why ++ text "; enable LAN Only Liveview on the printer")))

-- `liveview`
unfoldable pub liveview : Printer → ProbeResult
liveview p = viewed (p.dial rtsps_port)

abbrev with_bytes : Text → ℕ → Text
with_bytes what size = what ++ (text " (" ++ (digits size ++ text " bytes)"))

abbrev described : (Text → Text) → Text → ℕ → ProbeResult
described clean frame size =
    if is_empty frame
    then good check_camera (with_bytes (text "live view returns frames") size)
    else good check_camera (with_bytes (clean frame) size)

abbrev measured : (Text → Text) → Text → Option Text → ℕ → ProbeResult
measured clean frame none size = described clean frame size
measured clean frame (some why) size = bad check_camera (text "grabbed but unreadable: " ++ why)

abbrev size_or_zero : Option ℕ → ℕ
size_or_zero none = 0
size_or_zero (some n) = n

abbrev taken : (Text → Text) → Text → Option Text → Option ℕ × Option Text → ProbeResult
taken clean frame (some why) left = bad check_camera (text "no frame: " ++ why)
taken clean frame none (left, stat_error) = measured clean frame stat_error (size_or_zero left)

abbrev no_place : Text → Text → ProbeResult
no_place frame why =
    if is_empty frame
    then bad check_camera (text "no temp dir to grab into: " ++ why)
    else bad check_camera (frame ++ (text ": " ++ why))

abbrev grab_into : (Text → Text) → Text → Still → Option Text → ProbeResult
grab_into clean frame s (some why) = no_place frame why
grab_into clean frame s none =
    let r = grab s.ran s.removable s.left in taken clean frame r.0 (r.1, s.stat_error)

-- `grab`; `clean` is filepath.Clean.
unfoldable pub probe_grab : (Text → Text) → Text → Still → ProbeResult
unfolding grab
probe_grab clean frame s = grab_into clean frame s s.no_dir

-- `skipped`
abbrev pub skipped : Text → Text → ProbeResult
skipped name host = bad name (text "not checked; " ++ (host ++ text " is unreachable"))

abbrev pub camera_results : (Text → Text) → Bool → Text → Still → List ProbeResult
camera_results clean has_cam frame s = if not has_cam then [] else probe_grab clean frame s ∷ []

-- `Printer`; `has_cam` is whether there is a camera to grab with.
unfoldable pub printer : (Text → Text) → Printer → Bool → Text → Text → List ProbeResult
unfolding reachable access liveview probe_grab
printer clean p has_cam host frame =
    let first = reachable p host in
    if not first.ok
    then first
      ∷ skipped check_access host
      ∷ skipped check_liveview host
      ∷ skipped check_camera host
      ∷ []
    else first ∷ access p.handshake ∷ liveview p ∷ camera_results clean has_cam frame p.still
