-- ===== src/Debug/Summary.antt =====
-- `Run`, `dumpRaw` and `summarise` of internal/debug/debug.go: the texts that a run prints.
use bambu_timelapse.Prelude.{
  ℕ, ℤ, Bool, true, false, ◌&&◌, not, Option, some, List, [], ◌∷◌, ◌++◌, length, if◌then◌else◌,
}
use bambu_timelapse.Go.Text.{Text, text, join, text_le, text_mem}
use bambu_timelapse.Go.Number.{digits, itoa}
use bambu_timelapse.Go.Float.{Float}
use bambu_timelapse.Telemetry.{
  State, gcode_state, job_name, task_id, layer, total_layers, progress, nozzle, bed,
}
use bambu_timelapse.Telemetry.Json.{Value, arr, obj, Members, end, member, lookup}
use bambu_timelapse.Telemetry.Filament.{filament}
use bambu_timelapse.Probe.{ProbeResult}
use bambu_timelapse.Ftps.{Outcome, ok, failed}
use bambu_timelapse.Debug.{Report, println, print_all, printer_lines, probes, port_lines}
use bambu_timelapse.Debug.Snapshot.{SnapEnd, snap, no_snap, listening}

abbrev newline : Text
newline = 10 ∷ []

-- A text of these pieces, and the end of the line.
abbrev line_of : List Text → Text
line_of [] = newline
line_of (t ∷ ts) = t ++ line_of ts

abbrev pub insert_sorted : Text → List Text → List Text
insert_sorted k [] = k ∷ []
insert_sorted k (j ∷ js) = if text_le k j then k ∷ j ∷ js else j ∷ insert_sorted k js

-- sort.Strings
unfoldable pub sorted : List Text → List Text
sorted [] = []
sorted (k ∷ ks) = insert_sorted k (sorted ks)

abbrev section_lines : List Text → ℕ → List Text
section_lines nested scalars =
    line_of (text "\n== sections present ==" ∷ [])
    ∷ line_of (
        text "  nested ("
        ∷ digits (length nested)
        ∷ text "): ["
        ∷ join (text " ") nested
        ∷ text "]"
        ∷ [])
    ∷ line_of (text "  scalar (" ∷ digits scalars ∷ text " keys); use -raw for the full dump" ∷ [])
    ∷ line_of (
        text "\n  note: no toolhead X/Y is reported, so capture cannot be gated on head position"
        ∷ [])
    ∷ []

module _ {A : Type 0} where
  abbrev pub is_nested : Value A → Bool
  is_nested (arr items) = true
  is_nested (obj m) = true
  is_nested _ = false

  -- The keys of a Go map: the first member with a key counts.
  unfoldable pub keys_of : Bool → List Text → Members A → List Text
  keys_of nested before end = []
  keys_of nested before (member k v m) =
      let rest = keys_of nested (k ∷ before) m in
      if not (text_mem k before) && (if nested then is_nested v else not (is_nested v))
      then k ∷ rest
      else rest

  -- `%v` of what a map holds at a key, nil for a key that it does not have.
  abbrev shown_at : (Option (Value A) → Text) → Text → Members A → Text
  shown_at shown k m = shown (lookup k m)

  abbrev camera_lines : (Option (Value A) → Text) → Option (Value A) → List Text
  camera_lines shown (some (obj cam)) =
      line_of (text "  rtsp_url       " ∷ shown_at shown (text "rtsp_url") cam ∷ [])
      ∷ line_of (text "  resolution     " ∷ shown_at shown (text "resolution") cam ∷ [])
      ∷ line_of (
          text "  timelapse      "
          ∷ shown_at shown (text "timelapse") cam
          ∷ text "  (printer's own recorder)"
          ∷ [])
      ∷ line_of (
          text "  internal store "
          ∷ shown_at shown (text "tl_internal_free_kb") cam
          ∷ text " KB free of "
          ∷ shown_at shown (text "tl_internal_total_kb") cam
          ∷ [])
      ∷ line_of (
          text "  external store "
          ∷ shown_at shown (text "tl_external_total_kb") cam
          ∷ text " KB total  (0 = no SD card)"
          ∷ [])
      ∷ []
  camera_lines shown _ = []

module _ {A : Type 0} ⦃f : Float A⦄ where
  abbrev job_lines : State A → List Text
  job_lines s =
      line_of (text "  state          " ∷ gcode_state s ∷ [])
      ∷ line_of (text "  job            " ∷ job_name s ∷ [])
      ∷ line_of (text "  task id        " ∷ task_id s ∷ text "   (resume key)" ∷ [])
      ∷ line_of (
          text "  layer          "
          ∷ itoa (layer s)
          ∷ text " / "
          ∷ itoa (total_layers s)
          ∷ text "  ("
          ∷ itoa (progress s)
          ∷ text "%)"
          ∷ [])
      ∷ line_of (
          text "  nozzle / bed   "
          ∷ f.fixed 0 (nozzle s)
          ∷ text "°C / "
          ∷ f.fixed 0 (bed s)
          ∷ text "°C"
          ∷ [])
      ∷ line_of (text "  filament       " ∷ filament s ∷ [])
      ∷ []

  -- `summarise`
  unfoldable pub summary_lines : (Option (Value A) → Text) → State A → List Text
  unfolding keys_of sorted
  summary_lines shown s =
      job_lines s
      ++ (line_of (text "\n== camera & storage ==" ∷ [])
          ∷ (camera_lines shown (lookup (text "ipcam") s.fields)
              ++ (line_of (text "  sdcard         " ∷ shown_at shown (text "sdcard") s.fields ∷ [])
                  ∷ section_lines (sorted (keys_of true [] s.fields))
                      (length (keys_of false [] s.fields)))))

-- What a run is given: the printer's answers, what the file store printed, and the flags.
pub record Asked : Type 0 where
  pub host : Text
  pub serial : Text
  pub results : List ProbeResult
  pub frame : Text
  pub size : ℤ × ℤ
  pub try_port : Text → Option Text
  pub files : List Text
  pub wait_text : Text
  pub raw : Bool

-- What a run comes to: what was printed, and the error that it returns; or it still listens.
pub data DebugEnd : Type 0 where
  debugged : Report → Option Text → DebugEnd
  still_listening : Report → DebugEnd

abbrev pub opening : Asked → List Text
opening a =
    line_of (text "printer   " ∷ a.host ∷ text "\nserial    " ∷ a.serial ∷ text "\n" ∷ [])
    ∷ line_of (text "== printer ==" ∷ [])
    ∷ (printer_lines a.results a.frame a.size
        ++ (line_of (text "\n== ports ==" ∷ [])
            ∷ (port_lines a.try_port probes
                ++ (line_of (text "\n== file store ==" ∷ [])
                    ∷ (a.files
                        ++ (line_of (
                              text "\n== telemetry (waiting up to "
                              ∷ a.wait_text
                              ∷ text ") =="
                              ∷ [])
                            ∷ []))))))

abbrev returned : Report → DebugEnd
returned r = debugged r r.err

-- `dumpRaw`, of what `json.MarshalIndent` makes of the fields
abbrev pub dumped : Outcome Text → Report → DebugEnd
dumped (failed why) r = debugged r (some why)
dumped (ok body) r = returned (println body r)

module _ {A : Type 0} ⦃f : Float A⦄ where
  abbrev pub told :
      (Option (Value A) → Text) → (Members A → Outcome Text) → Bool → SnapEnd A → Report → DebugEnd
  told shown marshal raw (no_snap why) r = debugged r (some why)
  told shown marshal raw listening r = still_listening r
  told shown marshal raw (snap s) r =
      if raw then dumped (marshal s.fields) r else returned (print_all (summary_lines shown s) r)

  -- `Run`; the sections are printed in their order, and nothing that is asked depends on a print.
  unfoldable pub debug_run :
      (Option (Value A) → Text) → (Members A → Outcome Text) → Asked → SnapEnd A → Report → DebugEnd
  unfolding summary_lines print_all println
  debug_run shown marshal a e r = told shown marshal a.raw e (print_all (opening a) r)
