-- ===== src/Debug.antt =====
-- internal/debug/debug.go: the diagnostic snapshot of a printer. What it prints goes to a writer
-- that may fail; `shown` is the verb %v on a JSON value, and `wait_text` a duration in %s.
pub mod Snapshot
pub mod Summary
pub mod Printed
mod Tests
use bambu_timelapse.Prelude.{
  ℕ, ◌+◌, ◌-◌, ℤ, Option, none, some, List, [], ◌∷◌, ◌++◌, length, replicate, ◌==◌, if◌then◌else◌,
}
use bambu_timelapse.Go.Text.{Text, text, is_empty}
use bambu_timelapse.Go.Number.{itoa}
use bambu_timelapse.Go.Utf8.{runes}
use bambu_timelapse.Probe.{ProbeResult}
use bambu_timelapse.Ftps.{Client, Outcome, ok, failed, Channel, dial, close, listed}

-- `report`: what was written, the first error, and the errors of the writes to come, none for a
-- write that succeeds and for those past the end.
pub record Report : Type 0 where
  pub written : List Text
  pub err : Option Text
  pub writes : List (Option Text)

abbrev next_error : List (Option Text) → Option Text
next_error [] = none
next_error (w ∷ ws) = w

abbrev later_errors : List (Option Text) → List (Option Text)
later_errors [] = []
later_errors (w ∷ ws) = ws

abbrev pub after_write : Text → Option Text → Report → Report
after_write t none r = record r { written = r.written ++ t ∷ []; writes = later_errors r.writes }
after_write t (some why) r = record r { err = some why; writes = later_errors r.writes }

abbrev pub unless_failed : Option Text → Text → Report → Report
unless_failed (some why) t r = r
unless_failed none t r = after_write t (next_error r.writes) r

-- `printf`, on a text that is formatted
unfoldable pub printf : Text → Report → Report
printf t r = unless_failed r.err t r

-- `println`, on one text
unfoldable pub println : Text → Report → Report
unfolding printf
println t r = printf (t ++ 10 ∷ []) r

unfoldable pub print_all : List Text → Report → Report
unfolding printf
print_all [] r = r
print_all (t ∷ ts) r = print_all ts (printf t r)

-- `%-9s`
unfoldable pub padded : ℕ → Text → Text
padded n s = s ++ replicate (n - length (runes s)) b' '

abbrev columns : Text → Text → Text → Text
columns name status detail =
    text "  "
    ++ (padded 9 name ++ (text " " ++ (padded 7 status ++ (text " " ++ (detail ++ 10 ∷ [])))))

unfoldable pub result_lines : List ProbeResult → List Text
unfolding padded
result_lines [] = []
result_lines (r ∷ rs) =
    columns r.name (if r.ok then text "ok" else text "FAILED") r.detail ∷ result_lines rs

abbrev size_lines : Text → ℤ × ℤ → List Text
size_lines frame (w, h) =
    if is_empty frame then [] else columns (text "size") [] (itoa w ++ (text "x" ++ itoa h)) ∷ []

-- `printer`; `results` are the answers of `probe.Printer`, and `size` those of `Dimensions`.
unfoldable pub printer_lines : List ProbeResult → Text → ℤ × ℤ → List Text
unfolding result_lines
printer_lines results frame size = result_lines results ++ size_lines frame size

pub record PortProbe : Type 0 where
  pub port : Text
  pub name : Text
  pub note : Text

-- `probes`
abbrev pub probes : List PortProbe
probes =
    record { port = text "990"; name = text "FTPS"; note = text "file store" }
    ∷ record {
      port = text "6000";
      name = text "chamber-image";
      note = text "P1/A1 protocol; vestigial on P2/H2 series";
    }
    ∷ []

abbrev port_status : Option Text → Text
port_status none = text "open"
port_status (some why) = text "CLOSED"

-- The loop over the ports, of which `try_port` gives the error of a dial.
unfoldable pub port_lines : (Text → Option Text) → List PortProbe → List Text
unfolding padded
port_lines try_port [] = []
port_lines try_port (p ∷ ps) =
    (text "  "
      ++ (padded 5 p.port
          ++ (text " "
              ++ (padded 14 p.name
                  ++ (text " "
                      ++ (padded 7 (port_status (try_port p.port))
                          ++ (text " " ++ (p.note ++ 10 ∷ []))))))))
    ∷ port_lines try_port ps

abbrev in_dir : Text → Text → Text
in_dir dir what = text "  " ++ (padded 9 dir ++ (text " " ++ (what ++ 10 ∷ [])))

abbrev dir_lines : Text → List Text → List Text
dir_lines dir [] = []
dir_lines dir (line ∷ lines) = in_dir dir line ∷ dir_lines dir lines

abbrev counted : ℕ → List Text
counted found =
    if found == 0 then text "  empty: no 3mf to take a plate preview from\n" ∷ [] else []

module _ (syntax : Text → Text) (net : Text → Channel) where
  abbrev listed_lines : Text → Outcome (List Text) → List Text × ℕ
  listed_lines dir (failed why) = (in_dir dir why ∷ [], 0)
  listed_lines dir (ok lines) = (dir_lines dir lines, length lines)

  -- The loop over the directories: a listing that fails is printed, and the next one tried.
  unfoldable pub dirs_lines : List Text → ℕ → Client → Client × List Text
  unfolding listed padded
  dirs_lines [] found c = (c, counted found)
  dirs_lines (dir ∷ dirs) found c =
      let l = listed syntax net dir c in
      let (lines, n) = listed_lines dir l.1 in
      let rest = dirs_lines dirs (found + n) l.0 in (rest.0, lines ++ rest.1)

  abbrev pub files_on : Client × Outcome Unit → Client × List Text
  files_on (c, failed why) = (c, (text "  unreachable: " ++ (why ++ 10 ∷ [])) ∷ [])
  files_on (c, ok _) = let r = dirs_lines (text "/" ∷ text "/cache/" ∷ []) 0 c in (close r.0, r.1)

  -- `files`, on a connection that is up
  unfoldable pub files_lines : Text → Client → Client × List Text
  unfolding dirs_lines dial close
  files_lines access_code c = files_on (dial access_code c)
