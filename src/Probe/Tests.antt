-- ===== src/Probe/Tests.antt =====
-- The probe of a printer whose live view is off.
use bambu_timelapse.Prelude.{true, false, none, some, [], ◌∷◌, map, ◌≡◌, if◌then◌else◌}
use bambu_timelapse.Go.Text.{Text, text, text_eq}
use bambu_timelapse.Probe.{Printer, Still, accepted, printer}
use bambu_timelapse.Probe.Order.{verdict, printer-verdicts}

abbrev still : Still
still = record {
  no_dir = none;
  ran = record { out = text "timeout"; err = some (text "exit status 1") };
  removable = true;
  left = none;
  stat_error = none;
}

abbrev no_liveview : Printer
no_liveview = record {
  dial = λ port. if text_eq port (text "322") then some (text "connection refused") else none;
  handshake = accepted;
  still = still;
}

abbrev same : Text → Text
same s = s

printer-verdicts_example :
    map verdict (printer same no_liveview true (text "10.0.0.9") [])
    ≡ (text "printer", true)
      ∷ (text "access", true)
      ∷ (text "liveview", false)
      ∷ (text "camera", false)
      ∷ []
unfolding text_eq
printer-verdicts_example = printer-verdicts same no_liveview true (text "10.0.0.9") []
