-- ===== src/Debug/Tests.antt =====
-- A debug run of a printer that reports twice.
use bambu_timelapse.Prelude.{ℤ, true, none, some, List, [], ◌∷◌, ◌≡◌, refl}
use bambu_timelapse.Go.Text.{text, text_eq, text_le, text_mem}
use bambu_timelapse.Go.Float.{whole}
use bambu_timelapse.Telemetry.{
  Decoder, merge, merge_section, forget_previous_job, announces_new_job, new_state, task_id,
  first_id, string_field,
}
use bambu_timelapse.Telemetry.Json.{
  Members, end, member, str, arr, nil, lookup, insert, insert_all, delete, delete_all,
}
use bambu_timelapse.Probe.{accepted}
use bambu_timelapse.Debug.{printf, print_all}
use bambu_timelapse.Debug.Summary.{keys_of, sorted}
use bambu_timelapse.Debug.Snapshot.{
  SnapEvent, came, woken, deadline, snap, no_snap, snapshot, snap_loop, Heard, snapshot-Heard,
}

abbrev section : Members ℤ
section = member (text "gcode_state") (str (text "RUNNING")) (member (text "ams") (arr nil) end)

abbrev decoder : Decoder ℤ
decoder = record { message = λ payload. some (λ key. some payload); section = λ raw. some section }

abbrev events : List SnapEvent
events = came (text "{}") ∷ woken ∷ deadline ∷ []

one_report :
    snapshot decoder (text "20s") (text "done") (text "10.0.0.9") accepted events
    ≡ snap (record { fields = insert_all section end })
unfolding snapshot snap_loop merge merge_section forget_previous_job announces_new_job new_state
    task_id first_id string_field lookup insert insert_all delete delete_all text_eq text_mem
one_report = refl

no_report :
    snapshot decoder (text "20s") (text "done") (text "10.0.0.9") accepted (deadline ∷ [])
    ≡ no_snap (text "no report within 20s")
unfolding snapshot snap_loop
no_report = refl

first_error :
    print_all
      (text "a" ∷ text "b" ∷ text "c" ∷ [])
      (record { written = []; err = none; writes = none ∷ some (text "closed") ∷ [] })
    ≡ record { written = text "a" ∷ []; err = some (text "closed"); writes = [] }
unfolding print_all printf
first_error = refl

nested_keys : sorted (keys_of true [] section) ≡ text "ams" ∷ []
unfolding sorted keys_of text_mem text_eq text_le
nested_keys = refl

snapshot-Heard_example :
    Heard decoder
      (text "20s")
      (text "done")
      0
      new_state
      events
      (snapshot decoder (text "20s") (text "done") (text "10.0.0.9") accepted events)
snapshot-Heard_example =
    snapshot-Heard decoder (text "20s") (text "done") (text "10.0.0.9") accepted events
