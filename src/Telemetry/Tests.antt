-- ===== src/Telemetry/Tests.antt =====
-- internal/telemetry/report.go: runs on concrete reports.
use bambu_timelapse.Prelude.{ℤ, pos, ◌≡◌, refl, none, [], ◌∷◌}
use bambu_timelapse.Go.Text.{Text, text, text_eq, text_mem, join}
use bambu_timelapse.Go.Float.{whole}
use bambu_timelapse.Telemetry.{
  State, task_id, first_id, string_field, announces_new_job, merge_section,
}
use bambu_timelapse.Telemetry.Json.{Members, end, member, str, num, arr, obj, nil, cons, lookup}
use bambu_timelapse.Telemetry.Merge.{lookup-merge_section}
use bambu_timelapse.Telemetry.Identity.{task_id_lem, FirstOf}
use bambu_timelapse.Telemetry.Filament.{
  filaments, filament, add_units, add_unit, add_trays, add_tray, add_entry,
}

-- Job 7001 at layer 12, printing.
abbrev printing : State ℤ
printing = record {
  fields = member (text "gcode_state") (str (text "RUNNING")) (
      member (text "task_id") (str (text "7001")) (
        member (text "layer_num") (num (pos 12))
          (member (text "subtask_name") (str (text "Benchy")) end)));
}

-- The first report of job 7002.
abbrev next_report : Members ℤ
next_report = member (text "task_id") (str (text "7002")) end

-- A report of job 7001 that carries its number in the project.
abbrev subtask_report : Members ℤ
subtask_report = member (text "subtask_id") (str (text "55")) end

-- A LAN print: the cloud's ids are "0".
abbrev lan_view : State ℤ
lan_view = record {
  fields = member (text "task_id") (str (text "0")) (
      member (text "subtask_id") (str (text "0"))
        (member (text "lan_task_id") (str (text "9")) end));
}

abbrev tray : Text → Text → Members ℤ
tray kind colour =
    member (text "tray_type") (str kind) (member (text "tray_color") (str colour) end)

-- One unit with the trays PLA, PLA again and PETG.
abbrev loaded_view : State ℤ
loaded_view = record {
  fields =
      member (text "ams")
        (obj (
          member (text "ams")
            (arr (
              cons
                (obj (
                  member (text "tray")
                    (arr (
                      cons (obj (tray (text "PLA") (text "FFFFFFFF"))) (
                        cons (obj (tray (text "PLA") (text "FFFFFFFF")))
                          (cons (obj (tray (text "PETG") [])) nil))))
                    end))
                nil))
            end))
        end;
}

lookup-merge_section_example :
    lookup (text "layer_num") (merge_section printing next_report).fields ≡ none
unfolding lookup announces_new_job task_id first_id string_field text_eq text_mem
lookup-merge_section_example = lookup-merge_section printing next_report (text "layer_num")

task_id_lem_example :
    FirstOf
      (string_field lan_view (text "task_id")
        ∷ string_field lan_view (text "subtask_id")
        ∷ string_field lan_view (text "lan_task_id")
        ∷ string_field lan_view (text "job_id")
        ∷ [])
      (task_id lan_view)
task_id_lem_example = task_id_lem lan_view

lan_id : task_id lan_view ≡ text "9"
unfolding task_id first_id string_field lookup text_eq
lan_id = refl

two_filaments : filament loaded_view ≡ text "PLA #FFFFFF, PETG"
unfolding filament filaments add_units add_unit add_trays add_tray add_entry join lookup text_eq
    text_mem
two_filaments = refl
