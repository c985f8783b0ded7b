-- ===== src/Preview/Tests.antt =====
-- internal/preview/preview.go: a printer with two archives, and an archive with two plates.
use bambu_timelapse.Prelude.{pos, ◌≡◌, refl, Option, some, List, [], ◌∷◌, ◌++◌, if◌then◌else◌}
use bambu_timelapse.Go.Text.{Text, text, text_eq, has_prefix, has_suffix, contains}
use bambu_timelapse.Go.Number.{itoa, atoi}
use bambu_timelapse.Preview.{
  listed_file, is_3mf, archives_in, found_in, named_or, choose, find_archive, plate_from_gcode,
  plate_number, pick_from, pick_plate,
}

abbrev plates : List Text
plates =
    text "Metadata/plate_1_small.png"
    ∷ text "Metadata/plate_1.png"
    ∷ text "Metadata/plate_2.png"
    ∷ []

abbrev same : Text → Text
same s = s

abbrev onto : Text → Text → Text
onto dir name = dir ++ name

second_plate : pick_plate plates (pos 2) ≡ text "Metadata/plate_2.png"
unfolding pick_plate pick_from text_eq itoa has_prefix has_suffix contains
second_plate = refl

other_plate : pick_plate plates (pos 7) ≡ text "Metadata/plate_1.png"
unfolding pick_plate pick_from text_eq itoa has_prefix has_suffix contains
other_plate = refl

plate_three : plate_number (text "/data/Metadata/plate_3.gcode") ≡ pos 3
unfolding plate_number plate_from_gcode has_prefix atoi
plate_three = refl

abbrev listing : Text → Option (List Text)
listing dir =
    if text_eq dir (text "/cache/")
    then some (text "-rw- 1 a.3MF" ∷ text "-rw- 1 cube.3mf" ∷ [])
    else some []

cube : find_archive same onto listing (text "cube") ≡ some (text "/cache/cube.3mf")
unfolding find_archive found_in archives_in listed_file is_3mf choose named_or text_eq contains
    has_prefix
cube = refl
