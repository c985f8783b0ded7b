-- ===== src/Preview.antt =====
-- internal/preview/preview.go: which archive on the printer, and which picture in it, shows the
-- plate that is printing. `lower` is strings.ToLower, and `join_path` path.Join.
pub mod Choice
pub mod Fetch
mod Tests
use bambu_timelapse.Prelude.{
  ℕ, ◌-◌, ℤ, pos, Bool, true, false, ◌&&◌, ◌||◌, not, Option, none, some, List, [], ◌∷◌, ◌++◌, leb,
  ltb_ℤ, ◌==◌, if◌then◌else◌, length, drop,
}
use bambu_timelapse.Go.Text.{Text, text, text_eq, is_empty, has_prefix, has_suffix, contains}
use bambu_timelapse.Go.Number.{atoi, itoa, is_digit}

-- `\s` of a regular expression
abbrev is_blank : ℕ → Bool
is_blank c = c == 9 || (c == 10 || (c == 12 || (c == 13 || c == b' ')))

all_ink : Text → Bool
all_ink [] = true
all_ink (c ∷ s) = not (is_blank c) && all_ink s

-- `listedFile`
unfoldable pub listed_file : Text → Text
unfolding all_ink
listed_file [] = []
listed_file (c ∷ s) =
    let later = listed_file s in if is_blank c && (not (is_empty s) && all_ink s) then s else later

abbrev pub ends_3mf : Text → Bool
ends_3mf (a ∷ b ∷ c ∷ d ∷ []) =
    a == b'.' && (b == b'3' && ((c == b'm' || c == b'M') && (d == b'f' || d == b'F')))
ends_3mf _ = false

-- `strings.EqualFold(path.Ext(name), ".3mf")`
unfoldable pub is_3mf : Text → Bool
is_3mf name = leb 4 (length name) && ends_3mf (drop (length name - 4) name)

abbrev pub search_dirs : List Text
search_dirs = text "/" ∷ text "/cache/" ∷ text "/sdcard/" ∷ text "/model/" ∷ []

module _ (join_path : Text → Text → Text) where
  unfoldable pub archives_in : Text → List Text → List Text
  unfolding listed_file is_3mf
  archives_in dir [] = []
  archives_in dir (line ∷ lines) =
      let rest = archives_in dir lines in
      if is_3mf (listed_file line) then join_path dir (listed_file line) ∷ rest else rest

  -- What is found in the directories of a listing: none, if one of them cannot be listed.
  abbrev pub with_rest : Text → Option (List Text) → Option (List Text) → Option (List Text)
  with_rest dir none rest = none
  with_rest dir (some lines) none = none
  with_rest dir (some lines) (some found) = some (archives_in dir lines ++ found)

  unfoldable pub found_in : (Text → Option (List Text)) → List Text → Option (List Text)
  unfolding archives_in
  found_in listing [] = some []
  found_in listing (dir ∷ dirs) = with_rest dir (listing dir) (found_in listing dirs)

module _ (lower : Text → Text) where
  abbrev pub is_named : Text → Text → Bool
  is_named job candidate = not (is_empty job) && contains (lower candidate) (lower job)

  unfoldable pub named_or : Text → Text → List Text → Text
  named_or job default [] = default
  named_or job default (c ∷ cs) = if is_named job c then c else named_or job default cs

  -- The `switch` and what follows it.
  unfoldable pub choose : Text → List Text → Option Text
  unfolding named_or
  choose job [] = none
  choose job (a ∷ []) = some a
  choose job (a ∷ b ∷ rest) = some (named_or job a (a ∷ b ∷ rest))

  abbrev pub chosen : Text → Option (List Text) → Option Text
  chosen job none = none
  chosen job (some found) = choose job found

-- What `locate` of Preview.Fetch comes to, on a listing.
unfoldable pub find_archive :
    (Text → Text) → (Text → Text → Text) → (Text → Option (List Text)) → Text → Option Text
unfolding found_in choose
find_archive lower join_path listing job = chosen lower job (found_in join_path listing search_dirs)

-- The digits at the front of a text, and what follows them.
split_digits : Text → Text × Text
split_digits [] = ([], [])
split_digits (c ∷ s) =
    let (ds, rest) = split_digits s in if is_digit c then (c ∷ ds, rest) else ([], c ∷ s)

abbrev plate_here : Text → Option Text
unfolding split_digits
plate_here s =
    let (ds, rest) = split_digits (drop 6 s) in
    if has_prefix s (text "plate_") && (not (is_empty ds) && has_prefix rest (text ".gcode"))
    then some ds
    else none

abbrev first_of : Option Text → Option Text → Option Text
first_of none later = later
first_of (some ds) later = some ds

-- `plateFromGcode`
unfoldable pub plate_from_gcode : Text → Option Text
unfolding plate_here
plate_from_gcode [] = none
plate_from_gcode (c ∷ s) = first_of (plate_here (c ∷ s)) (plate_from_gcode s)

abbrev or_one : Option ℤ → ℤ
or_one none = pos 1
or_one (some n) = if ltb_ℤ n (pos 1) then pos 1 else n

abbrev number_or_one : Option Text → ℤ
number_or_one none = pos 1
number_or_one (some ds) = or_one (atoi ds)

-- `plateNumber`
unfoldable pub plate_number : Text → ℤ
unfolding plate_from_gcode
plate_number gcode_file = number_or_one (plate_from_gcode gcode_file)

abbrev pub exact_name : ℤ → Text
exact_name plate = text "Metadata/plate_" ++ (itoa plate ++ text ".png")

abbrev pub is_render : Text → Bool
is_render name =
    has_prefix name (text "Metadata/plate_")
    && (has_suffix name (text ".png") && not (contains name (text "_small")))

-- The loop of `pickPlate`, with its `fallback`.
unfoldable pub pick_from : Text → Text → List Text → Text
pick_from exact fallback [] = fallback
pick_from exact fallback (name ∷ names) =
    let kept = pick_from exact fallback names in
    let taken = pick_from exact name names in
    if text_eq name exact then name else if is_empty fallback && is_render name then taken else kept

-- `pickPlate`
unfoldable pub pick_plate : List Text → ℤ → Text
unfolding pick_from
pick_plate names plate = pick_from (exact_name plate) [] names
