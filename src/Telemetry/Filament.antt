-- ===== src/Telemetry/Filament.antt =====
-- internal/telemetry/report.go, `Filament`: the loaded trays as a caption line.
pub mod Entries
use bambu_timelapse.Prelude.{
  ℕ, Option, none, some, List, [], ◌∷◌, ◌++◌, if◌then◌else◌, ltb, length, take,
}
use bambu_timelapse.Go.Text.{Text, text, text_mem, is_empty, join}
use bambu_timelapse.Telemetry.Json.{Value, str, arr, obj, Items, nil, cons, Members, lookup}
use bambu_timelapse.Telemetry.{State}

abbrev pub max_filaments : ℕ
max_filaments = 4

abbrev pub colour_hex_len : ℕ
colour_hex_len = 6

module _ {A : Type 0} where
  -- `v.(string)`, `v.(map[string]any)` and `v.([]any)`, with the zero value on failure: a missing
  -- map has no fields, and a missing list no elements.
  abbrev pub text_of : Option (Value A) → Text
  text_of (some (str v)) = v
  text_of _ = []

  abbrev pub members_of : Option (Value A) → Option (Members A)
  members_of (some (obj m)) = some m
  members_of _ = none

  abbrev pub items_of : Option (Value A) → Option (Items A)
  items_of (some (arr xs)) = some xs
  items_of _ = none

abbrev short_colour : Text → Text
short_colour colour =
    if ltb colour_hex_len (length colour) then take colour_hex_len colour else colour

abbrev with_colour : Text → Text → Text
with_colour kind [] = kind
with_colour kind (c ∷ cs) = kind ++ (text " #" ++ (c ∷ cs))

-- `seen` and `out` of the loop
pub record Summary : Type 0 where
  pub seen : List Text
  pub out : List Text

abbrev start : Summary
start = record { seen = []; out = [] }

unfoldable pub add_entry : Text → Summary → Summary
add_entry entry a =
    if text_mem entry a.seen then a else record { seen = entry ∷ a.seen; out = a.out ++ entry ∷ [] }

module _ {A : Type 0} where
  -- The body of the inner loop.
  unfoldable pub add_tray : Option (Members A) → Summary → Summary
  unfolding add_entry
  add_tray none a = a
  add_tray (some tray) a =
      let kind = text_of (lookup (text "tray_type") tray) in
      let colour = short_colour (text_of (lookup (text "tray_color") tray)) in
      if is_empty kind then a else add_entry (with_colour kind colour) a

  unfoldable pub add_trays : Items A → Summary → Summary
  unfolding add_tray
  add_trays nil a = a
  add_trays (cons t ts) a = add_trays ts (add_tray (members_of (some t)) a)

  abbrev add_trays_of : Option (Items A) → Summary → Summary
  add_trays_of none a = a
  add_trays_of (some trays) a = add_trays trays a

  -- The body of the outer loop.
  unfoldable pub add_unit : Option (Members A) → Summary → Summary
  unfolding add_trays
  add_unit none a = a
  add_unit (some unit) a = add_trays_of (items_of (lookup (text "tray") unit)) a

  unfoldable pub add_units : Items A → Summary → Summary
  unfolding add_unit
  add_units nil a = a
  add_units (cons u us) a = add_units us (add_unit (members_of (some u)) a)

  abbrev units_of : Option (Members A) → Option (Items A)
  units_of none = none
  units_of (some ams) = items_of (lookup (text "ams") ams)

  abbrev summarise : Option (Items A) → List Text
  summarise none = []
  summarise (some units) = (add_units units start).out

  unfoldable pub filaments : State A → List Text
  filaments s = summarise (units_of (members_of (lookup (text "ams") s.fields)))

  unfoldable pub filament : State A → Text
  unfolding filaments
  filament s =
      let out = filaments s in
      join (text ", ") (if ltb max_filaments (length out) then take max_filaments out else out)
