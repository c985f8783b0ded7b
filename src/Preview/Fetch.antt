-- ===== src/Preview/Fetch.antt =====
-- `Fetch`, `findArchive`, `plateImage` and `readEntry` of internal/preview/preview.go, on the FTPS
-- client. A zip archive is the list of its entries, which archive/zip reads: `unzip` is its reader.
pub mod Closed
pub mod Archive
pub mod Ending
pub mod Directories
pub mod Picked
pub mod Found
pub mod Render
mod Tests
use bambu_timelapse.Prelude.{
  ℕ, ◌*◌, ◌^◌, ℤ, Option, none, some, List, [], ◌∷◌, ◌++◌, map, take, if◌then◌else◌,
}
use bambu_timelapse.Go.Text.{Text, text, text_eq, is_empty}
use bambu_timelapse.Ftps.{
  Client, Outcome, ok, failed, and_then, Channel, dial, close, listed, retrieve,
}
use bambu_timelapse.Preview.{archives_in, choose, search_dirs, pick_plate, plate_number}

-- `previewLimit`
abbrev pub preview_limit : ℕ
preview_limit = 8 * 2 ^ 20

-- An entry of the archive: the error of opening it, its bytes, and the error of reading or closing
-- it.
pub record Entry : Type 0 where
  pub name : Text
  pub unopened : Option Text
  pub body : Text
  pub cut : Option Text

abbrev entry_error : Entry → Text → Text
entry_error e why = text "3mf " ++ (e.name ++ (text ": " ++ why))

abbrev entry_body : Entry → Option Text → Option Text → Outcome Text
entry_body e (some why) cut = failed (entry_error e why)
entry_body e none (some why) = failed (entry_error e why)
entry_body e none none = ok (take preview_limit e.body)

-- `readEntry`
unfoldable pub read_entry : Entry → Outcome Text
read_entry e = entry_body e e.unopened e.cut

abbrev pub no_render : Text
no_render = text "3mf carries no plate render"

-- The loop over the entries.
unfoldable pub entry_named : Text → List Entry → Outcome Text
unfolding read_entry
entry_named wanted [] = failed no_render
entry_named wanted (e ∷ es) =
    let later = entry_named wanted es in if text_eq e.name wanted then read_entry e else later

abbrev pub name_of : Entry → Text
name_of e = e.name

abbrev pub image_in : ℤ → Outcome (List Entry) → Outcome Text
image_in plate (failed why) = failed (text "3mf: " ++ why)
image_in plate (ok es) =
    let wanted = pick_plate (map name_of es) plate in
    if is_empty wanted then failed no_render else entry_named wanted es

-- `plateImage`
unfoldable pub plate_image : (Text → Outcome (List Entry)) → Text → ℤ → Outcome Text
unfolding entry_named
plate_image unzip archive plate = image_in plate (unzip archive)

module _ (syntax : Text → Text) (join_path : Text → Text → Text) (lower : Text → Text) where
  -- The directories that are left to list, with what was found.
  unfoldable pub search :
      (Text → Channel) → List Text → List Text → Client → Client × Outcome (List Text)
  unfolding listed archives_in
  search net [] found c = (c, ok found)
  search net (dir ∷ dirs) found c =
      and_then (listed syntax net dir c)
        (λ lines c'. search net dirs (found ++ archives_in join_path dir lines) c')

  abbrev pub found_or : Option Text → Client → Client × Outcome Text
  found_or none c = (c, failed (text "no 3mf on the printer"))
  found_or (some archive) c = (c, ok archive)

  -- `findArchive`, over the connection
  unfoldable pub locate : (Text → Channel) → Text → Client → Client × Outcome Text
  unfolding search choose
  locate net job c =
      and_then (search net search_dirs [] c) (λ found c'. found_or (choose lower job found) c')

  abbrev pub named_error : Text → Client × Outcome Text → Client × Outcome Text
  named_error archive (c, failed why) =
      (c, failed (text "fetch " ++ (archive ++ (text ": " ++ why))))
  named_error archive (c, ok body) = (c, ok body)

  abbrev pub pictured : Outcome Text → Client → Client × Outcome Text
  pictured image c = (c, image)

  -- What `Fetch` does between its dial and the deferred `Close`.
  unfoldable pub fetch_with :
      (Text → Outcome (List Entry))
      → (Text → Channel)
      → Text
      → Text
      → Client
      → Client × Outcome Text
  unfolding locate retrieve plate_image
  fetch_with unzip net job gcode c = and_then (locate net job c) (λ archive c1.
      and_then (named_error archive (retrieve syntax net archive c1))
        (λ body c2. pictured (plate_image unzip body (plate_number gcode)) c2))

  -- The deferred `Close`, on a client that was dialled.
  abbrev pub closing :
      (Client → Client × Outcome Text) → Client × Outcome Unit → Client × Outcome Text
  closing run (c, failed why) = (c, failed why)
  closing run (c, ok _) = let r = run c in (close r.0, r.1)

  -- `Fetch`, on a connection that is up
  unfoldable pub fetch :
      (Text → Outcome (List Entry))
      → (Text → Channel)
      → Text
      → Text
      → Text
      → Client
      → Client × Outcome Text
  unfolding dial close fetch_with
  fetch unzip net access_code job gcode c =
      closing (fetch_with unzip net job gcode) (dial access_code c)
