-- ===== src/Preview/Fetch/Tests.antt =====
-- A fetch of a preview on a small printer.
use bambu_timelapse.Prelude.{
  ℕ, zero, suc, Bool, true, false, Option, none, some, List, [], ◌∷◌, ◌++◌, ◌≡◌, refl, replicate,
  if◌then◌else◌,
}
use bambu_timelapse.Go.Text.{Text, text, text_eq, has_prefix, has_suffix, contains}
use bambu_timelapse.Go.Number.{itoa, digits, digits_onto, atoi, parse_nat, parse_digits}
use bambu_timelapse.Go.Strings.{
  index_of, split, byte_mem, all_in, trim_end, trim_left, all_blank, trim_right, trim_space,
}
use bambu_timelapse.Ftps.{
  Client, Outcome, ok, crlf, redact, final, read_reply, read_from, command, expect, log_in, dial,
  close, pasv_addr, Channel, exchange, transfer, lines_of, listed, retrieve,
}
use bambu_timelapse.Ftps.Whole.{Yields}
use bambu_timelapse.Preview.{
  search_dirs, archives_in, listed_file, is_3mf, choose, named_or, pick_plate, pick_from,
  plate_number, plate_from_gcode,
}
use bambu_timelapse.Preview.Fetch.{
  Entry, read_entry, entry_named, plate_image, search, locate, fetch_with, fetch,
}
use bambu_timelapse.Preview.Fetch.Archive.{value, Answers}
use bambu_timelapse.Preview.Fetch.Found.{IsFound, locate-IsFound}
use bambu_timelapse.Preview.Fetch.Closed.{fetch-closed}
use bambu_timelapse.Preview.Fetch.Render.{IsFetched, fetch-Yields}

abbrev fine : Text
fine = text "200 fine" ++ crlf

abbrev data_lines : ℕ → List Text
data_lines zero = fine ∷ []
data_lines (suc n) =
    (text "227 (0,0,0,0,7," ++ (digits n ++ (text ")" ++ crlf)))
    ∷ (text "150 opening" ++ crlf)
    ∷ fine
    ∷ data_lines n

abbrev printer : Client
printer = record {
  host = text "10.0.0.9";
  lines = replicate 6 fine ++ data_lines 5;
  ended = text "EOF";
  writes = [];
  acts = [];
  plain = 0;
  closed = 0;
}

-- The archive is listed in the last directory only, and read over the last connection.
abbrev body_at : Bool → Bool → Text
body_at true _ = text "archive"
body_at false true = text "-rw 1 2 part.3mf" ++ crlf
body_at false false = []

abbrev channel : Text → Channel
channel addr = record {
  refused = none;
  handshake = none;
  resumed = true;
  body = body_at (text_eq addr (text "10.0.0.9:1792")) (text_eq addr (text "10.0.0.9:1793"));
  cut = none;
}

abbrev same : Text → Text
same s = s

abbrev joined : Text → Text → Text
joined dir name = dir ++ name

abbrev entry : Text → Text → Entry
entry name body = record { name = name; unopened = none; body = body; cut = none }

abbrev unzip : Text → Outcome (List Entry)
unzip archive = ok (
    entry (text "Metadata/plate_1.png") (text "one")
    ∷ entry (text "Metadata/plate_2.png") (text "two")
    ∷ [])

fetched :
    (fetch same joined same unzip channel
      (text "code")
      []
      (text "/data/Metadata/plate_2.gcode")
      printer).1
    ≡ ok (text "two")
unfolding fetch fetch_with locate search dial log_in expect command read_from read_reply final
    trim_end all_in byte_mem redact has_prefix has_suffix contains text_eq listed retrieve transfer
    exchange pasv_addr index_of split trim_space trim_left trim_right all_blank atoi parse_nat
    parse_digits itoa digits digits_onto lines_of archives_in listed_file is_3mf choose named_or
    pick_plate pick_from plate_number plate_from_gcode plate_image entry_named read_entry close
fetched = refl

fetch-closed_example :
    ((fetch same joined same unzip channel (text "code") [] [] printer).0.closed ≡ 1)
    × ((fetch same joined same unzip channel (text "code") [] [] printer).0.plain ≡ 0)
fetch-closed_example = fetch-closed same joined same unzip channel (text "code") [] [] printer

fetch-Yields_example :
    Yields
      (IsFetched unzip channel [])
      (fetch same joined same unzip channel (text "code") [] [] printer)
fetch-Yields_example = fetch-Yields same joined same unzip channel (text "code") [] [] printer

-- The connection once the login is over.
abbrev logged_in : Client
logged_in = record printer { lines = data_lines 5 }

-- What the small printer lists.
abbrev listing : Text → Option (List Text)
listing dir = if text_eq dir (text "/model/") then some (text "-rw 1 2 part.3mf" ∷ []) else some []

lists : Answers same joined same channel listing search_dirs logged_in
unfolding expect command read_from read_reply final trim_end all_in byte_mem redact has_prefix
    has_suffix contains text_eq listed transfer exchange pasv_addr index_of split trim_space
    trim_left trim_right all_blank atoi parse_nat parse_digits itoa digits digits_onto lines_of
lists = (refl, (refl, (refl, (refl, tt))))

locate-IsFound_example :
    IsFound same joined same listing
      (text "part")
      (value (locate same joined same channel (text "part") logged_in).1)
locate-IsFound_example =
    locate-IsFound same joined same channel listing (text "part") logged_in lists
