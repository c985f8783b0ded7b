-- ===== src/Camera/Tools.antt =====
-- internal/camera/camera.go, support.go and font.go, and `targetSize` of encode.go: the command
-- lines of ffmpeg, and what the program makes of what came back. A run of a program is its output
-- and its error.
pub mod Sizes
pub mod Url
mod Tests
use bambu_timelapse.Prelude.{
  ℕ, ◌+◌, ◌-◌, ◌/◌, ◌%◌, ℤ, pos, Bool, true, false, ◌&&◌, ◌||◌, Option, none, some, List, [], ◌∷◌,
  ◌++◌, ltb, leb, ◌==◌, if◌then◌else◌, length, take,
}
use bambu_timelapse.Go.Text.{Text, text, text_mem, is_empty}
use bambu_timelapse.Go.Number.{atoi, atoi_value, is_digit}
use bambu_timelapse.Go.Strings.{split, trim_space, fields, join_host_port}

-- What a command printed, and its error.
pub record Ran : Type 0 where
  pub out : Text
  pub err : Option Text

pub record Tools : Type 0 where
  pub ffmpeg : Text
  pub ffprobe : Text

-- `NewTools`
abbrev pub new_tools : Text → Text → Tools
new_tools ffmpeg_bin ffprobe_bin = record {
  ffmpeg = if is_empty ffmpeg_bin then text "ffmpeg" else ffmpeg_bin;
  ffprobe = if is_empty ffprobe_bin then text "ffprobe" else ffprobe_bin;
}

-- url.QueryEscape
abbrev pub is_unreserved : ℕ → Bool
is_unreserved b =
    (leb b'a' b && leb b b'z')
    || ((leb b'A' b && leb b b'Z')
        || (is_digit b || (b == b'-' || (b == b'_' || (b == b'.' || b == b'~')))))

abbrev pub hex : ℕ → ℕ
hex n = if ltb n 10 then b'0' + n else b'A' + (n - 10)

abbrev pub escape_byte : ℕ → Text
escape_byte b =
    if is_unreserved b
    then b ∷ []
    else if b == b' '
    then b'+' ∷ []
    else b'%' ∷ hex (b / 16) ∷ hex (b % 16) ∷ []

unfoldable pub query_escape : Text → Text
query_escape [] = []
query_escape (b ∷ s) = escape_byte b ++ query_escape s

-- The address of the live view, of `New`.
unfoldable pub stream_url : Text → Text → Text
unfolding query_escape
stream_url host access_code =
    text "rtsps://bblp:"
    ++ (query_escape access_code
        ++ (text "@" ++ (join_host_port host (text "322") ++ text "/streaming/live/1")))

-- `truncate`
unfoldable pub truncate : Text → ℕ → Text
truncate s n = let t = trim_space s in if leb (length t) n then t else take n t

-- The arguments of `Grab`.
abbrev pub grab_args : Text → Text → List Text
grab_args url dest =
    text "-hide_banner"
    ∷ text "-loglevel"
    ∷ text "error"
    ∷ text "-y"
    ∷ text "-rtsp_transport"
    ∷ text "tcp"
    ∷ text "-tls_verify"
    ∷ text "0"
    ∷ text "-i"
    ∷ url
    ∷ text "-frames:v"
    ∷ text "1"
    ∷ text "-q:v"
    ∷ text "2"
    ∷ text "-update"
    ∷ text "1"
    ∷ dest
    ∷ []

-- The file that is left at the destination after os.Remove, which may fail.
abbrev pub removed : Bool → Option ℕ → Option ℕ
removed removable size = if removable then none else size

abbrev pub no_frame : Text
no_frame = text "grab produced no frame"

abbrev pub kept_frame : Bool → Option ℕ → Option Text × Option ℕ
kept_frame removable none = (some no_frame, removed removable none)
kept_frame removable (some size) =
    if size == 0 then (some no_frame, removed removable (some size)) else (none, some size)

abbrev pub grabbed : Text → Option Text → Bool → Option ℕ → Option Text × Option ℕ
grabbed out none removable size = kept_frame removable size
grabbed out (some why) removable size =
    (some (text "grab: " ++ (why ++ (text ": " ++ truncate out 300))), removed removable size)

-- `Grab`, after the run: its error, and the size of the file that is left. `size` is the size that
-- the run left, none where os.Stat fails.
unfoldable pub grab : Ran → Bool → Option ℕ → Option Text × Option ℕ
unfolding truncate
grab ran removable size = grabbed ran.out ran.err removable size

abbrev cropped : Text → Option Text → Option Text
cropped out none = none
cropped out (some why) = some (text "crop cover: " ++ (why ++ (text ": " ++ truncate out 300)))

abbrev pub crop_args : Text → Text → Text → List Text
crop_args src dst crop =
    text "-hide_banner"
    ∷ text "-loglevel"
    ∷ text "error"
    ∷ text "-y"
    ∷ text "-i"
    ∷ src
    ∷ text "-vf"
    ∷ (text "crop=" ++ crop)
    ∷ text "-q:v"
    ∷ text "2"
    ∷ text "-update"
    ∷ text "1"
    ∷ dst
    ∷ []

-- `Crop`: the command, if it runs one, and the error.
unfoldable pub crop_image :
    (List Text → Ran) → Text → Text → Text → Option (List Text) × Option Text
unfolding truncate
crop_image run src dst crop =
    if is_empty crop
    then (none, none)
    else let args = crop_args src dst crop in
      let ran = run args in (some args, cropped ran.out ran.err)

abbrev pub dimension_args : Text → List Text
dimension_args path =
    text "-v"
    ∷ text "error"
    ∷ text "-select_streams"
    ∷ text "v:0"
    ∷ text "-show_entries"
    ∷ text "stream=width,height"
    ∷ text "-of"
    ∷ text "csv=p=0:s=x"
    ∷ path
    ∷ []

abbrev unknown : ℤ × ℤ
unknown = (pos 0, pos 0)

abbrev pub pair_of : List Text → ℤ × ℤ
pair_of (w ∷ h ∷ []) = (atoi_value w, atoi_value h)
pair_of _ = unknown

abbrev pub measured_by : Text → Option Text → ℤ × ℤ
measured_by out none = pair_of (split b'x' (trim_space out))
measured_by out (some why) = unknown

-- `Dimensions`, of the run of ffprobe
unfoldable pub dimensions : Ran → ℤ × ℤ
dimensions ran = measured_by ran.out ran.err

abbrev both : Option ℤ → Option ℤ → ℤ × ℤ
both none h = unknown
both (some w) none = unknown
both (some w) (some h) = (w, h)

abbrev crop_size : List Text → ℤ × ℤ
crop_size (w ∷ h ∷ rest) = both (atoi w) (atoi h)
crop_size _ = unknown

-- `targetSize`; `probed` is the run of ffprobe on the first frame.
unfoldable pub target_size : Ran → Text → ℤ × ℤ
unfolding dimensions
target_size probed crop = if is_empty crop then dimensions probed else crop_size (split b':' crop)

abbrev pub filter_names : List Text
filter_names = text "drawtext" ∷ text "sendcmd" ∷ text "tpad" ∷ text "concat" ∷ []

abbrev pub filter_of : List Text → Option Text
filter_of (flags ∷ name ∷ rest) = if text_mem name filter_names then some name else none
filter_of _ = none

abbrev put_filter : Option Text → List Text → List Text
put_filter none filters = filters
put_filter (some name) filters = name ∷ filters

unfoldable pub filters_in : List Text → List Text
filters_in [] = []
filters_in (line ∷ lines) = put_filter (filter_of (fields line)) (filters_in lines)

-- `parseFilters`: the keys of the map
unfoldable pub parse_filters : Text → List Text
unfolding filters_in
parse_filters out = filters_in (split 10 out)

-- `Support`; `filters` are the keys of its map.
pub record Support : Type 0 where
  pub ffmpeg : Text
  pub ffprobe : Text
  pub filters : List Text

-- `Has`
unfoldable pub has_filter : Support → Text → Bool
has_filter sup filter = text_mem filter sup.filters

abbrev pub listed_filters : Text → Option Text → List Text
listed_filters out none = parse_filters out
listed_filters out (some why) = []

-- `Detect`. `look` is exec.LookPath, which gives nothing for a program that it does not find, and
-- `run` a run of ffmpeg.
unfoldable pub detect : (Text → Text) → (List Text → Ran) → Tools → Support
unfolding parse_filters
detect look run tools =
    let path = look tools.ffmpeg in
    let ran = run (text "-hide_banner" ∷ text "-filters" ∷ []) in
    record {
      ffmpeg = path;
      ffprobe = look tools.ffprobe;
      filters = if is_empty path then [] else listed_filters ran.out ran.err;
    }

abbrev pub written_font : Text → Option Text → Option Text × Bool
written_font path none = (some path, true)
written_font path (some why) = (none, true)

abbrev same_size : ℕ → Option ℕ → Bool
same_size size none = false
same_size size (some n) = n == size

-- `BundledFont`: the path, if there is one, and whether it writes. `size` is the font's, `there`
-- the size of a file at the path, and `why` the error of the write.
unfoldable pub bundled_font : Text → ℕ → Option ℕ → Option Text → Option Text × Bool
bundled_font path size there why =
    if same_size size there then (some path, false) else written_font path why
