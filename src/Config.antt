-- ===== src/Config.antt =====
-- internal/config/config.go: the configuration from the environment. `Env` gives a variable with the
-- space around it trimmed, and nothing for one that is not set. `quote` is the verb %q, and
-- `decode` the JSON decoder of an object of texts. An int has 64 bits, and so has a duration.
pub mod Valid
mod Tests
use bambu_timelapse.Prelude.{
  ℕ, zero, suc, ◌*◌, ◌%◌, ◌^◌, ℤ, pos, negsuc, Bool, true, false, ◌&&◌, ◌||◌, not, Option, none,
  some, List, [], ◌∷◌, ◌++◌, ltb_ℤ, ◌==◌, if◌then◌else◌,
}
use bambu_timelapse.Go.Text.{Text, text, is_empty, text_mem}
use bambu_timelapse.Go.Number.{atoi, is_digit, times}

abbrev pub Env : Type 0
Env = Text → Text

abbrev pub nanoseconds : ℕ
nanoseconds = 10 ^ 9

abbrev pub day : ℕ
day = 24 * 3600 * 10 ^ 9

-- The closures of `load`, each with the errors that it appends.
unfoldable pub required : Env → Text → Text × List Text
required env key =
    let v = env key in (v, if is_empty v then (key ++ text " is required") ∷ [] else [])

unfoldable pub sink : Bool → Env → Text → Text × List Text
unfolding required
sink need env key = if need then required env key else (env key, [])

abbrev parsed : (Text → Text) → Text → Text → ℤ → Option ℤ → ℤ × List Text
parsed quote key raw default none =
    (default, (key ++ (text ": " ++ (quote raw ++ text " is not a number"))) ∷ [])
parsed quote key raw default (some n) = (n, [])

unfoldable pub number : (Text → Text) → Env → Text → ℤ → ℤ × List Text
number quote env key default =
    let raw = env key in
    if is_empty raw then (default, []) else parsed quote key raw default (atoi raw)

-- strconv.ParseBool
unfoldable pub parse_bool : Text → Option Bool
parse_bool s =
    if text_mem s (text "1" ∷ text "t" ∷ text "T" ∷ text "true" ∷ text "TRUE" ∷ text "True" ∷ [])
    then some true
    else if text_mem s
        (text "0" ∷ text "f" ∷ text "F" ∷ text "false" ∷ text "FALSE" ∷ text "False" ∷ [])
    then some false
    else none

abbrev parsed_flag : (Text → Text) → Text → Text → Bool → Option Bool → Bool × List Text
parsed_flag quote key raw default none =
    (default, (key ++ (text ": " ++ (quote raw ++ text " is not true or false"))) ∷ [])
parsed_flag quote key raw default (some b) = (b, [])

unfoldable pub flag : (Text → Text) → Env → Text → Bool → Bool × List Text
unfolding parse_bool
flag quote env key default =
    let raw = env key in
    if is_empty raw then (default, []) else parsed_flag quote key raw default (parse_bool raw)

unfoldable pub string_or : Env → Text → Text → Text
string_or env key default = let v = env key in if not (is_empty v) then v else default

-- `megabytes`, of an int: the product is a uint64.
unfoldable pub megabytes : ℤ → ℕ
megabytes (pos n) = n * 2 ^ 20 % 2 ^ 64
megabytes (negsuc n) = 0

-- `cropSpec`: this many groups of digits, with a colon between two of them. The second argument is
-- whether the group at hand has a digit.
crop_from : ℕ → Bool → Text → Bool
crop_from zero begun [] = begun
crop_from (suc n) begun [] = false
crop_from zero begun (c ∷ s) = is_digit c && crop_from zero true s
crop_from (suc n) begun (c ∷ s) =
    let next = crop_from n false s in
    let same = crop_from (suc n) true s in if c == b':' then begun && next else is_digit c && same

unfoldable pub crop_matches : Text → Bool
unfolding crop_from
crop_matches s = crop_from 3 false s

pub record Config : Type 0 where
  pub host : Text
  pub serial : Text
  pub access_code : Text
  pub printer_name : Text
  pub api_url : Text
  pub api_token : Text
  pub api_fields : List (Text × Text)
  pub staging_dir : Text
  pub output_dir : Text
  pub fps : ℤ
  pub capture_delay : ℤ
  pub crop : Text
  pub overlay : Bool
  pub overlay_font : Text
  pub ffmpeg_bin : Text
  pub ffprobe_bin : Text
  pub preview_timeout : ℤ
  pub intro : ℤ
  pub tail : ℤ
  pub min_frames : ℤ
  pub final_delay : ℤ
  pub capture_timeout : ℤ
  pub min_free : ℕ
  pub failed_ttl : ℤ
  pub listen_addr : Text

-- `append(errs, …)`, of the errors of each call
abbrev pub all_errors : List (List Text) → List Text
all_errors [] = []
all_errors (e ∷ es) = e ++ all_errors es

-- What the decoder makes of MEDIA_API_FIELDS: the fields, or its error.
pub data Fields : Type 0 where
  fields : List (Text × Text) → Fields
  malformed : Text → Fields

abbrev decoded_fields : Fields → List (Text × Text) × List Text
decoded_fields (malformed why) =
    ([], (text "MEDIA_API_FIELDS: not a JSON object of strings: " ++ why) ∷ [])
decoded_fields (fields kvs) = (kvs, [])

abbrev pub fields_of : (Text → Fields) → Text → List (Text × Text) × List Text
fields_of decode [] = ([], [])
fields_of decode (c ∷ s) = decoded_fields (decode (c ∷ s))

abbrev pub when_bad : Bool → Text → List Text
when_bad bad message = if bad then message ∷ [] else []

abbrev pub is_negative : ℤ → Bool
is_negative n = ltb_ℤ n (pos 0)

-- The rules of `validate`, with the error of the fields.
unfoldable pub validate : (Text → Text) → List Text → Config → List Text
unfolding crop_matches
validate quote bad_fields cfg = all_errors (
    bad_fields
    ∷ when_bad (not (ltb_ℤ (pos 0) cfg.fps)) (text "TIMELAPSE_FPS must be positive")
    ∷ when_bad (is_negative cfg.capture_delay) (text "CAPTURE_DELAY must not be negative")
    ∷ when_bad (is_negative cfg.intro || is_negative cfg.tail)
        (text "INTRO_HOLD and TAIL_HOLD must not be negative")
    ∷ when_bad (not (is_empty cfg.crop) && not (crop_matches cfg.crop))
        (text "CROP: " ++ (quote cfg.crop ++ text " is not w:h:x:y (e.g. 1920:820:0:260)"))
    ∷ [])

-- The configuration that `load` resolves.
unfoldable pub resolved : (Text → Text) → (Text → Fields) → Bool → Env → Config
unfolding required sink number flag string_or megabytes
resolved quote decode need env = record {
  host = (required env (text "PRINTER_HOST")).0;
  serial = (required env (text "PRINTER_SERIAL")).0;
  access_code = (required env (text "PRINTER_ACCESS_CODE")).0;
  printer_name = string_or env (text "PRINTER_NAME") (text "printer");
  api_url = (sink need env (text "MEDIA_API_URL")).0;
  api_token = (sink need env (text "MEDIA_API_TOKEN")).0;
  api_fields = (fields_of decode (env (text "MEDIA_API_FIELDS"))).0;
  staging_dir = string_or env (text "STAGING_DIR") (text "/staging");
  output_dir = string_or env (text "OUTPUT_DIR") [];
  fps = (number quote env (text "TIMELAPSE_FPS") (pos 20)).0;
  capture_delay = times (number quote env (text "CAPTURE_DELAY") (pos 0)).0 nanoseconds;
  crop = string_or env (text "CROP") [];
  overlay = (flag quote env (text "OVERLAY") true).0;
  overlay_font = string_or env (text "OVERLAY_FONT") [];
  ffmpeg_bin = string_or env (text "FFMPEG_BIN") (text "ffmpeg");
  ffprobe_bin = string_or env (text "FFPROBE_BIN") (text "ffprobe");
  preview_timeout = times (number quote env (text "PREVIEW_TIMEOUT") (pos 20)).0 nanoseconds;
  intro = times (number quote env (text "INTRO_HOLD") (pos 2)).0 nanoseconds;
  tail = times (number quote env (text "TAIL_HOLD") (pos 2)).0 nanoseconds;
  min_frames = (number quote env (text "MIN_FRAMES") (pos 30)).0;
  final_delay = times (number quote env (text "FINAL_FRAME_DELAY") (pos 45)).0 nanoseconds;
  capture_timeout = times (number quote env (text "CAPTURE_TIMEOUT") (pos 25)).0 nanoseconds;
  min_free = megabytes (number quote env (text "MIN_FREE_MB") (pos 2048)).0;
  failed_ttl = times (number quote env (text "FAILED_TTL_DAYS") (pos 7)).0 day;
  listen_addr = string_or env (text "LISTEN_ADDR") (text ":8092");
}

-- The errors of the calls that `load` makes, in their order.
unfoldable pub errors_of : (Text → Text) → (Text → Fields) → Bool → Env → List (List Text)
unfolding required sink number flag validate resolved
errors_of quote decode need env =
    (required env (text "PRINTER_HOST")).1
    ∷ (required env (text "PRINTER_SERIAL")).1
    ∷ (required env (text "PRINTER_ACCESS_CODE")).1
    ∷ (sink need env (text "MEDIA_API_URL")).1
    ∷ (sink need env (text "MEDIA_API_TOKEN")).1
    ∷ (number quote env (text "TIMELAPSE_FPS") (pos 20)).1
    ∷ (number quote env (text "CAPTURE_DELAY") (pos 0)).1
    ∷ (flag quote env (text "OVERLAY") true).1
    ∷ (number quote env (text "PREVIEW_TIMEOUT") (pos 20)).1
    ∷ (number quote env (text "INTRO_HOLD") (pos 2)).1
    ∷ (number quote env (text "TAIL_HOLD") (pos 2)).1
    ∷ (number quote env (text "MIN_FRAMES") (pos 30)).1
    ∷ (number quote env (text "FINAL_FRAME_DELAY") (pos 45)).1
    ∷ (number quote env (text "CAPTURE_TIMEOUT") (pos 25)).1
    ∷ (number quote env (text "MIN_FREE_MB") (pos 2048)).1
    ∷ (number quote env (text "FAILED_TTL_DAYS") (pos 7)).1
    ∷ validate quote (fields_of decode (env (text "MEDIA_API_FIELDS"))).1
        (resolved quote decode need env)
    ∷ []

-- `load`: the configuration, and every error.
unfoldable pub load : (Text → Text) → (Text → Fields) → Bool → Env → Config × List Text
unfolding resolved errors_of
load quote decode need env =
    (resolved quote decode need env, all_errors (errors_of quote decode need env))
