-- ===== src/Service/Files/Tests.antt =====
-- A video that is moved to another file system, and what the other calls come to.
use bambu_timelapse.Prelude.{ℤ, pos, negsuc, ◌≡◌, refl, Bool, ◌≢◌, true, false, none, some, [], ◌∷◌}
use bambu_timelapse.Go.Text.{Text, text, text_eq, text_ne, has_prefix, has_suffix}
use bambu_timelapse.Go.Float.{whole}
use bambu_timelapse.Session.{Session}
use bambu_timelapse.Session.Dirs.{Files, get, put, remove}
use bambu_timelapse.Session.Store.{Store, new_session}
use bambu_timelapse.Service.Metrics.{Counters}
use bambu_timelapse.Service.Lifecycle.{lacks_space}
use bambu_timelapse.Service.{Options}
use bambu_timelapse.Service.Finalize.{Settings, Host, deliver_locally}
use bambu_timelapse.Service.Files.{
  Disk, copy_across, move, staging_writable, read_caption, free_bytes, free_bytes_windows,
}
use bambu_timelapse.Service.Files.Delivery.{IsAside, IsDelivered, moving, deliver_files-Kept}
use bambu_timelapse.Service.Files.Local.{Local, Paths, base_of, deliver_files}
use bambu_timelapse.Uploader.{posted}

abbrev video : Text
video = text "job-7001/a.mp4"

abbrev saved : Text
saved = text "out/a.mp4"

abbrev other : Text
other = text "out/b.mp4"

abbrev files : Files
files = (video, 1 ∷ 2 ∷ 3 ∷ []) ∷ (other, 9 ∷ []) ∷ []

-- Staging and the output directory are on two file systems.
abbrev disk : Disk
disk = record {
  renames = false;
  absent = text "no such file";
  open_error = none;
  create_error = none;
  copy_error = none;
  close_error = none;
  remove_error = none;
  landed = 1;
}

abbrev full : Disk
full = record disk { close_error = some (text "no space left on device") }

moved_over : move disk video saved files ≡ ((other, 9 ∷ []) ∷ (saved, 1 ∷ 2 ∷ 3 ∷ []) ∷ [], none)
unfolding move copy_across get put remove text_eq
moved_over = refl

left_behind : move full video saved files ≡ (
  (video, 1 ∷ 2 ∷ 3 ∷ []) ∷ (other, 9 ∷ []) ∷ (saved, 1 ∷ []) ∷ [],
  some (text "no space left on device"),
)
unfolding move copy_across get put remove text_eq
left_behind = refl

abbrev settings : Settings
settings = record {
  has_api = false;
  has_crop = false;
  min_frames = pos 1;
  once = true;
  overlay = false;
  has_font = false;
}

abbrev host : Host
host = record {
  grabbed = true;
  cropped = true;
  encoded = true;
  encoded_plain = true;
  output_made = true;
  moved = false;
  answer = λ n. posted [];
  now = 9;
  stopping = false;
  renamed = true;
}

abbrev counters : Counters
counters = record {
  frames_captured = 0;
  capture_failures = 0;
  uploads_ok = 0;
  uploads_failed = 0;
  uploads_skipped = 0;
  uploads_local = 0;
}

abbrev store : Store ℤ
store = record { jobs = []; failed = [] }

abbrev session : Session ℤ
session = new_session 0 (text "7001") (text "benchy") (pos 3) (pos 1)

abbrev ext : Text → Text
ext path = text ".mp4"

-- The cover and the caption are lost, the job's directory is deleted.
abbrev local : Local
local = record { made = true; video_disk = disk; cover_disk = full; noted = λ caption. none }

abbrev in_job : Text → Bool
in_job path = has_prefix path (text "job-7001/")

abbrev paths : Paths
paths = record {
  video = video;
  dest = saved;
  cover = some (text "job-7001/cover.jpg");
  in_job = in_job;
}

aside :
    (q : Text)
    → text_eq (text "job-7001/cover.jpg") q ≡ false
    → q ≢ text "out/a-cover.jpg"
    → q ≢ text "out/a.txt"
    → in_job q ≡ false
    → IsAside ext paths q
unfolding base_of has_suffix text_eq
aside q h1 h2 h3 h4 = record {
  from_cover = λ e. text_ne (text "job-7001/cover.jpg") q h1 (some_inj e);
  from_cover_dest = h2;
  from_note = h3;
  from_job = h4;
}
  where
    some_inj : {a b : Text} → some a ≡ some b → a ≡ b
    some_inj e = cc

saved-IsAside : IsAside ext paths saved
unfolding text_eq has_prefix
saved-IsAside =
    aside saved refl (text_ne saved (text "out/a-cover.jpg") refl)
      (text_ne saved (text "out/a.txt") refl) refl

other-IsAside : IsAside ext paths other
unfolding text_eq has_prefix
other-IsAside =
    aside other refl (text_ne other (text "out/a-cover.jpg") refl)
      (text_ne other (text "out/a.txt") refl) refl

deliver_files-Kept_example :
    let r = deliver_files ext local paths (text "caption") files in
    IsDelivered paths
      (1 ∷ 2 ∷ 3 ∷ [])
      (deliver_locally settings (moving host local paths files) counters session store).outcome
      r
    × (get other r.0 ≡ get other files)
unfolding get text_eq
deliver_files-Kept_example =
    deliver_files-Kept ext local paths (text "caption") (1 ∷ 2 ∷ 3 ∷ []) other settings host
      counters session store files (text_ne video saved refl) saved-IsAside
      (text_ne other video refl) (text_ne other saved refl) other-IsAside refl

delivered :
    deliver_files ext local paths (text "caption") files
    ≡ ((other, 9 ∷ []) ∷ (saved, 1 ∷ 2 ∷ 3 ∷ []) ∷ [], true)
unfolding deliver_files move copy_across get put remove text_eq base_of has_prefix has_suffix
delivered = refl

-- A block size below zero counts as a full disk, not as an unknown one.
negative_block_size :
    (cfg : Options) → cfg.min_free ≡ 1 → lacks_space cfg (free_bytes (some (7, negsuc 0))) ≡ true
unfolding free_bytes
negative_block_size cfg h = rw h refl

wrapped : free_bytes (some (3, pos 9223372036854775808)) ≡ some 9223372036854775808
unfolding free_bytes
wrapped = refl

no_path : free_bytes_windows false (some 7) ≡ none
unfolding free_bytes_windows
no_path = refl

probe_left : staging_writable none (some (text "busy")) ≡ (true, some (text "busy"))
unfolding staging_writable
probe_left = refl

no_caption : read_caption none ≡ []
unfolding read_caption
no_caption = refl
