-- ===== src/Service/Finalize.antt =====
-- internal/service/service.go, `finalize`, `coverFrame`, `encode` and `deliverLocally`: what becomes
-- of a session whose print has ended. `Host` holds the answers of everything that is called on the
-- way: the camera, ffmpeg, the file system and the media API.
pub mod Attempts
pub mod Fate
use bambu_timelapse.Prelude.{
  ℕ, zero, suc, ◌+◌, ◌-◌, ◌*◌, ◌^◌, ℤ, pos, Bool, true, false, ◌&&◌, ◌||◌, not, Option, none, some,
  List, [], ◌∷◌, ltb_ℤ, ◌==◌, if◌then◌else◌,
}
use bambu_timelapse.Go.Text.{Text, text}
use bambu_timelapse.Session.{Session}
use bambu_timelapse.Session.Store.{Store, JobDir, dir_at, discard, park}
use bambu_timelapse.Uploader.{PostResult, posted, failed}
use bambu_timelapse.Service.{second}
use bambu_timelapse.Service.Metrics.{Counters}

abbrev pub upload_attempts : ℕ
upload_attempts = 3

-- The configuration that finalisation reads.
pub record Settings : Type 0 where
  pub has_api : Bool
  pub has_crop : Bool
  pub min_frames : ℤ
  pub once : Bool
  pub overlay : Bool
  pub has_font : Bool

pub record Host : Type 0 where
  -- `cam.Grab` and `tools.Crop` for the cover
  pub grabbed : Bool
  pub cropped : Bool
  -- `tools.Encode` with the caption, and without
  pub encoded : Bool
  pub encoded_plain : Bool
  -- `MkdirAll` of the output directory and `move` of the video into it
  pub output_made : Bool
  pub moved : Bool
  -- what each attempt to post returns
  pub answer : ℕ → PostResult
  -- the clock when the post was taken
  pub now : ℕ
  -- whether a shutdown is under way
  pub stopping : Bool
  -- whether the file system lets a directory be renamed
  pub renamed : Bool

pub data Cover : Type 0 where
  no_cover last_frame closing_shot : Cover
  cropped_from : Cover → Cover

pub data Outcome : Type 0 where
  too_few encode_failed output_unwritable recorded uploaded upload_failed : Outcome

-- The posts of one finalisation: what each returned, in order, and how long was waited after it.
pub record Upload : Type 0 where
  pub sent : Bool
  pub attempts : ℕ
  pub waited : ℕ

abbrev pub wait_after : Host → ℕ → ℕ
wait_after h attempt = if h.stopping then 0 else 5 * 2 ^ attempt * second

abbrev pub after_wait : ℕ → Upload → Upload
after_wait t u = record u { waited = t + u.waited }

abbrev pub stop_at : ℕ → Bool → Upload
stop_at attempt sent = record { sent = sent; attempts = attempt; waited = 0 }

-- One round: stop on success and on a failure that every retry would meet again; else wait and go
-- on with `rest`.
abbrev pub after_answer : Host → ℕ → PostResult → Upload → Upload
after_answer h attempt (posted ids) rest = stop_at attempt true
after_answer h attempt (failed e) rest =
    if not e.retryable then stop_at attempt false else after_wait (wait_after h attempt) rest

-- The loop of `finalize`, with the rounds that are left: `attempt` counts from 1.
unfoldable pub upload_from : ℕ → ℕ → Host → Upload
upload_from zero attempt h = record { sent = false; attempts = attempt - 1; waited = 0 }
upload_from (suc left) attempt h =
    after_answer h attempt (h.answer attempt) (upload_from left (attempt + 1) h)

unfoldable pub upload : Host → Upload
unfolding upload_from
upload h = upload_from upload_attempts 1 h

-- `encode`: once more without the caption, if there was one.
unfoldable pub encode : Settings → Host → Bool
encode cfg h = h.encoded || ((cfg.overlay && cfg.has_font) && h.encoded_plain)

unfoldable pub nat_mem : ℕ → List ℕ → Bool
nat_mem n [] = false
nat_mem n (k ∷ ks) = (n == k) || nat_mem n ks

abbrev pub shot : Bool → Host → Cover
shot skip h = if skip then last_frame else if h.grabbed then closing_shot else last_frame

module _ {A : Type 0} where
  abbrev pub stills_of : Option (JobDir A) → List ℕ
  stills_of none = []
  stills_of (some d) = d.stills

  -- os.Stat on the file that a cover is
  abbrev pub cover_there : Cover → Session A → Store A → Bool
  cover_there last_frame s st = nat_mem s.frames (stills_of (dir_at s.dir st))
  cover_there _ s st = true

  -- `coverFrame`
  unfoldable pub cover_frame : Settings → Host → Bool → Session A → Store A → Cover
  unfolding nat_mem
  cover_frame cfg h skip s st =
      let cover = shot skip h in
      if not (cover_there cover s st)
      then no_cover
      else if not cfg.has_crop
      then cover
      else if h.cropped
      then cropped_from cover
      else cover

-- What `finalize` leaves behind.
pub record Result (A : Type 0) : Type 0 where
  pub store : Store A
  pub session : Session A
  pub counters : Counters
  pub outcome : Outcome
  -- whether it stops the service, after the one print of `record -once`
  pub stops : Bool

module _ {A : Type 0} where
  abbrev pub discarded : Outcome → Counters → Session A → Store A → Result A
  discarded o c s st = record {
    store = discard s st;
    session = s;
    counters = c;
    outcome = o;
    stops = false;
  }

  abbrev pub parked_for : Text → Outcome → Host → Counters → Session A → Store A → Result A
  parked_for reason o h c s st =
      let (st', (s', ok)) = park h.renamed s reason st in
      record { store = st'; session = s'; counters = c; outcome = o; stops = false }

  -- `deliverLocally`, but for its files, which are in Service.Files.Local: neither the move of the
  -- cover nor the writing of the caption, which come after that of the video, decides anything here.
  unfoldable pub deliver_locally : Settings → Host → Counters → Session A → Store A → Result A
  deliver_locally cfg h c s st =
      if not h.output_made
      then parked_for (text "output-unwritable") output_unwritable h c s st
      else if not h.moved
      then parked_for (text "output-unwritable") output_unwritable h c s st
      else record {
        store = discard s st;
        session = s;
        counters = record c { uploads_local = c.uploads_local + 1 };
        outcome = recorded;
        stops = cfg.once;
      }

  unfoldable pub deliver_remotely : Host → Counters → Session A → Store A → Result A
  deliver_remotely h c s st =
      if (upload h).sent
      then discarded uploaded (record c { uploads_ok = c.uploads_ok + 1 }) s st
      else parked_for (text "upload-failed") upload_failed h
          (record c { uploads_failed = c.uploads_failed + 1 }) s st

  -- `finalize`
  unfoldable pub finalize : Settings → Host → Counters → Session A → Store A → Result A
  unfolding deliver_locally deliver_remotely
  finalize cfg h c s st =
      if ltb_ℤ (pos s.frames) cfg.min_frames
      then discarded too_few (record c { uploads_skipped = c.uploads_skipped + 1 }) s st
      else if not (encode cfg h)
      then parked_for (text "encode-failed") encode_failed h
          (record c { uploads_failed = c.uploads_failed + 1 }) s st
      else if not cfg.has_api
      then deliver_locally cfg h c s st
      else deliver_remotely h c s st
