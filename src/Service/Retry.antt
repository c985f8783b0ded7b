-- ===== src/Service/Retry.antt =====
-- internal/service/service.go, `retryParked`, with `findVideo` of internal/service/helpers.go: the
-- uploads that an earlier run parked are tried once more at startup.
pub mod Kept
mod Tests
use bambu_timelapse.Prelude.{
  ℕ, ◌+◌, Bool, true, false, ◌&&◌, not, Option, none, some, List, [], ◌∷◌, if◌then◌else◌,
}
use bambu_timelapse.Go.Text.{Text, text, has_prefix, has_suffix}
use bambu_timelapse.Session.Store.{Store, JobDir}
use bambu_timelapse.Service.Metrics.{Counters}
use bambu_timelapse.Uploader.{PostResult, posted, failed}

-- What the disk and the media API answer, by the name of the parked directory: its entries and
-- which of them are directories, the result of the post, and whether it can be removed.
pub record Answers : Type 0 where
  pub listed : Bool
  pub files : Text → Option (List (Text × Bool))
  pub post : Text → PostResult
  pub removable : Text → Bool

abbrev video_in : List (Text × Bool) → Option Text
video_in [] = none
video_in ((name, is_dir) ∷ rest) =
    if not is_dir && has_suffix name (text ".mp4") then some name else video_in rest

-- `findVideo`
unfoldable pub find_video : Option (List (Text × Bool)) → Option Text
find_video none = none
find_video (some files) = video_in files

abbrev pub is_taken : PostResult → Bool
is_taken (posted ids) = true
is_taken (failed e) = false

abbrev pub has_video : Option Text → Bool
has_video none = false
has_video (some name) = true

-- The parked directory is posted again, and the post is taken.
unfoldable pub is_retried : Answers → Text → Bool
unfolding find_video
is_retried a name =
    has_prefix name (text "upload-failed-")
    && (has_video (find_video (a.files name)) && is_taken (a.post name))

module _ {A : Type 0} where
  -- The loop: what stays in the directory, and how many posts were taken.
  unfoldable pub retry_from : Answers → List (Text × JobDir A) → List (Text × JobDir A) × ℕ
  retry_from a [] = ([], 0)
  retry_from a ((name, d) ∷ rest) =
      let (left, n) = retry_from a rest in
      if is_retried a name
      then (if a.removable name then left else (name, d) ∷ left, n + 1)
      else ((name, d) ∷ left, n)

  -- `retryParked`
  unfoldable pub retry_parked : Answers → Counters → Store A → Store A × Counters
  unfolding retry_from
  retry_parked a c st =
      if not a.listed
      then (st, c)
      else let (left, n) = retry_from a st.failed in
        (record st { failed = left }, record c { uploads_ok = c.uploads_ok + n })
