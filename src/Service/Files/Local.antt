-- ===== src/Service/Files/Local.antt =====
-- `deliverLocally` of internal/service/service.go on the files: what it moves, writes and deletes.
-- What becomes of the session and the counters is `deliver_locally` of Service.Finalize.
use bambu_timelapse.Prelude.{
  ◌-◌, Bool, true, false, not, Option, none, some, ◌++◌, if◌then◌else◌, length, take, dropped,
}
use bambu_timelapse.Go.Text.{Text, text, has_suffix}
use bambu_timelapse.Session.Dirs.{Files, put}
use bambu_timelapse.Service.Files.{Disk, move}

-- What the system answers: whether the output directory can be made, the calls of the two moves, and
-- what of the caption its file then holds, if that could be opened.
pub record Local : Type 0 where
  pub made : Bool
  pub video_disk : Disk
  pub cover_disk : Disk
  pub noted : Text → Option Text

-- The paths: the video, where it goes, its cover if there is one, and which paths are in the job's
-- directory.
pub record Paths : Type 0 where
  pub video : Text
  pub dest : Text
  pub cover : Option Text
  pub in_job : Text → Bool

-- strings.TrimSuffix(dest, filepath.Ext(dest))
unfoldable pub base_of : (Text → Text) → Text → Text
base_of ext dest =
    if has_suffix dest (ext dest) then take (length dest - length (ext dest)) dest else dest

abbrev pub cover_dest : (Text → Text) → Text → Text
cover_dest ext dest = base_of ext dest ++ text "-cover.jpg"

abbrev pub note_dest : (Text → Text) → Text → Text
note_dest ext dest = base_of ext dest ++ text ".txt"

-- A cover that cannot be moved is only warned of.
abbrev pub cover_moved : Disk → Text → Option Text → Files → Files
cover_moved d dst none fs = fs
cover_moved d dst (some cover) fs = (move d cover dst fs).0

abbrev pub noted_in : Text → Option Text → Files → Files
noted_in path none fs = fs
noted_in path (some held) fs = put path held fs

-- With the video moved: the cover, the caption, and `Discard`.
abbrev pub after_video : (Text → Text) → Local → Paths → Text → Files × Option Text → Files × Bool
after_video ext l p caption (fs, some why) = (fs, false)
after_video ext l p caption (fs, none) = (
  dropped (λ x. p.in_job x.0)
      (noted_in (note_dest ext p.dest) (l.noted caption)
        (cover_moved l.cover_disk (cover_dest ext p.dest) p.cover fs)),
  true,
)

-- The files afterwards, and whether the job is recorded. One that is not is parked.
unfoldable pub deliver_files : (Text → Text) → Local → Paths → Text → Files → Files × Bool
unfolding move base_of
deliver_files ext l p caption fs =
    if not l.made
    then (fs, false)
    else after_video ext l p caption (move l.video_disk p.video p.dest fs)
