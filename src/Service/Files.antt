-- ===== src/Service/Files.antt =====
-- The calls of the file system in internal/service/helpers.go, helpers_unix.go and
-- helpers_windows.go. What the system answers to each call is an argument.
pub mod Kept
pub mod Local
pub mod Delivery
mod Tests
use bambu_timelapse.Prelude.{
  ℕ, ◌*◌, ◌%◌, ◌^◌, ℤ, pos, negsuc, Bool, true, false, Option, none, some, [], if◌then◌else◌, take,
}
use bambu_timelapse.Go.Text.{Text, text_eq}
use bambu_timelapse.Session.Dirs.{Files, get, put, remove}

-- What the file system answers to the calls of one `move`: whether it renames from one directory to
-- the other, the error of each other call, if any, and how much of the video a destination keeps
-- whose writing or closing fails.
pub record Disk : Type 0 where
  pub renames : Bool
  pub absent : Text
  pub open_error : Option Text
  pub create_error : Option Text
  pub copy_error : Option Text
  pub close_error : Option Text
  pub remove_error : Option Text
  pub landed : ℕ

-- `if err != nil { return err }`, with the files as they are then.
abbrev pub unless : Option Text → Files → Files × Option Text → Files × Option Text
unless (some why) fs rest = (fs, some why)
unless none fs rest = rest

-- What can be read of the source once the destination is truncated: nothing if they are one file.
abbrev pub read_after : Text → Text → Text → Text
read_after src dst body = if text_eq src dst then [] else body

-- From the opening of the destination.
unfoldable pub copy_across : Disk → Text → Text → Text → Files → Files × Option Text
copy_across d src dst body fs =
    let kept = put dst (take d.landed (read_after src dst body)) fs in
    let whole = put dst (read_after src dst body) fs in
    unless d.create_error fs (
      unless d.copy_error kept
        (unless d.close_error kept (unless d.remove_error whole (remove src whole, none))))

-- With what the source holds, if it is there: one that is absent is neither renamed nor opened.
abbrev pub move_from : Disk → Text → Text → Files → Option Text → Files × Option Text
move_from d src dst fs none = (fs, some d.absent)
move_from d src dst fs (some body) =
    if d.renames
    then (put dst body (remove src fs), none)
    else unless d.open_error fs (copy_across d src dst body fs)

-- `move`
unfoldable pub move : Disk → Text → Text → Files → Files × Option Text
unfolding copy_across get
move d src dst fs = move_from d src dst fs (get src fs)

-- `stagingWritable`, with the errors of writing and of removing the probe.
unfoldable pub staging_writable : Option Text → Option Text → Bool × Option Text
staging_writable (some why) _ = (false, some why)
staging_writable none left = (true, left)

-- `readCaption`, with what the file holds if it can be read.
unfoldable pub read_caption : Option Text → Text
read_caption none = []
read_caption (some body) = body

-- `freeBytes` on Unix, with the blocks and the block size of statfs if it answers: a product of 64
-- bits, and zero for a negative size.
unfoldable pub free_bytes : Option (ℕ × ℤ) → Option ℕ
free_bytes none = none
free_bytes (some (blocks, pos size)) = some (blocks * size % 2 ^ 64)
free_bytes (some (blocks, negsuc size)) = some 0

-- `freeBytes` on Windows: whether the path has no zero byte, and what the system answers.
unfoldable pub free_bytes_windows : Bool → Option ℕ → Option ℕ
free_bytes_windows false answer = none
free_bytes_windows true answer = answer
