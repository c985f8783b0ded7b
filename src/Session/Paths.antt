-- ===== src/Session/Paths.antt =====
-- The paths of internal/session/session.go: `FramePath` and `PreviewPath`.
use bambu_timelapse.Prelude.{
  ℕ, ◌+◌, ◌-◌, Option, none, some, [], ◌++◌, ◌==◌, if◌then◌else◌, length, replicate,
}
use bambu_timelapse.Go.Text.{Text, text}
use bambu_timelapse.Go.Number.{digits}

-- `%05d`
unfoldable pub five_digits : ℕ → Text
five_digits n = replicate (5 - length (digits n)) b'0' ++ digits n

module _ (join_path : Text → Text → Text) where
  -- `FramePath`, in a directory and after so many frames
  unfoldable pub frame_path : Text → ℕ → Text
  unfolding five_digits
  frame_path dir frames = join_path dir (text "frame-" ++ (five_digits (frames + 1) ++ text ".jpg"))

  -- `PreviewPath`, with the size of the file if it is there
  unfoldable pub preview_path : Text → Option ℕ → Text
  preview_path dir none = []
  preview_path dir (some size) = if size == 0 then [] else join_path dir (text "preview.png")
