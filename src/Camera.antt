-- ===== src/Camera.antt =====
-- internal/camera/encode.go: the caption of the final encode, and what it is made with. Durations are
-- nanoseconds; one below zero holds nothing, as one of zero does.
pub mod Plain
pub mod Encode
pub mod Tools
mod Tests
use bambu_timelapse.Prelude.{
  ℕ, ◌+◌, ◌/◌, ◌%◌, ◌^◌, ℤ, pos, Bool, false, ◌&&◌, ◌||◌, not, Option, none, some, List, [], ◌∷◌,
  ◌++◌, map, ltb, leb, ◌==◌, if◌then◌else◌,
}
use bambu_timelapse.Go.Text.{Text, text, is_empty, encode_rune}
use bambu_timelapse.Go.Number.{digits, itoa}
use bambu_timelapse.Go.Utf8.{runes}
use bambu_timelapse.Go.Float.{Float}

pub record Overlay : Type 0 where
  pub font_file : Text
  pub title : Text
  pub lines : List Text

pub record Still : Type 0 where
  pub path : Text
  pub hold : ℕ

abbrev pub shown : Still → Bool
shown s = not (is_empty s.path) && ltb 0 s.hold

pub record EncodeOptions : Type 0 where
  pub fps : ℕ
  pub crop : Text
  pub intro : Still
  pub outro : Still
  pub tail_hold : ℕ
  pub overlay : Option Overlay

-- `dropped` of `overlayText`, as runes
abbrev pub dropped : List ℕ
dropped = b'\\' ∷ b'\'' ∷ b':' ∷ b'%' ∷ b',' ∷ b';' ∷ b'[' ∷ b']' ∷ b'=' ∷ []

unfoldable pub rune_mem : ℕ → List ℕ → Bool
rune_mem r [] = false
rune_mem r (c ∷ cs) = (r == c) || rune_mem r cs

abbrev pub plain_rune : ℕ → ℕ
plain_rune r = if ltb r b' ' || rune_mem r dropped then b' ' else r

-- unicode.IsSpace
abbrev pub is_space : ℕ → Bool
is_space r =
    (leb 9 r && leb r 13)
    || (rune_mem r (0x20 ∷ 0x85 ∷ 0xa0 ∷ 0x1680 ∷ 0x2028 ∷ 0x2029 ∷ 0x202f ∷ 0x205f ∷ 0x3000 ∷ [])
        || (leb 0x2000 r && leb r 0x200a))

-- strings.TrimSpace, on runes: from the left, and from the right.
unfoldable pub trim_left : List ℕ → List ℕ
trim_left [] = []
trim_left (r ∷ rs) = let rest = trim_left rs in if is_space r then rest else r ∷ rs

abbrev cons_unless_blank : ℕ → List ℕ → List ℕ
cons_unless_blank r [] = if is_space r then [] else r ∷ []
cons_unless_blank r (q ∷ qs) = r ∷ q ∷ qs

unfoldable pub trim_right : List ℕ → List ℕ
trim_right [] = []
trim_right (r ∷ rs) = cons_unless_blank r (trim_right rs)

unfoldable pub encode_runes : List ℕ → Text
encode_runes [] = []
encode_runes (r ∷ rs) = encode_rune r ++ encode_runes rs

-- `overlayText`
unfoldable pub overlay_text : Text → Text
unfolding trim_left trim_right encode_runes
overlay_text s = encode_runes (trim_right (trim_left (map plain_rune (runes s))))

abbrev pub title_filter : Text
title_filter = text "drawtext@title"

abbrev pub counter_filter : Text
counter_filter = text "drawtext@counter"

-- One line of `stillChain`.
unfoldable pub still_chain : ℕ → Text → ℤ → ℤ → ℕ → Text
still_chain input label width height fps =
    text ";["
    ++ (digits input
        ++ (text ":v]scale="
            ++ (itoa width
                ++ (text ":"
                    ++ (itoa height
                        ++ (text ":force_original_aspect_ratio=decrease,pad="
                            ++ (itoa width
                                ++ (text ":"
                                    ++ (itoa height
                                        ++ (text
                                              ":(ow-iw)/2:(oh-ih)/2:color=black,format=yuv420p,setsar=1,fps="
                                            ++ (digits fps
                                                ++ (text "[" ++ (label ++ text "]")))))))))))))

module _ (A : Type 0) ⦃f : Float A⦄ where
  -- `seconds`
  unfoldable pub seconds : ℕ → Text
  seconds d = f.shortest (
      f.add (f.of_int (pos (d / 10 ^ 9)))
        (f.div (f.of_int (pos (d % 10 ^ 9))) (f.of_int (pos (10 ^ 9)))))

  -- The lines of `writeCommands`, from the frame `i` on.
  unfoldable pub commands_from : ℕ → ℕ → List Text → Text
  commands_from fps i [] = []
  commands_from fps i (line ∷ rest) =
      let at = f.div (f.sub (f.of_int (pos i)) f.quarter) (f.of_int (pos fps)) in
      f.fixed 3 (if f.lt at f.zero then f.zero else at)
      ++ (text " "
          ++ (counter_filter
              ++ (text " text '"
                  ++ (overlay_text line ++ (text "';" ++ (10 ∷ commands_from fps (i + 1) rest))))))

  -- What `writeCommands` writes.
  unfoldable pub write_commands : List Text → ℕ → Text
  unfolding commands_from
  write_commands lines fps = commands_from fps 0 lines

abbrev pub style : Overlay → Text
style o =
    text "fontfile="
    ++ (o.font_file
        ++ (text ":x=w*0.02:fontsize=h/26:fontcolor=white:box=1:boxcolor=black@0.45:boxborderw="
            ++ text "8"))

abbrev drawn : Text → Text → Text → Overlay → Text
drawn filter content baseline o =
    filter
    ++ (text "=text='"
        ++ (overlay_text content ++ (text "':y=" ++ (baseline ++ (text ":" ++ style o)))))

abbrev filters_of : Bool → Text → Overlay → List Text → Option (List Text)
filters_of written path o [] = some (drawn title_filter o.title (text "h-2*th-h*0.055") o ∷ [])
filters_of written path o (line ∷ rest) =
    if written
    then some (
        (text "sendcmd=f=" ++ path)
        ∷ drawn title_filter o.title (text "h-2*th-h*0.055") o
        ∷ drawn counter_filter line (text "h-th-h*0.03") o
        ∷ [])
    else none

-- `overlayFilters`; `path` is the command file, and `written` whether it could be written.
unfoldable pub overlay_filters : Bool → Text → Overlay → Option (List Text)
overlay_filters written path o = filters_of written path o o.lines
