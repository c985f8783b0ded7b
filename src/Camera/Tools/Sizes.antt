-- ===== src/Camera/Tools/Sizes.antt =====
-- `Dimensions` and `Grab` of internal/camera/camera.go, and `parseFilters` of support.go: what is
-- read from what ffprobe and ffmpeg print.
use bambu_timelapse.Prelude.{
  ℕ, ◌^◌, ◌<◌, ◌≤◌, pos, Bool, true, false, ◌&&◌, ◌||◌, Option, none, some, List, [], ◌∷◌, ◌++◌,
  leb, if◌then◌else◌, length, length-take, ◌≡◌, refl, ap, sym, ◌∙◌, arith, Bool-cases, inl, inr,
}
use bambu_timelapse.Go.Text.{Text, text, text_eq, text_eq_iff, text_eq_refl, text_mem, join}
use bambu_timelapse.Go.Number.{digits}
use bambu_timelapse.Go.Strings.{split, trim_space, fields}
use bambu_timelapse.Go.Decimal.{digits-AllDigits, atoi_value-digits, split-join, AllDigits-Lacks}
use bambu_timelapse.Go.Trim.{
  AllInk, AllInk-append, AllDigits-AllInk, trim_space-AllInk, trim_right-newline,
}
use bambu_timelapse.Camera.Tools.{
  Ran, truncate, grab, grabbed, kept_frame, dimensions, filter_names, filter_of, put_filter,
  filters_in, parse_filters,
}

-- What ffprobe prints of a frame: its sizes, `x` between them, and a line break.
abbrev pub printed : ℕ → ℕ → Text
printed w h = join (text "x") (digits w ∷ digits h ∷ []) ++ 10 ∷ []

trim_space-line : (s : Text) → AllInk s → trim_space (s ++ 10 ∷ []) ≡ s
unfolding trim_space
trim_space-line [] k = trim_right-newline
trim_space-line (c ∷ s) k =
    unfold trim_space in trim_space-AllInk c s (10 ∷ []) k trim_right-newline

printed-AllInk : (w h : ℕ) → AllInk (join (text "x") (digits w ∷ digits h ∷ []))
unfolding join
printed-AllInk w h =
    AllInk-append (digits w) _ (AllDigits-AllInk (digits w) (digits-AllDigits w))
      (refl, AllDigits-AllInk (digits h) (digits-AllDigits h))

-- The sizes that ffprobe prints are the sizes that are read.
pub dimensions-printed :
    (w h : ℕ)
    → w < 2 ^ 63
    → h < 2 ^ 63
    → dimensions (record { out = printed w h; err = none }) ≡ (pos w, pos h)
unfolding dimensions
dimensions-printed w h k l =
    rw
      (
        trim_space-line _ (printed-AllInk w h),
        split-join b'x' (digits w) (digits h ∷ []) (
          AllDigits-Lacks b'x' (digits w) (digits-AllDigits w) refl,
          (AllDigits-Lacks b'x' (digits h) (digits-AllDigits h) refl, tt),
        ),
        atoi_value-digits w k,
        atoi_value-digits h l,
      )
      refl

-- A message is cut to at most `n` bytes.
pub length-truncate : (s : Text) (n : ℕ) → length (truncate s n) ≤ n
unfolding truncate
length-truncate s n = elim (Bool-cases (leb (length (trim_space s)) n)) [
  | inl short ↦ rw short (ground arith)
  | inr long ↦ rw long (omega (arith, length-take n (trim_space s)))
]

-- A grab that reports no error left a frame with bytes in it; after one that reports an error no
-- file is left, unless it could not be removed, and the error is not empty.
abbrev pub Grabbed : Bool → Option Text × Option ℕ → Type 0
Grabbed removable (none, some size) = 0 < size
Grabbed removable (none, none) = ⊥
Grabbed true (some why, left) = left ≡ none
Grabbed false (some why, left) = Unit

kept_frame-Grabbed : (b : Bool) (size : Option ℕ) → Grabbed b (kept_frame b size)
kept_frame-Grabbed true none = refl
kept_frame-Grabbed false none = tt
kept_frame-Grabbed true (some n) = ground arith
kept_frame-Grabbed false (some n) = ground arith

grabbed-Grabbed :
    (out : Text) (err : Option Text) (b : Bool) (size : Option ℕ)
    → Grabbed b (grabbed out err b size)
grabbed-Grabbed out none b size = kept_frame-Grabbed b size
grabbed-Grabbed out (some why) true size = refl
grabbed-Grabbed out (some why) false size = tt

-- A grab without an error left a frame that is not empty; one with an error leaves no file that
-- could be removed.
pub grab-Grabbed : (ran : Ran) (b : Bool) (size : Option ℕ) → Grabbed b (grab ran b size)
unfolding grab
grab-Grabbed ran b size = grabbed-Grabbed ran.out ran.err b size

abbrev second_is : Text → List Text → Bool
second_is f (flags ∷ name ∷ rest) = text_eq name f
second_is f _ = false

-- Is there a line of which the text is the second field?
abbrev pub names_filter : Text → List Text → Bool
names_filter f [] = false
names_filter f (line ∷ lines) = second_is f (fields line) || names_filter f lines

and_false : (a : Bool) → (a && false) ≡ false
and_false true = refl
and_false false = refl

false_aside : (a b : Bool) → b ≡ ((a && false) || b)
false_aside true b = refl
false_aside false b = refl

and_or : (a b c : Bool) → ((a && b) || (a && c)) ≡ (a && (b || c))
and_or true b c = refl
and_or false b c = refl

put_if-mem :
    (f name : Text) (known rest : List Text)
    → text_mem f (put_filter (if text_mem name known then some name else none) rest)
      ≡ ((text_mem f known && text_eq name f) || text_mem f rest)
put_if-mem f name known rest = elim (Bool-cases (text_eq name f)) [
  | inl same ↦ rw (sym ((text_eq_iff name f).0 same), text_eq_refl name) (taken name known rest)
  | inr other ↦ rw other (left_out (text_mem name known) other)
]
  where
    taken :
        (t : Text) (ts us : List Text)
        → text_mem t (put_filter (if text_mem t ts then some t else none) us)
          ≡ ((text_mem t ts && true) || text_mem t us)
    taken t ts us = elim (Bool-cases (text_mem t ts)) [
      | inl in_it ↦ rw in_it (unfold text_mem in rw (text_eq_refl t) refl)
      | inr out ↦ rw out refl
    ]

    left_out :
        (b : Bool)
        → text_eq name f ≡ false
        → text_mem f (put_filter (if b then some name else none) rest)
          ≡ ((text_mem f known && false) || text_mem f rest)
    left_out true other = unfold text_mem in rw other (false_aside _ _)
    left_out false other = false_aside _ _

fields-mem :
    (f : Text) (line rest : List Text)
    → text_mem f (put_filter (filter_of line) rest)
      ≡ ((text_mem f filter_names && second_is f line) || text_mem f rest)
fields-mem f [] rest = false_aside _ _
fields-mem f (flags ∷ []) rest = false_aside _ _
fields-mem f (flags ∷ name ∷ more) rest = put_if-mem f name filter_names rest

filters_in-mem :
    (f : Text) (lines : List Text)
    → text_mem f (filters_in lines) ≡ (text_mem f filter_names && names_filter f lines)
unfolding filters_in
filters_in-mem f [] = unfold text_mem in sym (and_false (text_mem f filter_names))
filters_in-mem f (line ∷ lines) =
    fields-mem f (fields line) (filters_in lines)
    ∙ ap (λ b. (text_mem f filter_names && second_is f (fields line)) || b) (filters_in-mem f lines)
    ∙ and_or (text_mem f filter_names) (second_is f (fields line)) (names_filter f lines)

-- A filter is found exactly if it is one of the four that are asked for and some line of the
-- output has it as its second field, whole.
pub parse_filters-mem :
    (f out : Text)
    → text_mem f (parse_filters out) ≡ (text_mem f filter_names && names_filter f (split 10 out))
unfolding parse_filters
parse_filters-mem f out = filters_in-mem f (split 10 out)
