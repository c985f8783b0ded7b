-- ===== src/Go/Strings.antt =====
-- Go's `strings` where a byte separates or ends: Index, Split, Fields, TrimRight with a cutset,
-- TrimSpace, and net.JoinHostPort.
use bambu_timelapse.Prelude.{
  ℕ, zero, suc, ◌-◌, Bool, true, false, ◌&&◌, ◌||◌, not, Option, none, some, List, [], ◌∷◌, ◌++◌,
  leb, ◌==◌, if◌then◌else◌, ◌≡◌, refl,
}
use bambu_timelapse.Go.Text.{Text, text, is_empty}

abbrev step_past : Option ℕ → Option ℕ
step_past none = none
step_past (some i) = some (suc i)

-- strings.Index(s, string(b)), none for -1
unfoldable pub index_of : ℕ → Text → Option ℕ
index_of b [] = none
index_of b (c ∷ s) = let later = index_of b s in if c == b then some 0 else step_past later

abbrev pub cons_head : ℕ → List Text → List Text
cons_head c [] = (c ∷ []) ∷ []
cons_head c (p ∷ ps) = (c ∷ p) ∷ ps

-- strings.Split(s, string(b))
unfoldable pub split : ℕ → Text → List Text
split b [] = [] ∷ []
split b (c ∷ s) = let rest = split b s in if c == b then [] ∷ rest else cons_head c rest

unfoldable pub byte_mem : ℕ → Text → Bool
byte_mem b [] = false
byte_mem b (c ∷ s) = (b == c) || byte_mem b s

unfoldable pub all_in : Text → Text → Bool
unfolding byte_mem
all_in cutset [] = true
all_in cutset (c ∷ s) = byte_mem c cutset && all_in cutset s

-- strings.TrimRight(s, cutset), for a cutset of ASCII
unfoldable pub trim_end : Text → Text → Text
unfolding all_in
trim_end cutset [] = []
trim_end cutset (c ∷ s) =
    let rest = trim_end cutset s in if all_in cutset (c ∷ s) then [] else c ∷ rest

abbrev blank_3 : ℕ → ℕ → ℕ → Bool
blank_3 a b c =
    (a == 0xe1 && (b == 0x9a && c == 0x80))
    || ((a == 0xe2
          && ((b == 0x80 && ((leb 0x80 c && leb c 0x8a) || (c == 0xa8 || (c == 0xa9 || c == 0xaf))))
              || (b == 0x81 && c == 0x9f)))
        || (a == 0xe3 && (b == 0x80 && c == 0x80)))

abbrev blank_tail : ℕ → Text → ℕ
blank_tail a [] = 0
blank_tail a (b ∷ []) = if a == 0xc2 && (b == 0x85 || b == 0xa0) then 2 else 0
blank_tail a (b ∷ c ∷ s) =
    if a == 0xc2 && (b == 0x85 || b == 0xa0) then 2 else if blank_3 a b c then 3 else 0

-- How many bytes the white space that a text starts with takes, 0 when it starts with none.
abbrev pub blank_size : ℕ → Text → ℕ
blank_size a s = if (leb 9 a && leb a 13) || a == b' ' then 1 else blank_tail a s

unfoldable pub trim_left : ℕ → Text → Text
trim_left skip [] = []
trim_left (suc k) (c ∷ s) = trim_left k s
trim_left zero (c ∷ s) =
    let rest = trim_left (blank_size c s - 1) s in if blank_size c s == 0 then c ∷ s else rest

unfoldable pub all_blank : ℕ → Text → Bool
all_blank skip [] = true
all_blank (suc k) (c ∷ s) = all_blank k s
all_blank zero (c ∷ s) = not (blank_size c s == 0) && all_blank (blank_size c s - 1) s

unfoldable pub trim_right : Text → Text
unfolding all_blank
trim_right [] = []
trim_right (c ∷ s) = let rest = trim_right s in if all_blank 0 (c ∷ s) then [] else c ∷ rest

-- strings.TrimSpace
unfoldable pub trim_space : Text → Text
unfolding trim_left trim_right
trim_space s = trim_right (trim_left 0 s)

abbrev add_word : Text × List Text → List Text
add_word (word, words) = if is_empty word then words else word ∷ words

-- The word that a text begins with, and the words after it.
unfoldable pub words_from : ℕ → Text → Text × List Text
words_from skip [] = ([], [])
words_from (suc k) (c ∷ s) = words_from k s
words_from zero (c ∷ s) =
    let later = words_from (blank_size c s - 1) s in
    if blank_size c s == 0 then (c ∷ later.0, later.1) else ([], add_word later)

-- strings.Fields
unfoldable pub fields : Text → List Text
unfolding words_from
fields s = add_word (words_from 0 s)

fields_runs : fields (text "  .. drawtext\tV->V ") ≡ text ".." ∷ text "drawtext" ∷ text "V->V" ∷ []
unfolding fields words_from
fields_runs = refl

-- net.JoinHostPort
abbrev pub join_host_port : Text → Text → Text
join_host_port host port =
    if byte_mem b':' host then (b'[' ∷ host) ++ (text "]:" ++ port) else host ++ (b':' ∷ port)

split_runs : split b',' (text "a,,b") ≡ text "a" ∷ [] ∷ text "b" ∷ []
unfolding split
split_runs = refl

trim_space_runs : trim_space (text " \u{a0} a b\u{2003}\t ") ≡ text "a b"
unfolding trim_space trim_left trim_right all_blank
trim_space_runs = refl

trim_end_runs : trim_end (13 ∷ 10 ∷ []) (text "220 hi" ++ (13 ∷ 10 ∷ [])) ≡ text "220 hi"
unfolding trim_end all_in byte_mem
trim_end_runs = refl
