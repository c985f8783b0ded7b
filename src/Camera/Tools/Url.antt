-- ===== src/Camera/Tools/Url.antt =====
-- `New` of internal/camera/camera.go: the access code in the address of the live view.
use bambu_timelapse.Prelude.{
  ℕ, ◌+◌, ◌-◌, ◌*◌, ◌/◌, ◌%◌, ◌<◌, true, false, [], ◌∷◌, ◌++◌, leb, ◌==◌, if◌then◌else◌, ◌≡◌, refl,
  ap, ◌∙◌, arith, Bool-cases, inl, inr,
}
use bambu_timelapse.Go.Text.{Text, text, join}
use bambu_timelapse.Go.Strings.{split, join_host_port, byte_mem}
use bambu_timelapse.Go.Decimal.{Lacks, Lacks-append, split-join}
use bambu_timelapse.Camera.Tools.{stream_url, is_unreserved, hex, escape_byte, query_escape}

abbrev pub AllBytes : Text → Type 0
AllBytes [] = Unit
AllBytes (b ∷ s) = (b < 256) × AllBytes s

-- The value of a hexadecimal digit in capitals.
abbrev unhex : ℕ → ℕ
unhex c = if leb c b'9' then c - b'0' else c - b'A' + 10

-- url.QueryUnescape, on what is well formed: a percent sign stands for the byte of the two digits
-- after it, and a plus sign for a space.
unfoldable pub query_unescape : Text → Text
query_unescape [] = []
query_unescape (a ∷ []) = (if a == b'+' then b' ' else a) ∷ []
query_unescape (a ∷ b ∷ []) = (if a == b'+' then b' ' else a) ∷ query_unescape (b ∷ [])
query_unescape (a ∷ b ∷ c ∷ s) =
    let later = query_unescape s in
    let next = query_unescape (b ∷ c ∷ s) in
    if a == b'%' then (unhex b * 16 + unhex c) ∷ later else (if a == b'+' then b' ' else a) ∷ next

unescape_plain :
    (a : ℕ) (s : Text)
    → (a == b'%') ≡ false
    → query_unescape (a ∷ s) ≡ (if a == b'+' then b' ' else a) ∷ query_unescape s
unfolding query_unescape
unescape_plain a [] h = refl
unescape_plain a (b ∷ []) h = refl
unescape_plain a (b ∷ c ∷ s) h = rw h refl

unescape_coded :
    (b c : ℕ) (s : Text)
    → query_unescape (b'%' ∷ b ∷ c ∷ s) ≡ (unhex b * 16 + unhex c) ∷ query_unescape s
unfolding query_unescape
unescape_coded b c s = refl

unhex-hex : (n : ℕ) → n < 16 → unhex (hex n) ≡ n
unhex-hex n h = ground arith

coded_byte : (b : ℕ) → b < 256 → unhex (hex (b / 16)) * 16 + unhex (hex (b % 16)) ≡ b
coded_byte b h = omega (arith, unhex-hex (b / 16) (omega arith), unhex-hex (b % 16) (omega arith))

unreserved_plain : (b : ℕ) → is_unreserved b ≡ true → ((b == b'%') ≡ false) × ((b == b'+') ≡ false)
unreserved_plain b h = (ground arith, ground arith)

unescape-escape_byte :
    (b : ℕ) (s : Text) → b < 256 → query_unescape (escape_byte b ++ s) ≡ b ∷ query_unescape s
unescape-escape_byte b s h = elim (Bool-cases (is_unreserved b)) [
  | inl plain ↦
      let (no_percent, no_plus) = unreserved_plain b plain in
      rw plain (unescape_plain b s no_percent ∙ rw no_plus refl)
  | inr odd ↦ rw odd (elim (Bool-cases (b == b' ')) [
    | inl space ↦
        rw space (unescape_plain b'+' s refl ∙ ap (λ c. c ∷ query_unescape s) (ground arith))
    | inr other ↦ rw other (
        unescape_coded (hex (b / 16)) (hex (b % 16)) s
        ∙ ap (λ c. c ∷ query_unescape s) (coded_byte b h))
  ])
]

-- The access code can be read back from its place in the address.
pub unescape-query_escape : (s : Text) → AllBytes s → query_unescape (query_escape s) ≡ s
unfolding query_escape
unescape-query_escape [] h = unfold query_unescape in refl
unescape-query_escape (b ∷ s) h =
    unescape-escape_byte b (query_escape s) h.0 ∙ ap (◌∷◌ b) (unescape-query_escape s h.1)

escape_byte-Lacks : (b : ℕ) → b < 256 → Lacks b'@' (escape_byte b)
escape_byte-Lacks b h = elim (Bool-cases (is_unreserved b)) [
  | inl plain ↦ rw plain (ground arith, tt)
  | inr odd ↦ rw odd (elim (Bool-cases (b == b' ')) [
    | inl space ↦ rw space (refl, tt)
    | inr other ↦
        rw other (refl, (hex-lacks (b / 16) (omega arith), (hex-lacks (b % 16) (omega arith), tt)))
  ])
]
  where
    hex-lacks : (n : ℕ) → n < 16 → (hex n == b'@') ≡ false
    hex-lacks n k = ground arith

query_escape-Lacks : (s : Text) → AllBytes s → Lacks b'@' (query_escape s)
unfolding query_escape
query_escape-Lacks [] h = tt
query_escape-Lacks (b ∷ s) h =
    Lacks-append b'@' (escape_byte b) (query_escape s) (escape_byte-Lacks b h.0)
      (query_escape-Lacks s h.1)

join_host_port-Lacks :
    (host : Text) → Lacks b'@' host → Lacks b'@' (join_host_port host (text "322"))
join_host_port-Lacks host h = elim (Bool-cases (byte_mem b':' host)) [
  | inl colon ↦ rw colon (refl, Lacks-append b'@' host (text "]:322") h (ground arith))
  | inr none ↦ rw none (Lacks-append b'@' host (text ":322") h (ground arith))
]

-- Whatever bytes the access code has, the address has one `@`: before it stands the code, from which
-- it can be read back, and after it the host, if that holds no `@`.
pub stream_url-parts :
    (host code : Text)
    → Lacks b'@' host
    → AllBytes code
    → (split b'@' (stream_url host code)
        ≡ (text "rtsps://bblp:" ++ query_escape code)
          ∷ (join_host_port host (text "322") ++ text "/streaming/live/1")
          ∷ [])
      × (query_unescape (query_escape code) ≡ code)
unfolding stream_url
stream_url-parts host code h k = (
  unfold join in
      split-join b'@' (text "rtsps://bblp:" ++ query_escape code)
        ((join_host_port host (text "322") ++ text "/streaming/live/1") ∷ [])
        (
          Lacks-append b'@' (text "rtsps://bblp:") _ (ground arith) (query_escape-Lacks code k),
          (
            Lacks-append b'@' (join_host_port host (text "322")) _ (join_host_port-Lacks host h)
                (ground arith),
            tt,
          ),
        ),
  unescape-query_escape code k,
)
