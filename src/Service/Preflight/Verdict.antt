-- ===== src/Service/Preflight/Verdict.antt =====
-- internal/service/preflight.go: which hosts the service starts on, and what it then draws with.
use bambu_timelapse.Prelude.{
  ℕ, ◌≡◌, ◌≢◌, ◌↔◌, inl, inr, refl, ap, sym, ◌∙◌, Bool, true, false, ◌&&◌, not, Option, none, some,
  List, [], ◌∷◌, ◌++◌, ltb, arith, Bool-cases, append-nil,
}
use bambu_timelapse.Go.Text.{Text, text, is_empty, is_empty_iff}
use bambu_timelapse.Camera.Tools.{Support, has_filter}
use bambu_timelapse.Probe.{ProbeResult}
use bambu_timelapse.Service.Preflight.{
  Check, Drawing, Conf, overlay_checks, overlay_missing, missing_from, tail_checks, intro_checks,
  caption_checks, printer_checks, space_checks, host_checks, fatal_of, stop_on, preflight,
}

fatal_of-append : (xs ys : List Check) → fatal_of (xs ++ ys) ≡ fatal_of xs ++ fatal_of ys
unfolding fatal_of
fatal_of-append [] ys = refl
fatal_of-append (c ∷ cs) ys = ground (arith, fatal_of-append cs ys)

fatal_of-printer_checks : (rs : List ProbeResult) → fatal_of (printer_checks rs) ≡ []
unfolding fatal_of printer_checks
fatal_of-printer_checks [] = refl
fatal_of-printer_checks (r ∷ rs) = ground (arith, fatal_of-printer_checks rs)

fatal_of-space_checks : (cfg : Conf) (free : Option ℕ) → fatal_of (space_checks cfg free) ≡ []
unfolding fatal_of
fatal_of-space_checks cfg none = refl
fatal_of-space_checks cfg (some n) = elim (Bool-cases (ltb n cfg.min_free)) [
  | inl low ↦ rw low refl
  | inr room ↦ rw room refl
]

fatal_of-overlay_missing :
    (sup : Support) (fs : List Text) (d : Drawing) → fatal_of (overlay_missing sup fs d).0 ≡ []
unfolding fatal_of
fatal_of-overlay_missing sup (f ∷ fs) d = refl
fatal_of-overlay_missing sup [] d = elim (Bool-cases (is_empty d.font)) [
  | inl bare ↦ rw bare refl
  | inr font ↦ rw font refl
]

fatal_of-overlay_checks :
    (cfg : Conf) (sup : Support) (d : Drawing) → fatal_of (overlay_checks cfg sup d).0 ≡ []
unfolding overlay_checks fatal_of
fatal_of-overlay_checks cfg sup d = elim (Bool-cases cfg.overlay) [
  | inr off ↦ simp off refl
  | inl on ↦ elim (Bool-cases (is_empty sup.ffmpeg)) [
    | inl absent ↦ simp (on, absent) refl
    | inr there ↦
        simp (on, there)
          (fatal_of-overlay_missing sup (missing_from sup (text "drawtext" ∷ text "sendcmd" ∷ []))
            d)
  ]
]

fatal_of-tail_checks : (sup : Support) (d : Drawing) → fatal_of (tail_checks sup d).0 ≡ []
unfolding tail_checks fatal_of
fatal_of-tail_checks sup d =
    elim (Bool-cases
      (ltb 0 d.tail && (not (is_empty sup.ffmpeg) && not (has_filter sup (text "tpad"))))) [
        | inl lacking ↦ rw lacking refl
        | inr fine ↦ rw fine refl
      ]

fatal_of-intro_checks : (sup : Support) (d : Drawing) → fatal_of (intro_checks sup d).0 ≡ []
unfolding intro_checks fatal_of
fatal_of-intro_checks sup d =
    elim (Bool-cases
      (ltb 0 d.intro && (not (is_empty sup.ffmpeg) && not (has_filter sup (text "concat"))))) [
        | inl lacking ↦ rw lacking refl
        | inr fine ↦ rw fine refl
      ]

all_three :
    (xs ys zs : List Check)
    → fatal_of xs ≡ []
    → fatal_of ys ≡ []
    → fatal_of zs ≡ []
    → fatal_of (xs ++ (ys ++ zs)) ≡ []
all_three xs ys zs x y z = rw (fatal_of-append xs (ys ++ zs), fatal_of-append ys zs, x, y, z) refl

fatal_of-caption_checks :
    (cfg : Conf) (sup : Support) (d : Drawing) → fatal_of (caption_checks cfg sup d).0 ≡ []
unfolding caption_checks
fatal_of-caption_checks cfg sup d =
    let d1 = (overlay_checks cfg sup d).1 in
    let d2 = (tail_checks sup d1).1 in
    all_three (overlay_checks cfg sup d).0 (tail_checks sup d1).0 (intro_checks sup d2).0
      (fatal_of-overlay_checks cfg sup d) (fatal_of-tail_checks sup d1)
      (fatal_of-intro_checks sup d2)

stop_on-none : (ms : List Text) → (stop_on ms ≡ none) ↔ (ms ≡ [])
stop_on-none [] = (λ e. refl, λ e. refl)
stop_on-none (m ∷ ms) = (λ e. cc, λ e. cc)

host_verdict :
    (quote : Text → Text) (cfg : Conf) (sup : Support) (writable : Bool) (why : Option Text)
    → (fatal_of (host_checks quote cfg sup writable why) ≡ [])
      ↔ (sup.ffmpeg ≢ []) × (writable ≡ true)
unfolding fatal_of
host_verdict quote cfg sup writable why = ground (arith, is_empty_iff sup.ffmpeg)

-- The service starts exactly on a host that has ffmpeg and lets it write to the staging directory.
-- No answer of the printer, no missing filter or font and no lack of space stops it.
pub preflight_iff :
    (quote : Text → Text) (cfg : Conf) (sup : Support) (writable : Bool) (why : Option Text)
    (free : Option ℕ) (printer : List ProbeResult) (d : Drawing)
    → ((preflight quote cfg sup writable why free printer d).0 ≡ none)
      ↔ (sup.ffmpeg ≢ []) × (writable ≡ true)
unfolding preflight
preflight_iff quote cfg sup writable why free printer d =
    let hs = host_checks quote cfg sup writable why in
    let cs = caption_checks cfg sup d in
    let rest =
      all_three (space_checks cfg free) cs.0 (printer_checks printer)
        (fatal_of-space_checks cfg free) (fatal_of-caption_checks cfg sup d)
        (fatal_of-printer_checks printer) in
    let all =
      fatal_of-append hs (space_checks cfg free ++ (cs.0 ++ printer_checks printer))
      ∙ (ap (λ (ms : List Text). fatal_of hs ++ ms) rest ∙ append-nil (fatal_of hs)) in
    rw all (
      λ e. (host_verdict quote cfg sup writable why).0 ((stop_on-none (fatal_of hs)).0 e),
      λ h. (stop_on-none (fatal_of hs)).1 ((host_verdict quote cfg sup writable why).1 h),
    )

-- What is still drawn, this ffmpeg can draw.
pub record IsDrawable (cfg : Conf) (sup : Support) (d : Drawing) : Type 0 where
  pub caption :
      cfg.overlay ≡ true
      → is_empty d.font ≡ false
      → (has_filter sup (text "drawtext") ≡ true) × (has_filter sup (text "sendcmd") ≡ true)
  pub tail : ltb 0 d.tail ≡ true → has_filter sup (text "tpad") ≡ true
  pub intro : ltb 0 d.intro ≡ true → has_filter sup (text "concat") ≡ true

overlay_drawable :
    (cfg : Conf) (sup : Support) (d : Drawing)
    → is_empty sup.ffmpeg ≡ false
    → cfg.overlay ≡ true
    → is_empty (overlay_checks cfg sup d).1.font ≡ false
    → (has_filter sup (text "drawtext") ≡ true) × (has_filter sup (text "sendcmd") ≡ true)
unfolding overlay_checks
overlay_drawable cfg sup d found on font = elim (Bool-cases (has_filter sup (text "drawtext"))) [
  | inr no_text ↦ absurd (ground arith)
  | inl draws ↦ elim (Bool-cases (has_filter sup (text "sendcmd"))) [
    | inr no_commands ↦ absurd (ground arith)
    | inl sends ↦ (draws, sends)
  ]
]

tail_drawable :
    (sup : Support) (d : Drawing)
    → is_empty sup.ffmpeg ≡ false
    → ltb 0 (tail_checks sup d).1.tail ≡ true
    → has_filter sup (text "tpad") ≡ true
unfolding tail_checks
tail_drawable sup d found held = ground arith

intro_drawable :
    (sup : Support) (d : Drawing)
    → is_empty sup.ffmpeg ≡ false
    → ltb 0 (intro_checks sup d).1.intro ≡ true
    → has_filter sup (text "concat") ≡ true
unfolding intro_checks
intro_drawable sup d found held = ground arith

tail_keeps_font :
    (sup : Support) (d : Drawing)
    → ((tail_checks sup d).1.font ≡ d.font) × ((tail_checks sup d).1.intro ≡ d.intro)
unfolding tail_checks
tail_keeps_font sup d = ground arith

intro_keeps :
    (sup : Support) (d : Drawing)
    → ((intro_checks sup d).1.font ≡ d.font) × ((intro_checks sup d).1.tail ≡ d.tail)
unfolding intro_checks
intro_keeps sup d = ground arith

-- After the checks on a host that has ffmpeg, a caption is drawn only if ffmpeg has drawtext and
-- sendcmd, the end is held only if it has tpad, and the intro is held only if it has concat.
pub caption_checks-IsDrawable :
    (cfg : Conf) (sup : Support) (d : Drawing)
    → is_empty sup.ffmpeg ≡ false
    → IsDrawable cfg sup (caption_checks cfg sup d).1
unfolding caption_checks
caption_checks-IsDrawable cfg sup d found =
    let d1 = (overlay_checks cfg sup d).1 in
    let d2 = (tail_checks sup d1).1 in
    let font = (intro_keeps sup d2).0 ∙ (tail_keeps_font sup d1).0 in
    record {
      caption = λ on ink. overlay_drawable cfg sup d found on (ap is_empty (sym font) ∙ ink);
      tail = λ held. tail_drawable sup d1 found (ap (ltb 0) (sym (intro_keeps sup d2).1) ∙ held);
      intro = λ held. intro_drawable sup d2 found held;
    }
