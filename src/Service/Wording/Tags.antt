-- ===== src/Service/Wording/Tags.antt =====
-- internal/service/service.go, `caption`: the HTML of the message.
use bambu_timelapse.Prelude.{
  ℕ, zero, suc, ◌+◌, ◌/◌, ◌%◌, ◌≡◌, refl, ℤ, pos, negsuc, Bool, true, false, not, List, [], ◌∷◌,
  ◌++◌, ltb, ltb_ℤ, ◌==◌, if◌then◌else◌, arith, Bool-cases, inl, inr,
}
use bambu_timelapse.Go.Text.{Text, text, text_eq, is_empty}
use bambu_timelapse.Go.Number.{digits, digits_onto, itoa}
use bambu_timelapse.Go.Float.{Float}
use bambu_timelapse.Telemetry.{state_finish}
use bambu_timelapse.Session.{Session}
use bambu_timelapse.Session.Temperature.{avg}
use bambu_timelapse.Service.Wording.{
  human_duration, two_digits, escape_byte, escape, when, text_of_writes, facts, caption,
}

-- How often `<` stands in a text.
abbrev pub opens : Text → ℕ
opens [] = 0
opens (c ∷ s) = let n = opens s in if c == b'<' then n + 1 else n

opens-append : (s t : Text) → opens (s ++ t) ≡ opens s + opens t
opens-append [] t = omega arith
opens-append (c ∷ s) t = ground (arith, opens-append s t)

opens-escape_byte : (c : ℕ) → opens (escape_byte c) ≡ 0
opens-escape_byte c = ground arith

opens-escape : (s : Text) → opens (escape s) ≡ 0
unfolding escape
opens-escape [] = refl
opens-escape (c ∷ s) =
    omega (arith, opens-append (escape_byte c) (escape s), opens-escape_byte c, opens-escape s)

opens-digits_onto : (fuel n : ℕ) (acc : Text) → opens acc ≡ 0 → opens (digits_onto fuel n acc) ≡ 0
unfolding digits_onto
opens-digits_onto zero n acc h = h
opens-digits_onto (suc fuel) n acc h = elim (Bool-cases (ltb n 10)) [
  | inl last ↦ rw last (ground arith)
  | inr more ↦ rw more (opens-digits_onto fuel (n / 10) ((b'0' + n % 10) ∷ acc) (ground arith))
]

opens-digits : (n : ℕ) → opens (digits n) ≡ 0
unfolding digits
opens-digits n = opens-digits_onto (suc n) n [] refl

pub opens-itoa : (n : ℤ) → opens (itoa n) ≡ 0
unfolding itoa
opens-itoa (pos n) = opens-digits n
opens-itoa (negsuc n) = opens-digits (suc n)

opens-two_digits : (n : ℕ) → opens (two_digits n) ≡ 0
opens-two_digits n = elim (Bool-cases (ltb n 10)) [
  | inl one ↦ rw one (opens-digits n)
  | inr two ↦ rw two (opens-digits n)
]

opens-human_duration : (total : ℕ) → opens (human_duration total) ≡ 0
unfolding human_duration
opens-human_duration total = elim (Bool-cases (ltb 0 (total / 3600))) [
  | inl hours ↦ rw hours (
      omega (
        arith,
        opens-append (digits (total / 3600))
            (text "h" ++ (two_digits (total % 3600 / 60) ++ text "m")),
        opens-append (two_digits (total % 3600 / 60)) (text "m"),
        opens-digits (total / 3600),
        opens-two_digits (total % 3600 / 60),
      ))
  | inr minutes ↦ rw minutes (
      omega (
        arith,
        opens-append (digits (total % 3600 / 60)) (text "m"),
        opens-digits (total % 3600 / 60),
      ))
]

-- None of these texts has one.
abbrev AllClosed : List Text → Type 0
AllClosed [] = Unit
AllClosed (t ∷ ts) = (opens t ≡ 0) × AllClosed ts

opens-text_of_writes : (ts : List Text) → AllClosed ts → opens (text_of_writes ts) ≡ 0
opens-text_of_writes [] h = refl
opens-text_of_writes (t ∷ ts) h =
    omega (arith, opens-append t (text_of_writes ts), h.0, opens-text_of_writes ts h.1)

-- A text that is text_of_writes under a condition, of parts without one.
opens-when : (b : Bool) (ts : List Text) → AllClosed ts → opens (when b (text_of_writes ts)) ≡ 0
opens-when true ts h = opens-text_of_writes ts h
opens-when false ts h = refl

opens-partial : (b : Bool) → opens (when b (text " (capture started mid-print)")) ≡ 0
opens-partial true = refl
opens-partial false = refl

title_opens :
    (icon title rest : Text)
    → opens icon ≡ 0
    → opens title ≡ 0
    → opens rest ≡ 0
    → opens (icon ++ (text " <b>" ++ (title ++ (text "</b>\n" ++ rest)))) ≡ 2
title_opens icon title rest i t r = omega (
  arith,
  opens-append icon (text " <b>" ++ (title ++ (text "</b>\n" ++ rest))),
  opens-append (text " <b>") (title ++ (text "</b>\n" ++ rest)),
  opens-append title (text "</b>\n" ++ rest),
  opens-append (text "</b>\n") rest,
  i,
  t,
  r,
)

icon_opens : (b : Bool) → opens (if b then text "✅" else text "❌") ≡ 0
icon_opens true = refl
icon_opens false = refl

module _ {A : Type 0} ⦃f : Float A⦄ where
  facts-AllClosed :
      (printer : Text) (s : Session A) (elapsed : ℕ)
      → ((v : A) → opens (f.rounded v) ≡ 0)
      → AllClosed (facts printer s elapsed)
  facts-AllClosed printer s elapsed plain =
      let layers =
        text " · " ∷ itoa s.last_layer ∷ text "/" ∷ itoa s.total_layers ∷ text " layers" ∷ [] in
      let heat =
        text "\nNozzle "
        ∷ f.rounded (avg s.nozzle)
        ∷ text "°C avg / "
        ∷ f.rounded s.nozzle.peak
        ∷ text " peak · Bed "
        ∷ f.rounded (avg s.bed)
        ∷ text "°C"
        ∷ [] in
      (
        opens-escape printer,
        (
          refl,
          (
            opens-human_duration elapsed,
            (
              opens-partial s.partial,
              (
                opens-when (ltb_ℤ (pos 0) s.total_layers) layers (
                  refl,
                  (opens-itoa s.last_layer, (refl, (opens-itoa s.total_layers, (refl, tt)))),
                ),
                (
                  opens-when (not (is_empty s.filament))
                      (text "\nFilament: " ∷ escape s.filament ∷ [])
                      (refl, (opens-escape s.filament, tt)),
                  (
                    opens-when (ltb 0 s.nozzle.count) heat (
                      refl,
                      (
                        plain (avg s.nozzle),
                        (refl, (plain s.nozzle.peak, (refl, (plain (avg s.bed), (refl, tt))))),
                      ),
                    ),
                    (
                      opens-when (ltb 0 s.pauses)
                          (text "\n" ∷ digits s.pauses ∷ text " pause(s)" ∷ [])
                          (refl, (opens-digits s.pauses, (refl, tt))),
                      tt,
                    ),
                  ),
                ),
              ),
            ),
          ),
        ),
      )

  -- If a rounded number is never written with a `<`, then `<` stands exactly twice in a caption,
  -- whatever the printer, the job and the filament are called.
  pub caption_lem :
      (printer : Text) (s : Session A) (end_state : Text) (elapsed : ℕ)
      → ((v : A) → opens (f.rounded v) ≡ 0)
      → opens (caption printer s end_state elapsed) ≡ 2
  unfolding caption
  caption_lem printer s end_state elapsed plain =
      title_opens (if text_eq end_state state_finish then text "✅" else text "❌")
        (escape s.job_name) (text_of_writes (facts printer s elapsed))
        (icon_opens (text_eq end_state state_finish)) (opens-escape s.job_name)
        (opens-text_of_writes (facts printer s elapsed) (facts-AllClosed printer s elapsed plain))
