-- ===== src/Config/Valid.antt =====
-- internal/config/config.go: what a configuration without errors has.
use bambu_timelapse.Prelude.{
  ◌≡◌, refl, pos, Bool, true, false, ◌&&◌, ◌||◌, not, List, [], ◌∷◌, ◌++◌, ltb_ℤ, arith, Bool-cases,
  inl, inr,
}
use bambu_timelapse.Go.Text.{Text, text, is_empty}
use bambu_timelapse.Config.{
  Env, required, sink, crop_matches, Config, Fields, all_errors, when_bad, is_negative, validate,
  resolved, errors_of, fields_of, load,
}

abbrev AllNil : List (List Text) → Type 0
AllNil [] = Unit
AllNil (e ∷ es) = (e ≡ []) × AllNil es

nil_parts : (xs ys : List Text) → xs ++ ys ≡ [] → (xs ≡ []) × (ys ≡ [])
nil_parts [] ys h = (refl, h)
nil_parts (x ∷ xs) ys h = cc

AllNil-all_errors : (es : List (List Text)) → all_errors es ≡ [] → AllNil es
AllNil-all_errors [] h = tt
AllNil-all_errors (e ∷ es) h =
    let (now, rest) = nil_parts e (all_errors es) h in (now, AllNil-all_errors es rest)

never_bad : (bad : Bool) (message : Text) → when_bad bad message ≡ [] → bad ≡ false
never_bad true message h = cc
never_bad false message h = refl

required_there :
    (env : Env) (key : Text) → (required env key).1 ≡ [] → is_empty (required env key).0 ≡ false
unfolding required
required_there env key h = elim (Bool-cases (is_empty (env key))) [
  | inl missing ↦ absurd (cc (rw missing at h))
  | inr there ↦ there
]

-- What the service takes for granted of its configuration.
pub record IsValid (cfg : Config) : Type 0 where
  pub host : is_empty cfg.host ≡ false
  pub serial : is_empty cfg.serial ≡ false
  pub access_code : is_empty cfg.access_code ≡ false
  pub fps : ltb_ℤ (pos 0) cfg.fps ≡ true
  pub capture_delay : is_negative cfg.capture_delay ≡ false
  pub holds : (is_negative cfg.intro || is_negative cfg.tail) ≡ false
  pub crop : (is_empty cfg.crop || crop_matches cfg.crop) ≡ true

one_holds : (b c : Bool) → (not b && not c) ≡ false → (b || c) ≡ true
one_holds b c h = ground arith

negated : (b : Bool) → not b ≡ false → b ≡ true
negated b h = ground arith

validate-IsValid :
    (quote : Text → Text) (bad_fields : List Text) (cfg : Config)
    → is_empty cfg.host ≡ false
    → is_empty cfg.serial ≡ false
    → is_empty cfg.access_code ≡ false
    → validate quote bad_fields cfg ≡ []
    → IsValid cfg
unfolding validate
validate-IsValid quote bad_fields cfg host serial code h =
    let bad_fps = not (ltb_ℤ (pos 0) cfg.fps) in
    let bad_crop = not (is_empty cfg.crop) && not (crop_matches cfg.crop) in
    let (_, (fps, (delay, (holds, (crop, _))))) =
      AllNil-all_errors
        (bad_fields
          ∷ when_bad bad_fps (text "TIMELAPSE_FPS must be positive")
          ∷ when_bad (is_negative cfg.capture_delay) (text "CAPTURE_DELAY must not be negative")
          ∷ when_bad (is_negative cfg.intro || is_negative cfg.tail)
              (text "INTRO_HOLD and TAIL_HOLD must not be negative")
          ∷ when_bad bad_crop
              (text "CROP: " ++ (quote cfg.crop ++ text " is not w:h:x:y (e.g. 1920:820:0:260)"))
          ∷ [])
        h in
    record {
      host = host;
      serial = serial;
      access_code = code;
      fps = negated (ltb_ℤ (pos 0) cfg.fps) (never_bad bad_fps _ fps);
      capture_delay = never_bad (is_negative cfg.capture_delay) _ delay;
      holds = never_bad (is_negative cfg.intro || is_negative cfg.tail) _ holds;
      crop = one_holds (is_empty cfg.crop) (crop_matches cfg.crop) (never_bad bad_crop _ crop);
    }

sink_there :
    (need : Bool) (env : Env) (key : Text)
    → (sink need env key).1 ≡ []
    → need ≡ true
    → is_empty (sink need env key).0 ≡ false
unfolding sink
sink_there true env key h needed = required_there env key h
sink_there false env key h needed = cc

-- A configuration that loads without an error names the printer and its access code, has a positive
-- frame rate, no negative delay before a capture, no negative hold at the start or the end, and a
-- crop that is four numbers, if any. One that is loaded to publish names its destination and the
-- token too.
pub load-IsValid :
    (quote : Text → Text) (decode : Text → Fields) (need : Bool) (env : Env)
    → (load quote decode need env).1 ≡ []
    → IsValid (load quote decode need env).0
      × (need ≡ true
          → (is_empty (load quote decode need env).0.api_url ≡ false)
            × (is_empty (load quote decode need env).0.api_token ≡ false))
unfolding load resolved errors_of
load-IsValid quote decode need env h =
    let (host, (serial, (code, (url, (token, rest))))) =
      AllNil-all_errors (errors_of quote decode need env) h in
    let (_, (_, (_, (_, (_, (_, (_, (_, (_, (_, (_, (valid, _)))))))))))) = rest in
    (
      validate-IsValid quote (fields_of decode (env (text "MEDIA_API_FIELDS"))).1
          (resolved quote decode need env) (required_there env (text "PRINTER_HOST") host)
          (required_there env (text "PRINTER_SERIAL") serial)
          (required_there env (text "PRINTER_ACCESS_CODE") code) valid,
      λ needed. (
        sink_there need env (text "MEDIA_API_URL") url needed,
        sink_there need env (text "MEDIA_API_TOKEN") token needed,
      ),
    )
