-- ===== src/Probe/Order.antt =====
-- `Printer` of internal/probe/probe.go: which questions are asked, and what makes an answer good.
use bambu_timelapse.Prelude.{
  ℕ, Bool, true, false, ◌&&◌, not, Option, none, some, List, [], ◌∷◌, map, ◌==◌, if◌then◌else◌, ◌≡◌,
  refl, ap, Bool-cases, inl, inr,
}
use bambu_timelapse.Go.Text.{Text}
use bambu_timelapse.Camera.Tools.{grab, grabbed, kept_frame}
use bambu_timelapse.Probe.{
  ProbeResult, Handshake, silent, accepted, refused, Still, Printer, reachable, access, viewed,
  liveview, described, measured, taken, grab_into, probe_grab, camera_results, printer, mqtt_port,
  rtsps_port, check_printer, check_access, check_liveview, check_camera,
}

abbrev pub is_none : {A : Type 0} → Option A → Bool
is_none none = true
is_none (some a) = false

abbrev pub is_accepted : Handshake → Bool
is_accepted accepted = true
is_accepted silent = false
is_accepted (refused why) = false

abbrev pub has_bytes : Option ℕ → Bool
has_bytes none = false
has_bytes (some n) = not (n == 0)

-- A frame was made, is not empty, and can be looked at.
abbrev pub got_frame : Still → Bool
got_frame s = is_none s.no_dir && (is_none s.ran.err && (has_bytes s.left && is_none s.stat_error))

abbrev pub verdict : ProbeResult → Text × Bool
verdict r = (r.name, r.ok)

-- What the answers are to be.
abbrev pub verdicts : Printer → Bool → List (Text × Bool)
verdicts p has_cam =
    if is_none (p.dial mqtt_port)
    then (check_printer, true)
      ∷ (check_access, is_accepted p.handshake)
      ∷ (check_liveview, is_none (p.dial rtsps_port))
      ∷ (if has_cam then (check_camera, got_frame p.still) ∷ [] else [])
    else (check_printer, false)
      ∷ (check_access, false)
      ∷ (check_liveview, false)
      ∷ (check_camera, false)
      ∷ []

access-verdict : (h : Handshake) → verdict (access h) ≡ (check_access, is_accepted h)
unfolding access
access-verdict silent = refl
access-verdict accepted = refl
access-verdict (refused why) = refl

viewed-verdict : (o : Option Text) → verdict (viewed o) ≡ (check_liveview, is_none o)
viewed-verdict none = refl
viewed-verdict (some why) = refl

described-verdict :
    (clean : Text → Text) (frame : Text) (n : ℕ)
    → verdict (described clean frame n) ≡ (check_camera, true)
described-verdict clean [] n = refl
described-verdict clean (b ∷ s) n = refl

measured-verdict :
    (clean : Text → Text) (frame : Text) (e : Option Text) (n : ℕ)
    → verdict (measured clean frame e n) ≡ (check_camera, is_none e)
measured-verdict clean frame none n = described-verdict clean frame n
measured-verdict clean frame (some why) n = refl

kept-verdict :
    (clean : Text → Text) (frame : Text) (b : Bool) (left : Option ℕ) (e : Option Text)
    → verdict (taken clean frame (kept_frame b left).0 ((kept_frame b left).1, e))
      ≡ (check_camera, has_bytes left && is_none e)
kept-verdict clean frame b none e = refl
kept-verdict clean frame b (some n) e = elim (Bool-cases (n == 0)) [
  | inl zero_size ↦ rw zero_size refl
  | inr sized ↦ rw sized (measured-verdict clean frame e n)
]

grabbed-verdict :
    (clean : Text → Text) (frame out : Text) (err : Option Text) (b : Bool) (left : Option ℕ)
    (e : Option Text)
    → verdict (taken clean frame (grabbed out err b left).0 ((grabbed out err b left).1, e))
      ≡ (check_camera, is_none err && (has_bytes left && is_none e))
grabbed-verdict clean frame out none b left e = kept-verdict clean frame b left e
grabbed-verdict clean frame out (some why) b left e = refl

grab_into-verdict :
    (clean : Text → Text) (frame : Text) (s : Still) (o : Option Text)
    → verdict (grab_into clean frame s o) ≡ (
      check_camera,
      is_none o && (is_none s.ran.err && (has_bytes s.left && is_none s.stat_error)),
    )
unfolding grab
grab_into-verdict clean [] s (some why) = refl
grab_into-verdict clean (b ∷ f) s (some why) = refl
grab_into-verdict clean frame s none =
    grabbed-verdict clean frame s.ran.out s.ran.err s.removable s.left s.stat_error

camera-verdicts :
    (clean : Text → Text) (has_cam : Bool) (frame : Text) (s : Still)
    → map verdict (camera_results clean has_cam frame s)
      ≡ (if has_cam then (check_camera, got_frame s) ∷ [] else [])
unfolding probe_grab
camera-verdicts clean true frame s = ap (λ v. v ∷ []) (grab_into-verdict clean frame s s.no_dir)
camera-verdicts clean false frame s = refl

printer-at :
    (clean : Text → Text) (p : Printer) (has_cam : Bool) (host frame : Text) (o : Option Text)
    → p.dial mqtt_port ≡ o
    → map verdict (printer clean p has_cam host frame) ≡ verdicts p has_cam
unfolding printer reachable liveview
printer-at clean p has_cam host frame none e =
    rw
      (
        e,
        access-verdict p.handshake,
        viewed-verdict (p.dial rtsps_port),
        camera-verdicts clean has_cam frame p.still,
      )
      refl
printer-at clean p has_cam host frame (some why) e = rw e refl

-- The questions are asked in one order and each answer is good exactly when what it stands for
-- holds: a printer that answers, an access code that the broker takes, an open live view, and a
-- frame that was grabbed, is not empty and can be read. No answer of a printer that cannot be
-- reached is good, and the camera is left out where there is none to grab with.
pub printer-verdicts :
    (clean : Text → Text) (p : Printer) (has_cam : Bool) (host frame : Text)
    → map verdict (printer clean p has_cam host frame) ≡ verdicts p has_cam
printer-verdicts clean p has_cam host frame =
    printer-at clean p has_cam host frame (p.dial mqtt_port) refl
