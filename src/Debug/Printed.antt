-- ===== src/Debug/Printed.antt =====
-- internal/debug/debug.go: what a run prints where writes may fail.
use bambu_timelapse.Prelude.{
  Bool, true, false, Option, none, some, List, [], ◌∷◌, ◌++◌, append-nil, append_assoc,
  if◌then◌else◌, ◌≡◌, refl, sym, ap, ◌∙◌,
}
use bambu_timelapse.Go.Text.{Text}
use bambu_timelapse.Go.Float.{Float}
use bambu_timelapse.Telemetry.Json.{Value, Members}
use bambu_timelapse.Ftps.{Outcome, ok, failed}
use bambu_timelapse.Debug.{
  Report, printf, println, print_all, unless_failed, after_write, next_error,
}
use bambu_timelapse.Debug.Snapshot.{SnapEnd, snap, no_snap, listening}
use bambu_timelapse.Debug.Summary.{
  Asked, DebugEnd, debugged, still_listening, opening, dumped, told, summary_lines, debug_run,
}

-- A beginning of the texts was written, all of them unless there is an error.
abbrev pub Printed : Report → List Text → Report → Type 0
Printed r ts r' =
    (pre : List Text) × (rest : List Text) × (ts ≡ pre ++ rest)
    × (r'.written ≡ r.written ++ pre)
    × (r'.err ≡ none → rest ≡ [])

print_all-failed :
    (ts : List Text) (r : Report) (why : Text) → r.err ≡ some why → print_all ts r ≡ r
unfolding print_all printf
print_all-failed [] r why e = refl
print_all-failed (t ∷ ts) r why e = simp e (print_all-failed ts r why e)

after_write-Printed :
    (t : Text) (ts : List Text) (w : Option Text) (r : Report)
    → Printed (after_write t none r) ts (print_all ts (after_write t none r))
    → r.err ≡ none
    → Printed r (t ∷ ts) (print_all ts (after_write t w r))
after_write-Printed t ts (some why) r ih e =
    rw (print_all-failed ts (after_write t (some why) r) why refl)
      ([], t ∷ ts, refl, sym (append-nil r.written), λ none_yet. absurd cc)
after_write-Printed t ts none r (pre, rest, e, w, k) unfailed =
    (t ∷ pre, rest, ap (◌∷◌ t) e, w ∙ append_assoc r.written (t ∷ []) pre, k)

unless_failed-Printed :
    (t : Text) (ts : List Text) (o : Option Text) (r : Report)
    → r.err ≡ o
    → Printed (after_write t none r) ts (print_all ts (after_write t none r))
    → Printed r (t ∷ ts) (print_all ts (unless_failed o t r))
unless_failed-Printed t ts (some why) r e ih =
    rw (print_all-failed ts r why e)
      ([], t ∷ ts, refl, sym (append-nil r.written), λ none_yet. absurd cc)
unless_failed-Printed t ts none r e ih = after_write-Printed t ts (next_error r.writes) r ih e

print_all-Printed : (ts : List Text) (r : Report) → Printed r ts (print_all ts r)
unfolding print_all printf
print_all-Printed [] r = ([], [], refl, sym (append-nil r.written), λ e. refl)
print_all-Printed (t ∷ ts) r =
    unless_failed-Printed t ts r.err r refl (print_all-Printed ts (after_write t none r))

print_all-append :
    (ts us : List Text) (r : Report) → print_all (ts ++ us) r ≡ print_all us (print_all ts r)
unfolding print_all
print_all-append [] us r = refl
print_all-append (t ∷ ts) us r = print_all-append ts us (printf t r)

-- The run printed a beginning of the texts, and all of them if it returns no error.
abbrev pub Debugged : List Text → Report → DebugEnd → Type 0
Debugged ts start (debugged r e) =
    (pre : List Text) × (rest : List Text) × (ts ≡ pre ++ rest)
    × (r.written ≡ start.written ++ pre)
    × (e ≡ none → rest ≡ [])
Debugged ts start (still_listening r) =
    (pre : List Text) × (rest : List Text) × (ts ≡ pre ++ rest) × (r.written ≡ start.written ++ pre)

-- More texts that were printed after the first ones.
print_more : (ts us : List Text) (r : Report) → Printed r (ts ++ us) (print_all us (print_all ts r))
print_more ts us r = rw⁻¹ (print_all-append ts us r) (print_all-Printed (ts ++ us) r)

abbrev marshalled : Outcome Text → List Text
marshalled (failed why) = []
marshalled (ok body) = (body ++ 10 ∷ []) ∷ []

dumped-Debugged :
    (o : Outcome Text) (ts : List Text) (r : Report)
    → Debugged (ts ++ marshalled o) r (dumped o (print_all ts r))
unfolding println
dumped-Debugged (failed why) ts r =
    let (pre, rest, e, w, k) = print_all-Printed ts r in
    (pre, rest, append-nil ts ∙ e, w, λ none_yet. absurd cc)
dumped-Debugged (ok body) ts r = unfold print_all in print_more ts ((body ++ 10 ∷ []) ∷ []) r

module _ {A : Type 0} ⦃f : Float A⦄ where
  -- What a run prints after the opening, where every write works.
  abbrev pub ending :
      (Option (Value A) → Text) → (Members A → Outcome Text) → Bool → SnapEnd A → List Text
  ending shown marshal raw (snap s) =
      if raw then marshalled (marshal s.fields) else summary_lines shown s
  ending shown marshal raw (no_snap why) = []
  ending shown marshal raw listening = []

  told-Debugged :
      (shown : Option (Value A) → Text) (marshal : Members A → Outcome Text) (raw : Bool)
      (e : SnapEnd A) (ts : List Text) (r : Report)
      → Debugged (ts ++ ending shown marshal raw e) r (told shown marshal raw e (print_all ts r))
  told-Debugged shown marshal raw (no_snap why) ts r =
      let (pre, rest, e, w, k) = print_all-Printed ts r in
      (pre, rest, append-nil ts ∙ e, w, λ none_yet. absurd cc)
  told-Debugged shown marshal raw listening ts r =
      let (pre, rest, e, w, k) = print_all-Printed ts r in (pre, rest, append-nil ts ∙ e, w)
  told-Debugged shown marshal true (snap s) ts r = dumped-Debugged (marshal s.fields) ts r
  told-Debugged shown marshal false (snap s) ts r = print_more ts (summary_lines shown s) r

  -- Whatever writes fail, a debug run prints a beginning of its texts, in their order and without a
  -- gap, and a run that returns no error has printed all of them.
  pub debug_run-Debugged :
      (shown : Option (Value A) → Text) (marshal : Members A → Outcome Text) (a : Asked)
      (e : SnapEnd A) (r : Report)
      → Debugged (opening a ++ ending shown marshal a.raw e) r (debug_run shown marshal a e r)
  unfolding debug_run
  debug_run-Debugged shown marshal a e r = told-Debugged shown marshal a.raw e (opening a) r
