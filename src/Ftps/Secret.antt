-- ===== src/Ftps/Secret.antt =====
-- `redact` of internal/ftps/ftps.go, and the errors of `Dial` that are logged.
use bambu_timelapse.Prelude.{
  ℕ, suc, Option, none, some, List, [], ◌∷◌, ◌++◌, ◌≡◌, refl, sym, ap, ◌∙◌, Bool-cases, inl, inr,
  if◌then◌else◌,
}
use bambu_timelapse.Go.Text.{Text, text, is_empty, has_prefix}
use bambu_timelapse.Ftps.{
  Client, Outcome, ok, failed, redact, final, read_reply, read_from, next_write, later_writes,
  answered, written, command, accepted, expect, and_then, fail, log_in, steps, ready, dial,
}

-- A client without the record of what it did, which holds the access code once it is sent.
abbrev pub blind : Client → Client
blind c = record c { acts = [] }

abbrev pub blind_result : {A : Type 0} → Client × Outcome A → Client × Outcome A
blind_result (c, o) = (blind c, o)

answered-blind :
    (cmd : Text) (w : Option Text) (c : Client)
    → blind_result (answered cmd w (written cmd w c))
      ≡ blind_result (answered cmd w (written cmd w (blind c)))
unfolding read_from
answered-blind cmd none c = refl
answered-blind cmd (some why) c = refl

command-blind :
    (cmd : Text) (c : Client) → blind_result (command cmd c) ≡ blind_result (command cmd (blind c))
unfolding command
command-blind cmd c = elim (Bool-cases (is_empty cmd)) [
  | inl silent ↦ rw silent (unfold read_from in refl)
  | inr spoken ↦ rw spoken (answered-blind cmd (next_write c.writes) c)
]

abbrev judged : Text → List ℕ → Client × Outcome Text → Client × Outcome Text
judged cmd classes (c, o) = (c, accepted cmd classes o)

expect-blind :
    (cmd : Text) (classes : List ℕ) (c : Client)
    → blind_result (expect cmd classes c) ≡ blind_result (expect cmd classes (blind c))
unfolding expect
expect-blind cmd classes c = ap (judged cmd classes) (command-blind cmd c)

-- `PASS` is all that is told of the command.
redact-pass : (a : Text) → redact (text "PASS " ++ a) ≡ text "PASS"
unfolding redact has_prefix
redact-pass a = refl

read_reply-secret :
    (a b ended out : Text) (lines : List Text)
    → read_reply (text "PASS " ++ a) ended out lines
      ≡ read_reply (text "PASS " ++ b) ended out lines
unfolding read_reply
read_reply-secret a b ended out [] = rw (redact-pass a, redact-pass b) refl
read_reply-secret a b ended out (line ∷ lines) =
    ap (λ rest. if final line then (ok (out ++ line), lines) else rest)
      (read_reply-secret a b ended (out ++ line) lines)

-- The line with the code goes out; nothing else depends on it.
answered-secret :
    (a b : Text) (w : Option Text) (c : Client)
    → blind_result (answered (text "PASS " ++ a) w (written (text "PASS " ++ a) w c))
      ≡ blind_result (answered (text "PASS " ++ b) w (written (text "PASS " ++ b) w c))
unfolding read_from
answered-secret a b none c =
    ap (λ r. (record c { writes = later_writes c.writes; acts = []; lines = r.1 }, r.0))
      (read_reply-secret a b c.ended [] c.lines)
answered-secret a b (some why) c = rw (redact-pass a, redact-pass b) refl

accepted-secret :
    (a b : Text) (classes : List ℕ) (o : Outcome Text)
    → accepted (text "PASS " ++ a) classes o ≡ accepted (text "PASS " ++ b) classes o
accepted-secret a b classes (failed why) = refl
accepted-secret a b classes (ok reply) = rw (redact-pass a, redact-pass b) refl

judged-secret :
    (a b : Text) (classes : List ℕ) (r : Client × Outcome Text)
    → judged (text "PASS " ++ a) classes r ≡ judged (text "PASS " ++ b) classes r
judged-secret a b classes (c, o) = ap (λ o'. (c, o')) (accepted-secret a b classes o)

expect-secret :
    (a b : Text) (classes : List ℕ) (c : Client)
    → blind_result (expect (text "PASS " ++ a) classes c)
      ≡ blind_result (expect (text "PASS " ++ b) classes c)
unfolding expect command
expect-secret a b classes c =
    ap (judged (text "PASS " ++ a) classes) (answered-secret a b (next_write c.writes) c)
    ∙ judged-secret a b classes _

expect-alike :
    (cmd : Text) (classes : List ℕ) (c d : Client)
    → blind c ≡ blind d
    → blind_result (expect cmd classes c) ≡ blind_result (expect cmd classes d)
expect-alike cmd classes c d h =
    expect-blind cmd classes c
    ∙ ap (λ e. blind_result (expect cmd classes e)) h
    ∙ sym (expect-blind cmd classes d)

-- Two continuations that agree on clients that are alike.
abbrev Agree : {A B : Type 0} → (f g : A → Client → Client × Outcome B) → Type 0
Agree {A} f g =
    (a : A) (c d : Client) → blind c ≡ blind d → blind_result (f a c) ≡ blind_result (g a d)

and_then-blind :
    {A B : Type 0} (r s : Client × Outcome A) (f g : A → Client → Client × Outcome B)
    → Agree f g
    → blind_result r ≡ blind_result s
    → blind_result (and_then r f) ≡ blind_result (and_then s g)
and_then-blind (c, failed x) (d, failed y) f g k e = cc
and_then-blind (c, failed x) (d, ok b) f g k e = cc
and_then-blind (c, ok a) (d, failed y) f g k e = cc
and_then-blind (c, ok a) (d, ok b) f g k e =
    k a c d (ap (λ r. r.0) e) ∙ ap (λ x. blind_result (g x d)) (cc)

-- Step for step, the same command or the one that carries the code.
abbrev StepsAlike : List (Text × List ℕ) → List (Text × List ℕ) → Type 0
StepsAlike [] [] = Unit
StepsAlike (s ∷ ss) (t ∷ ts) =
    ((c d : Client)
      → blind c ≡ blind d
      → blind_result (expect s.0 s.1 c) ≡ blind_result (expect t.0 t.1 d))
    × StepsAlike ss ts
StepsAlike _ _ = ⊥

log_in-alike :
    (ss ts : List (Text × List ℕ))
    → StepsAlike ss ts
    → (c d : Client) → blind c ≡ blind d
    → blind_result (log_in ss c) ≡ blind_result (log_in ts d)
unfolding log_in
log_in-alike [] [] h c d e = ap (λ e'. (e', ok tt)) e
log_in-alike (s ∷ ss) [] h c d e = elim h [ ]
log_in-alike [] (t ∷ ts) h c d e = elim h [ ]
log_in-alike (s ∷ ss) (t ∷ ts) h c d e =
    and_then-blind (expect s.0 s.1 c) (expect t.0 t.1 d) (λ reply c'. log_in ss c')
      (λ reply c'. log_in ts c') (λ reply. log_in-alike ss ts h.1) (h.0 c d e)

steps-StepsAlike : (a b : Text) → StepsAlike (steps a) (steps b)
steps-StepsAlike a b = (
  expect-alike _ _,
  (
    (λ c d h. expect-secret a b ready c ∙ expect-alike (text "PASS " ++ b) ready c d h),
    (expect-alike _ _, (expect-alike _ _, (expect-alike _ _, tt))),
  ),
)

fail-blind :
    (r s : Client × Outcome Unit)
    → blind_result r ≡ blind_result s
    → blind_result (fail r) ≡ blind_result (fail s)
fail-blind (c, failed x) (d, failed y) e = ap (λ r. (record r.0 { closed = suc r.0.closed }, r.1)) e
fail-blind (c, failed x) (d, ok b) e = cc
fail-blind (c, ok a) (d, failed y) e = cc
fail-blind (c, ok a) (d, ok b) e = e

-- What a dial comes to, its error text included, does not depend on the access code: with any two
-- codes the same printer leaves the same client, but for the lines that the client wrote, and the
-- same error.
pub dial-secret : (a b : Text) (c : Client) → blind_result (dial a c) ≡ blind_result (dial b c)
unfolding dial
dial-secret a b c = fail-blind _ _ (
    and_then-blind (expect [] ready c) (expect [] ready c) (λ reply c'. log_in (steps a) c')
      (λ reply c'. log_in (steps b) c')
      (λ greeting. log_in-alike (steps a) (steps b) (steps-StepsAlike a b)) refl)
