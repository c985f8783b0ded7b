-- ===== src/Ftps/Script.antt =====
-- The order in which `Dial` and `transfer` of internal/ftps/ftps.go do what they do.
use bambu_timelapse.Prelude.{
  ℕ, suc, Option, none, some, List, [], ◌∷◌, ◌++◌, append-nil, append_assoc, ◌≡◌, refl, sym, ap,
  ◌∙◌,
}
use bambu_timelapse.Go.Text.{Text, text}
use bambu_timelapse.Ftps.{
  Act, wrote, Client, Outcome, ok, failed, next_write, written, read_from, answered, command,
  accepted, expect, and_then, fail, log_in, steps, ready, dial,
}

-- What was done is a beginning of the script.
abbrev pub Began : List Act → List Act → List Act → Type 0
Began before script after =
    (pre : List Act) × (rest : List Act) × (script ≡ pre ++ rest) × (after ≡ before ++ pre)

-- The whole script was done, or a beginning of it and then the operation failed.
abbrev pub Follows : {A : Type 0} → List Act → List Act → Client × Outcome A → Type 0
Follows before script (c, ok a) = c.acts ≡ before ++ script
Follows before script (c, failed why) = Began before script c.acts

pub Began-longer :
    (before s t after : List Act) → Began before s after → Began before (s ++ t) after
Began-longer before s t after (pre, rest, e, d) =
    (pre, rest ++ t, ap (λ l. l ++ t) e ∙ append_assoc pre rest t, d)

Began-later :
    (before mid s t after : List Act)
    → mid ≡ before ++ s
    → Began mid t after
    → Began before (s ++ t) after
Began-later before mid s t after m (pre, rest, e, d) = (
  s ++ pre,
  rest,
  ap (λ l. s ++ l) e ∙ sym (append_assoc s pre rest),
  d ∙ ap (λ l. l ++ pre) m ∙ append_assoc before s pre,
)

pub Follows-later :
    {A : Type 0} (before mid s t : List Act) (r : Client × Outcome A)
    → mid ≡ before ++ s
    → Follows mid t r
    → Follows before (s ++ t) r
Follows-later before mid s t (c, ok a) m h = h ∙ ap (λ l. l ++ t) m ∙ append_assoc before s t
Follows-later before mid s t (c, failed why) m h = Began-later before mid s t c.acts m h

pub and_then-Follows :
    {A B : Type 0} (before s t : List Act) (r : Client × Outcome A)
    (next : A → Client → Client × Outcome B)
    → Follows before s r
    → ((a : A) (c : Client) → Follows c.acts t (next a c))
    → Follows before (s ++ t) (and_then r next)
and_then-Follows before s t (c, failed why) next h k = Began-longer before s t c.acts h
and_then-Follows before s t (c, ok a) next h k =
    Follows-later before c.acts s t (next a c) h (k a c)

abbrev pub lines_written : Text → List Act
lines_written [] = []
lines_written (b ∷ s) = wrote (b ∷ s) ∷ []

pub any-Follows :
    {A : Type 0} (before s : List Act) (c : Client) (o : Outcome A)
    → c.acts ≡ before ++ s
    → Follows before s (c, o)
any-Follows before s c (ok a) h = h
any-Follows before s c (failed why) h = (s, [], sym (append-nil s), h)

read_from-Follows :
    (cmd : Text) (before s : List Act) (c : Client)
    → c.acts ≡ before ++ s
    → Follows before s (read_from cmd c)
unfolding read_from
read_from-Follows cmd before s c h = any-Follows before s (read_from cmd c).0 (read_from cmd c).1 h

answered-Follows :
    (b : ℕ) (cmd : Text) (w : Option Text) (c : Client)
    → Follows c.acts (lines_written (b ∷ cmd)) (answered (b ∷ cmd) w (written (b ∷ cmd) w c))
answered-Follows b cmd none c =
    read_from-Follows (b ∷ cmd) c.acts (wrote (b ∷ cmd) ∷ []) (written (b ∷ cmd) none c) refl
answered-Follows b cmd (some why) c = ([], lines_written (b ∷ cmd), refl, sym (append-nil c.acts))

command-Follows : (cmd : Text) (c : Client) → Follows c.acts (lines_written cmd) (command cmd c)
unfolding command
command-Follows [] c = read_from-Follows [] c.acts [] c (sym (append-nil c.acts))
command-Follows (b ∷ cmd) c = answered-Follows b cmd (next_write c.writes) c

accepted-Follows :
    (cmd : Text) (classes : List ℕ) (before s : List Act) (c : Client) (o : Outcome Text)
    → Follows before s (c, o)
    → Follows before s (c, accepted cmd classes o)
accepted-Follows cmd classes before s c (failed why) h = h
accepted-Follows cmd classes before s c (ok reply) h = any-Follows before s c _ h

pub expect-Follows :
    (cmd : Text) (classes : List ℕ) (c : Client)
    → Follows c.acts (lines_written cmd) (expect cmd classes c)
unfolding expect
expect-Follows cmd classes c =
    accepted-Follows cmd classes c.acts (lines_written cmd) (command cmd c).0 (command cmd c).1
      (command-Follows cmd c)

abbrev lines_of_steps : List (Text × List ℕ) → List Act
lines_of_steps [] = []
lines_of_steps (step ∷ rest) = lines_written step.0 ++ lines_of_steps rest

log_in-Follows :
    (script : List (Text × List ℕ)) (c : Client)
    → Follows c.acts (lines_of_steps script) (log_in script c)
unfolding log_in
log_in-Follows [] c = sym (append-nil c.acts)
log_in-Follows (step ∷ rest) c =
    and_then-Follows c.acts (lines_written step.0) (lines_of_steps rest) (expect step.0 step.1 c)
      (λ reply c'. log_in rest c') (expect-Follows step.0 step.1 c) (λ reply. log_in-Follows rest)

-- The lines of a login.
abbrev pub login : Text → List Act
login code =
    wrote (text "USER bblp")
    ∷ wrote (text "PASS " ++ code)
    ∷ wrote (text "PBSZ 0")
    ∷ wrote (text "PROT P")
    ∷ wrote (text "TYPE I")
    ∷ []

-- A dial that succeeds wrote all lines of the login and keeps the connection; one that fails wrote
-- a beginning of them and closed it, once.
abbrev pub Dialled : Text → Client → Client × Outcome Unit → Type 0
Dialled code c (d, ok _) = (d.acts ≡ c.acts ++ login code) × (d.closed ≡ c.closed)
Dialled code c (d, failed why) = Began c.acts (login code) d.acts × (d.closed ≡ suc c.closed)

-- Nothing but the lines, the writes and the acts changes.
abbrev pub Keeps : {A : Type 0} → Client → Client × Outcome A → Type 0
Keeps c r = (r.0.closed ≡ c.closed) × (r.0.plain ≡ c.plain) × (r.0.host ≡ c.host)

answered-Keeps :
    (cmd : Text) (w : Option Text) (c : Client) → Keeps c (answered cmd w (written cmd w c))
unfolding read_from
answered-Keeps cmd none c = (refl, refl, refl)
answered-Keeps cmd (some why) c = (refl, refl, refl)

pub expect-Keeps : (cmd : Text) (classes : List ℕ) (c : Client) → Keeps c (expect cmd classes c)
unfolding expect command read_from
expect-Keeps [] classes c = (refl, refl, refl)
expect-Keeps (b ∷ cmd) classes c = answered-Keeps (b ∷ cmd) (next_write c.writes) c

pub and_then-Keeps :
    {A B : Type 0} (c : Client) (r : Client × Outcome A) (next : A → Client → Client × Outcome B)
    → Keeps c r
    → ((a : A) (d : Client) → Keeps d (next a d))
    → Keeps c (and_then r next)
and_then-Keeps c (d, failed why) next h k = h
and_then-Keeps c (d, ok a) next (h1, h2, h3) k =
    let (k1, k2, k3) = k a d in (k1 ∙ h1, k2 ∙ h2, k3 ∙ h3)

log_in-Keeps : (script : List (Text × List ℕ)) (c : Client) → Keeps c (log_in script c)
unfolding log_in
log_in-Keeps [] c = (refl, refl, refl)
log_in-Keeps (step ∷ rest) c =
    and_then-Keeps c (expect step.0 step.1 c) (λ reply c'. log_in rest c')
      (expect-Keeps step.0 step.1 c) (λ reply. log_in-Keeps rest)

fail-Dialled :
    (code : Text) (c : Client) (r : Client × Outcome Unit)
    → Follows c.acts (login code) r
    → Keeps c r
    → Dialled code c (fail r)
fail-Dialled code c (d, ok _) f (k, _, _) = (f, k)
fail-Dialled code c (d, failed why) f (k, _, _) = (f, ap suc k)

-- A login sends its five lines in their order and no other: all of them, and then the connection
-- stays open, or a beginning of them, and then it is closed.
pub dial-Dialled : (code : Text) (c : Client) → Dialled code c (dial code c)
unfolding dial
dial-Dialled code c =
    fail-Dialled code c (and_then (expect [] ready c) (λ greeting c'. log_in (steps code) c'))
      (and_then-Follows c.acts [] (login code) (expect [] ready c)
        (λ greeting c'. log_in (steps code) c') (expect-Follows [] ready c)
        (λ greeting. log_in-Follows (steps code)))
      (and_then-Keeps c (expect [] ready c) (λ greeting c'. log_in (steps code) c')
        (expect-Keeps [] ready c) (λ greeting. log_in-Keeps (steps code)))

fail-plain : (r : Client × Outcome Unit) → (fail r).0.plain ≡ r.0.plain
fail-plain (c, failed why) = refl
fail-plain (c, ok _) = refl

pub dial-plain : (code : Text) (c : Client) → (dial code c).0.plain ≡ c.plain
unfolding dial
dial-plain code c =
    fail-plain (and_then (expect [] ready c) (λ greeting c'. log_in (steps code) c'))
    ∙ (and_then-Keeps c (expect [] ready c) (λ greeting c'. log_in (steps code) c')
        (expect-Keeps [] ready c) (λ greeting. log_in-Keeps (steps code))).1
