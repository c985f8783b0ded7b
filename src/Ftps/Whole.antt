-- ===== src/Ftps/Whole.antt =====
-- `transfer` of internal/ftps/ftps.go: what it returns, and what it leaves open.
use bambu_timelapse.Prelude.{
  suc, ◌-◌, Bool, true, false, Option, none, some, [], ◌++◌, ◌≡◌, refl, ap, ◌∙◌, arith,
}
use bambu_timelapse.Go.Text.{Text, text}
use bambu_timelapse.Ftps.{
  Act, opened, shaken, Client, Outcome, ok, failed, next_write, written, expect, and_then, ready,
  starting, Channel, attempt, passed, sent, resumes, bytes_read, exchange, with_plain, pasv_addr,
  over, towards, transfer,
}
use bambu_timelapse.Ftps.Script.{Keeps, and_then-Keeps, expect-Keeps}

-- What holds of every value that an operation yields.
abbrev pub Yields : {A : Type 0} → (A → Type 0) → Client × Outcome A → Type 0
Yields P (c, ok a) = P a
Yields P (c, failed why) = Unit

pub and_then-Yields :
    {A B : Type 0} (P : A → Type 0) (Q : B → Type 0) (r : Client × Outcome A)
    (next : A → Client → Client × Outcome B)
    → Yields P r
    → ((a : A) (c : Client) → P a → Yields Q (next a c))
    → Yields Q (and_then r next)
and_then-Yields P Q (c, failed why) next h k = tt
and_then-Yields P Q (c, ok a) next h k = k a c h

abbrev pub Anything : {A : Type 0} → A → Type 0
Anything a = Unit

pub any-Yields : {A : Type 0} (r : Client × Outcome A) → Yields Anything r
any-Yields (c, ok a) = tt
any-Yields (c, failed why) = tt

-- The channel resumed the session and was read to its end.
abbrev pub IsWhole : Channel → Text → Type 0
IsWhole ch body = (ch.resumed ≡ true) × (ch.cut ≡ none) × (body ≡ ch.body)

resumes-Yields : (b : Bool) (c : Client) → Yields (λ _. b ≡ true) (resumes b c)
resumes-Yields true c = refl
resumes-Yields false c = tt

bytes_read-Yields :
    (w : Option Text) (body : Text) (c : Client)
    → Yields (λ b. (w ≡ none) × (b ≡ body)) (bytes_read w body c)
bytes_read-Yields none body c = (refl, refl)
bytes_read-Yields (some why) body c = tt

exchange-Yields : (ch : Channel) (cmd : Text) (c : Client) → Yields (IsWhole ch) (exchange ch cmd c)
unfolding exchange
exchange-Yields ch cmd c =
    and_then-Yields Anything (IsWhole ch) (sent cmd c) _ (any-Yields (sent cmd c)) (λ _ c1 _.
      and_then-Yields Anything (IsWhole ch)
        (attempt ch.handshake (text "ftps data handshake: ") shaken c1) _
        (any-Yields (attempt ch.handshake (text "ftps data handshake: ") shaken c1))
        (λ _ c2 _.
          and_then-Yields (λ _. ch.resumed ≡ true) (IsWhole ch) (resumes ch.resumed c2) _
            (resumes-Yields ch.resumed c2)
            (λ _ c3 again.
              and_then-Yields Anything (IsWhole ch) (expect [] starting c3) _
                (any-Yields (expect [] starting c3))
                (λ _ c4 _.
                  and_then-Yields (λ b. (ch.cut ≡ none) × (b ≡ ch.body)) (IsWhole ch)
                    (bytes_read ch.cut ch.body c4) _ (bytes_read-Yields ch.cut ch.body c4)
                    (λ body c5 whole.
                      and_then-Yields Anything (IsWhole ch) (expect [] ready c5) _
                        (any-Yields (expect [] ready c5)) (λ _ c6 _. (again, whole.0, whole.1)))))))

with_plain-Yields :
    (ch : Channel) (cmd : Text) (c : Client) → Yields (IsWhole ch) (with_plain (exchange ch cmd) c)
with_plain-Yields ch cmd c =
    released-Yields (exchange ch cmd (record c { plain = suc c.plain }))
      (exchange-Yields ch cmd (record c { plain = suc c.plain }))
  where
    released-Yields :
        (r : Client × Outcome Text)
        → Yields (IsWhole ch) r
        → Yields (IsWhole ch) (record r.0 { plain = r.0.plain - 1 }, r.1)
    released-Yields (d, ok a) h = h
    released-Yields (d, failed why) h = h

over-Yields :
    (ch : Channel) (addr cmd : Text) (c : Client) → Yields (IsWhole ch) (over ch addr cmd c)
over-Yields ch addr cmd c =
    and_then-Yields Anything (IsWhole ch)
      (attempt ch.refused (text "ftps data dial: ") (opened addr) c) _
      (any-Yields (attempt ch.refused (text "ftps data dial: ") (opened addr) c))
      (λ _ c' _. with_plain-Yields ch cmd c')

-- The bytes are those of the channel at some address, all of them.
abbrev pub Received : (Text → Channel) → Text → Type 0
Received net body = (addr : Text) × IsWhole (net addr) body

Received-at :
    (net : Text → Channel) (addr : Text) (r : Client × Outcome Text)
    → Yields (IsWhole (net addr)) r
    → Yields (Received net) r
Received-at net addr (c, ok body) h = (addr, h)
Received-at net addr (c, failed why) h = tt

towards-Yields :
    (net : Text → Channel) (cmd : Text) (o : Outcome Text) (c : Client)
    → Yields (Received net) (towards net cmd o c)
towards-Yields net cmd (failed why) c = tt
towards-Yields net cmd (ok addr) c =
    Received-at net addr (over (net addr) addr cmd c) (over-Yields (net addr) addr cmd c)

-- The bytes that a transfer returns were read to the end without an error, over a channel that
-- resumed the session of the control connection: never a part of a file.
pub transfer-Yields :
    (syntax : Text → Text) (net : Text → Channel) (cmd : Text) (c : Client)
    → Yields (Received net) (transfer syntax net cmd c)
unfolding transfer
transfer-Yields syntax net cmd c =
    and_then-Yields Anything (Received net) (expect (text "PASV") ready c) _
      (any-Yields (expect (text "PASV") ready c))
      (λ reply c1 _. towards-Yields net cmd (pasv_addr syntax c1.host reply) c1)

sent-Keeps :
    (cmd what : Text) (w : Option Text) (c : Client)
    → Keeps {A = Unit} c (written cmd w c, passed w what)
sent-Keeps cmd what none c = (refl, refl, refl)
sent-Keeps cmd what (some why) c = (refl, refl, refl)

attempt-Keeps :
    (w : Option Text) (what : Text) (act : Act) (c : Client) → Keeps c (attempt w what act c)
attempt-Keeps none what act c = (refl, refl, refl)
attempt-Keeps (some why) what act c = (refl, refl, refl)

resumes-Keeps : (b : Bool) (c : Client) → Keeps c (resumes b c)
resumes-Keeps true c = (refl, refl, refl)
resumes-Keeps false c = (refl, refl, refl)

bytes_read-Keeps : (w : Option Text) (body : Text) (c : Client) → Keeps c (bytes_read w body c)
bytes_read-Keeps none body c = (refl, refl, refl)
bytes_read-Keeps (some why) body c = (refl, refl, refl)

exchange-Keeps : (ch : Channel) (cmd : Text) (c : Client) → Keeps c (exchange ch cmd c)
unfolding exchange
exchange-Keeps ch cmd c =
    and_then-Keeps c (sent cmd c) _
      (sent-Keeps cmd (text "ftps " ++ (cmd ++ text ": ")) (next_write c.writes) c)
      (λ _ c1.
        and_then-Keeps c1 (attempt ch.handshake (text "ftps data handshake: ") shaken c1) _
          (attempt-Keeps ch.handshake _ shaken c1)
          (λ _ c2.
            and_then-Keeps c2 (resumes ch.resumed c2) _ (resumes-Keeps ch.resumed c2) (λ _ c3.
              and_then-Keeps c3 (expect [] starting c3) _ (expect-Keeps [] starting c3) (λ _ c4.
                and_then-Keeps c4 (bytes_read ch.cut ch.body c4) _
                  (bytes_read-Keeps ch.cut ch.body c4)
                  (λ body c5.
                    and_then-Keeps c5 (expect [] ready c5) _ (expect-Keeps [] ready c5)
                      (λ _ c6. (refl, refl, refl)))))))

with_plain-Keeps :
    (ch : Channel) (cmd : Text) (c : Client) → Keeps c (with_plain (exchange ch cmd) c)
with_plain-Keeps ch cmd c =
    let (k1, k2, k3) = exchange-Keeps ch cmd (record c { plain = suc c.plain }) in
    (k1, ap (λ n. n - 1) k2 ∙ omega arith, k3)

over-Keeps : (ch : Channel) (addr cmd : Text) (c : Client) → Keeps c (over ch addr cmd c)
over-Keeps ch addr cmd c =
    and_then-Keeps c (attempt ch.refused (text "ftps data dial: ") (opened addr) c) _
      (attempt-Keeps ch.refused _ (opened addr) c) (λ _ c'. with_plain-Keeps ch cmd c')

towards-Keeps :
    (net : Text → Channel) (cmd : Text) (o : Outcome Text) (c : Client)
    → Keeps c (towards net cmd o c)
towards-Keeps net cmd (failed why) c = (refl, refl, refl)
towards-Keeps net cmd (ok addr) c = over-Keeps (net addr) addr cmd c

-- However a transfer ends, no data connection is left open and the control connection is not
-- closed.
pub transfer-Keeps :
    (syntax : Text → Text) (net : Text → Channel) (cmd : Text) (c : Client)
    → Keeps c (transfer syntax net cmd c)
unfolding transfer
transfer-Keeps syntax net cmd c =
    and_then-Keeps c (expect (text "PASV") ready c) _ (expect-Keeps (text "PASV") ready c)
      (λ reply c1. towards-Keeps net cmd (pasv_addr syntax c1.host reply) c1)
