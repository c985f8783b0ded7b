-- ===== src/Ftps/Transfer.antt =====
-- `transfer` of internal/ftps/ftps.go: the order of its stages, and what it returns.
use bambu_timelapse.Prelude.{
  suc, ◌-◌, Bool, true, false, Option, none, some, List, [], ◌∷◌, ◌++◌, append-nil, append_assoc,
  ◌≡◌, refl, sym,
}
use bambu_timelapse.Go.Text.{Text, text}
use bambu_timelapse.Ftps.{
  Act, wrote, opened, shaken, drained, shut, Client, Outcome, ok, failed, next_write, written,
  expect, and_then, ready, starting, Channel, attempt, passed, sent, resumes, bytes_read, exchange,
  with_plain, pasv_addr, transfer, over, towards,
}
use bambu_timelapse.Ftps.Script.{
  Follows, Began-longer, Follows-later, and_then-Follows, expect-Follows,
}

-- After the connection for the data is open.
abbrev exchanged : Text → List Act
exchanged cmd = wrote cmd ∷ shaken ∷ drained ∷ shut ∷ []

sent-Follows :
    (cmd : Text) (w : Option Text) (what : Text) (c : Client)
    → Follows c.acts (wrote cmd ∷ []) (written cmd w c, passed w what)
sent-Follows cmd none what c = refl
sent-Follows cmd (some why) what c = ([], wrote cmd ∷ [], refl, sym (append-nil c.acts))

attempt-Follows :
    (w : Option Text) (what : Text) (act : Act) (c : Client)
    → Follows c.acts (act ∷ []) (attempt w what act c)
attempt-Follows none what act c = refl
attempt-Follows (some why) what act c = ([], act ∷ [], refl, sym (append-nil c.acts))

resumes-Follows : (b : Bool) (c : Client) → Follows c.acts [] (resumes b c)
resumes-Follows true c = sym (append-nil c.acts)
resumes-Follows false c = ([], [], refl, sym (append-nil c.acts))

bytes_read-Follows :
    (w : Option Text) (body : Text) (c : Client)
    → Follows c.acts (drained ∷ shut ∷ []) (bytes_read w body c)
bytes_read-Follows none body c = append_assoc c.acts (drained ∷ []) (shut ∷ [])
bytes_read-Follows (some why) body c =
    (drained ∷ shut ∷ [], [], refl, append_assoc c.acts (drained ∷ []) (shut ∷ []))

exchange-Follows :
    (ch : Channel) (cmd : Text) (c : Client) → Follows c.acts (exchanged cmd) (exchange ch cmd c)
unfolding exchange
exchange-Follows ch cmd c =
    and_then-Follows c.acts (wrote cmd ∷ []) (shaken ∷ drained ∷ shut ∷ []) (sent cmd c) _
      (sent-Follows cmd (next_write c.writes) _ c)
      (λ _ c1.
        and_then-Follows c1.acts (shaken ∷ []) (drained ∷ shut ∷ [])
          (attempt ch.handshake (text "ftps data handshake: ") shaken c1) _
          (attempt-Follows ch.handshake _ shaken c1)
          (λ _ c2.
            and_then-Follows c2.acts [] (drained ∷ shut ∷ []) (resumes ch.resumed c2) _
              (resumes-Follows ch.resumed c2)
              (λ _ c3.
                and_then-Follows c3.acts [] (drained ∷ shut ∷ []) (expect [] starting c3) _
                  (expect-Follows [] starting c3)
                  (λ _ c4.
                    and_then-Follows c4.acts (drained ∷ shut ∷ []) [] (bytes_read ch.cut ch.body c4)
                      _ (bytes_read-Follows ch.cut ch.body c4)
                      (λ body c5.
                        and_then-Follows c5.acts [] [] (expect [] ready c5) _
                          (expect-Follows [] ready c5) (λ _ c6. sym (append-nil c6.acts)))))))

Follows-released :
    (before s : List Act) (r : Client × Outcome Text)
    → Follows before s r
    → Follows before s (record r.0 { plain = r.0.plain - 1 }, r.1)
Follows-released before s (c, ok a) h = h
Follows-released before s (c, failed why) h = h

with_plain-Follows :
    (ch : Channel) (cmd : Text) (c : Client)
    → Follows c.acts (exchanged cmd) (with_plain (exchange ch cmd) c)
with_plain-Follows ch cmd c =
    Follows-released c.acts (exchanged cmd) (exchange ch cmd (record c { plain = suc c.plain }))
      (exchange-Follows ch cmd (record c { plain = suc c.plain }))

over-Follows :
    (net : Text → Channel) (cmd addr : Text) (c d : Client)
    → d.acts ≡ c.acts ++ wrote (text "PASV") ∷ []
    → Follows c.acts
        (wrote (text "PASV") ∷ opened addr ∷ exchanged cmd)
        (over (net addr) addr cmd d)
over-Follows net cmd addr c d h =
    Follows-later c.acts d.acts (wrote (text "PASV") ∷ []) (opened addr ∷ exchanged cmd)
      (over (net addr) addr cmd d) h
      (and_then-Follows d.acts (opened addr ∷ []) (exchanged cmd)
        (attempt (net addr).refused (text "ftps data dial: ") (opened addr) d) _
        (attempt-Follows (net addr).refused _ (opened addr) d)
        (λ _ c3. with_plain-Follows (net addr) cmd c3))

-- The acts of a transfer, in the order that the printer wants: above all the command before the
-- handshake.
abbrev pub transferred : Text → Text → List Act
transferred cmd addr = wrote (text "PASV") ∷ opened addr ∷ exchanged cmd

towards-Follows :
    (net : Text → Channel) (cmd : Text) (c d : Client) (o : Outcome Text)
    → d.acts ≡ c.acts ++ wrote (text "PASV") ∷ []
    → (addr : Text) × Follows c.acts (transferred cmd addr) (towards net cmd o d)
towards-Follows net cmd c d (failed why) h =
    ([], (wrote (text "PASV") ∷ [], opened [] ∷ exchanged cmd, refl, h))
towards-Follows net cmd c d (ok addr) h = (addr, over-Follows net cmd addr c d h)

passive-Follows :
    (syntax : Text → Text) (net : Text → Channel) (cmd : Text) (c : Client)
    (r : Client × Outcome Text)
    → Follows c.acts (wrote (text "PASV") ∷ []) r
    → (addr : Text) × Follows c.acts
        (transferred cmd addr)
        (and_then r (λ reply c1. towards net cmd (pasv_addr syntax c1.host reply) c1))
passive-Follows syntax net cmd c (d, failed why) h =
    ([], Began-longer c.acts (wrote (text "PASV") ∷ []) (opened [] ∷ exchanged cmd) d.acts h)
passive-Follows syntax net cmd c (d, ok reply) h =
    towards-Follows net cmd c d (pasv_addr syntax d.host reply) h

-- A transfer asks for the address, opens the data connection, sends its command, and only then
-- shakes hands, reads and closes: all of that if it succeeds, a beginning of it if it fails.
pub transfer-Follows :
    (syntax : Text → Text) (net : Text → Channel) (cmd : Text) (c : Client)
    → (addr : Text) × Follows c.acts (transferred cmd addr) (transfer syntax net cmd c)
unfolding transfer
transfer-Follows syntax net cmd c =
    passive-Follows syntax net cmd c (expect (text "PASV") ready c)
      (expect-Follows (text "PASV") ready c)
