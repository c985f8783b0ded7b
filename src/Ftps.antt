-- ===== src/Ftps.antt =====
-- internal/ftps/ftps.go: the FTPS client of the printer's file store. A connection is the script of
-- what the printer does with it, and the record of what the client did with it.
pub mod Reply
pub mod Secret
pub mod Script
pub mod Transfer
pub mod Whole
pub mod Address
mod Tests
use bambu_timelapse.Prelude.{
  ℕ, suc, ◌+◌, ◌-◌, Bool, true, false, ◌&&◌, not, Option, none, some, List, [], ◌∷◌, ◌++◌, ltb,
  ◌==◌, if◌then◌else◌, length, take, drop, get_elem?, ℤ,
}
use bambu_timelapse.Go.Text.{Text, text, is_empty, has_prefix}
use bambu_timelapse.Go.Number.{atoi, itoa, times, plus}
use bambu_timelapse.Go.Strings.{index_of, split, trim_end, trim_space, join_host_port}

-- What the client does, but for reading: a line written, the data connection opened, its TLS
-- handshake done, its bytes read, its closing.
pub data Act : Type 0 where
  wrote : Text → Act
  opened : Text → Act
  shaken : Act
  drained : Act
  shut : Act

-- `Client`. `lines` are the lines that the printer still sends and `ended` the error after them,
-- `writes` the errors of the writes to come, none for a write that succeeds and for those past its
-- end. `plain` counts the open data connections, and `closed` the calls of Close.
pub record Client : Type 0 where
  pub host : Text
  pub lines : List Text
  pub ended : Text
  pub writes : List (Option Text)
  pub acts : List Act
  pub plain : ℕ
  pub closed : ℕ

pub data Outcome (A : Type 0) : Type 0 where
  ok : A → Outcome A
  failed : Text → Outcome A

abbrev pub did : Act → Client → Client
did act c = record c { acts = c.acts ++ act ∷ [] }

-- `redact`
unfoldable pub redact : Text → Text
redact cmd = if has_prefix cmd (text "PASS ") then text "PASS" else cmd

abbrev pub crlf : Text
crlf = 13 ∷ 10 ∷ []

abbrev fourth_is_space : Option ℕ → Bool
fourth_is_space none = false
fourth_is_space (some b) = b == b' '

-- `final`
unfoldable pub final : Text → Bool
final line =
    let trimmed = trim_end crlf line in
    ltb 3 (length trimmed) && fourth_is_space (get_elem? trimmed 3)

abbrev pub label : Text → Text → Text
label cmd why = text "ftps " ++ (redact cmd ++ (text ": " ++ why))

-- The loop of `command`: the reply so far, and the lines left.
unfoldable pub read_reply : Text → Text → Text → List Text → Outcome Text × List Text
read_reply cmd ended out [] = (failed (label cmd ended), [])
read_reply cmd ended out (line ∷ lines) =
    let rest = read_reply cmd ended (out ++ line) lines in
    if final line then (ok (out ++ line), lines) else rest

abbrev after_read : Client → Outcome Text × List Text → Client × Outcome Text
after_read c r = (record c { lines = r.1 }, r.0)

unfoldable pub read_from : Text → Client → Client × Outcome Text
unfolding read_reply
read_from cmd c = after_read c (read_reply cmd c.ended [] c.lines)

-- fmt.Fprintf to the connection: the error, if it fails.
abbrev pub next_write : List (Option Text) → Option Text
next_write [] = none
next_write (w ∷ ws) = w

abbrev pub later_writes : List (Option Text) → List (Option Text)
later_writes [] = []
later_writes (w ∷ ws) = ws

abbrev pub written : Text → Option Text → Client → Client
written cmd none c = did (wrote cmd) (record c { writes = later_writes c.writes })
written cmd (some why) c = record c { writes = later_writes c.writes }

abbrev pub answered : Text → Option Text → Client → Client × Outcome Text
answered cmd none c = read_from cmd c
answered cmd (some why) c = (c, failed (label cmd why))

-- `command`
unfoldable pub command : Text → Client → Client × Outcome Text
unfolding read_from
command cmd c =
    if is_empty cmd
    then read_from cmd c
    else answered cmd (next_write c.writes) (written cmd (next_write c.writes) c)

abbrev pub in_class : Text → List ℕ → Bool
in_class [] classes = false
in_class (b ∷ s) [] = false
in_class (b ∷ s) (class ∷ classes) = if b == b'0' + class then true else in_class (b ∷ s) classes

abbrev pub accepted : Text → List ℕ → Outcome Text → Outcome Text
accepted cmd classes (failed why) = failed why
accepted cmd classes (ok reply) =
    if in_class reply classes then ok reply else failed (label cmd (trim_space reply))

-- `expect`
unfoldable pub expect : Text → List ℕ → Client → Client × Outcome Text
unfolding command
expect cmd classes c = let r = command cmd c in (r.0, accepted cmd classes r.1)

abbrev pub starting : List ℕ
starting = 1 ∷ []

abbrev pub ready : List ℕ
ready = 2 ∷ []

abbrev pub ready_or_more : List ℕ
ready_or_more = 2 ∷ 3 ∷ []

-- The steps of `Dial`.
abbrev pub steps : Text → List (Text × List ℕ)
steps access_code =
    (text "USER bblp", ready_or_more)
    ∷ (text "PASS " ++ access_code, ready)
    ∷ (text "PBSZ 0", ready)
    ∷ (text "PROT P", ready)
    ∷ (text "TYPE I", ready)
    ∷ []

-- What follows an operation that went well; its error is passed on.
abbrev pub and_then :
    {A B : Type 0} → Client × Outcome A → (A → Client → Client × Outcome B) → Client × Outcome B
and_then (c, failed why) next = (c, failed why)
and_then (c, ok a) next = next a c

-- `fail`
abbrev pub fail : Client × Outcome Unit → Client × Outcome Unit
fail (c, failed why) = (record c { closed = suc c.closed }, failed why)
fail (c, ok _) = (c, ok tt)

unfoldable pub log_in : List (Text × List ℕ) → Client → Client × Outcome Unit
unfolding expect
log_in [] c = (c, ok tt)
log_in (step ∷ rest) c = and_then (expect step.0 step.1 c) (λ reply c'. log_in rest c')

-- `Dial`, on a connection that is up.
unfoldable pub dial : Text → Client → Client × Outcome Unit
unfolding expect log_in
dial access_code c =
    fail (and_then (expect [] ready c) (λ greeting c'. log_in (steps access_code) c'))

-- `Close`
unfoldable pub close : Client → Client
unfolding command
close c = let c' = (command (text "QUIT") c).0 in record c' { closed = suc c'.closed }

abbrev bad_port : Text
bad_port = text "ftps pasv port: "

-- `syntax` is the text of the error of strconv.Atoi.
module _ (syntax : Text → Text) where
  abbrev port_from : Option ℤ → Text → Option ℤ → Text → Text → Outcome Text
  port_from none p1 low p2 host = failed (bad_port ++ syntax p1)
  port_from (some high) p1 none p2 host = failed (bad_port ++ syntax p2)
  port_from (some high) p1 (some low) p2 host =
      ok (join_host_port host (itoa (plus (times high 256) low)))

  abbrev fields_address : Text → Text → List Text → Outcome Text
  fields_address host reply (h1 ∷ h2 ∷ h3 ∷ h4 ∷ p1 ∷ p2 ∷ []) =
      port_from (atoi (trim_space p1)) (trim_space p1) (atoi (trim_space p2)) (trim_space p2) host
  fields_address host reply _ = failed (text "ftps pasv: " ++ trim_space reply)

  abbrev between : Text → Text → Option ℕ → Option ℕ → Outcome Text
  between host reply none closing = failed (text "ftps pasv: " ++ trim_space reply)
  between host reply (some opening) none = failed (text "ftps pasv: " ++ trim_space reply)
  between host reply (some opening) (some closing) =
      if ltb closing opening
      then failed (text "ftps pasv: " ++ trim_space reply)
      else fields_address host reply
          (split b',' (take (closing - (opening + 1)) (drop (opening + 1) reply)))

  -- `pasvAddr`
  unfoldable pub pasv_addr : Text → Text → Outcome Text
  pasv_addr host reply = between host reply (index_of b'(' reply) (index_of b')' reply)

-- What the network does with one data connection.
pub record Channel : Type 0 where
  pub refused : Option Text
  pub handshake : Option Text
  pub resumed : Bool
  pub body : Text
  pub cut : Option Text

abbrev pub passed : Option Text → Text → Outcome Unit
passed none what = ok tt
passed (some why) what = failed (what ++ why)

abbrev pub attempt : Option Text → Text → Act → Client → Client × Outcome Unit
attempt none what act c = (did act c, ok tt)
attempt (some why) what act c = (c, failed (what ++ why))

-- From the command on: write it, shake hands, and read the bytes between the two replies.
abbrev pub sent : Text → Client → Client × Outcome Unit
sent cmd c =
    let w = next_write c.writes in (written cmd w c, passed w (text "ftps " ++ (cmd ++ text ": ")))

abbrev pub resumes : Bool → Client → Client × Outcome Unit
resumes true c = (c, ok tt)
resumes false c = (c, failed (text "ftps data channel did not resume the control session"))

abbrev pub bytes_read : Option Text → Text → Client → Client × Outcome Text
bytes_read none body c = (did shut (did drained c), ok body)
bytes_read (some why) body c = (did shut (did drained c), failed (text "ftps read: " ++ why))

unfoldable pub exchange : Channel → Text → Client → Client × Outcome Text
unfolding expect
exchange ch cmd c = and_then (sent cmd c) (λ _ c1.
    and_then (attempt ch.handshake (text "ftps data handshake: ") shaken c1) (λ _ c2.
      and_then (resumes ch.resumed c2) (λ _ c3. and_then (expect [] starting c3) (λ _ c4.
        and_then (bytes_read ch.cut ch.body c4)
          (λ body c5. and_then (expect [] ready c5) (λ _ c6. (c6, ok body)))))))

-- The deferred `plain.Close()`.
abbrev pub with_plain : (Client → Client × Outcome Text) → Client → Client × Outcome Text
with_plain run c =
    let r = run (record c { plain = suc c.plain }) in (record r.0 { plain = r.0.plain - 1 }, r.1)

abbrev pub addressed : Outcome Text → Client → Client × Outcome Text
addressed addr c = (c, addr)

-- From the data connection on, which `net` makes of an address.
abbrev pub over : Channel → Text → Text → Client → Client × Outcome Text
over ch addr cmd c =
    and_then (attempt ch.refused (text "ftps data dial: ") (opened addr) c)
      (λ _ c3. with_plain (exchange ch cmd) c3)

abbrev pub towards : (Text → Channel) → Text → Outcome Text → Client → Client × Outcome Text
towards net cmd addr c = and_then (addressed addr c) (λ a c2. over (net a) a cmd c2)

unfoldable pub lines_of : List Text → List Text
lines_of [] = []
lines_of (line ∷ rest) =
    let kept = trim_end (13 ∷ []) line in
    let later = lines_of rest in if is_empty kept then later else kept ∷ later

module _ (syntax : Text → Text) where
  -- `transfer`
  unfoldable pub transfer : (Text → Channel) → Text → Client → Client × Outcome Text
  unfolding expect pasv_addr exchange
  transfer net cmd c =
      and_then (expect (text "PASV") ready c)
        (λ reply c1. towards net cmd (pasv_addr syntax c1.host reply) c1)

  -- `List`
  unfoldable pub listed : (Text → Channel) → Text → Client → Client × Outcome (List Text)
  unfolding transfer lines_of
  listed net dir c =
      and_then (transfer net (text "LIST " ++ dir) c)
        (λ body c'. (c', ok (lines_of (split 10 body))))

  -- `Retrieve`
  unfoldable pub retrieve : (Text → Channel) → Text → Client → Client × Outcome Text
  unfolding transfer
  retrieve net path c = transfer net (text "RETR " ++ path) c
