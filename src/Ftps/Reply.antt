-- ===== src/Ftps/Reply.antt =====
-- `command` of internal/ftps/ftps.go: where a reply ends.
use bambu_timelapse.Prelude.{
  true, false, none, List, [], ◌∷◌, ◌++◌, append_assoc, ◌≡◌, refl, ap, ◌∙◌, Bool-cases, inl, inr,
}
use bambu_timelapse.Go.Text.{Text, is_empty}
use bambu_timelapse.Ftps.{
  Client, ok, failed, label, final, read_reply, read_from, next_write, written, command,
}

abbrev pub AllPartial : List Text → Type 0
AllPartial [] = Unit
AllPartial (line ∷ lines) = (final line ≡ false) × AllPartial lines

-- The lines of a reply, one after the other.
abbrev pub spelled : List Text → Text → Text
spelled [] last = last
spelled (line ∷ lines) last = line ++ spelled lines last

read_reply-whole :
    (cmd ended out : Text) (lines : List Text) (last : Text) (rest : List Text)
    → AllPartial lines
    → final last ≡ true
    → read_reply cmd ended out (lines ++ last ∷ rest) ≡ (ok (out ++ spelled lines last), rest)
unfolding read_reply
read_reply-whole cmd ended out [] last rest h e = rw e refl
read_reply-whole cmd ended out (line ∷ lines) last rest h e = rw h.0 (
    read_reply-whole cmd ended (out ++ line) lines last rest h.1 e
    ∙ ap (λ t. (ok t, rest)) (append_assoc out line (spelled lines last)))

read_reply-short :
    (cmd ended out : Text) (lines : List Text)
    → AllPartial lines
    → read_reply cmd ended out lines ≡ (failed (label cmd ended), [])
unfolding read_reply
read_reply-short cmd ended out [] h = refl
read_reply-short cmd ended out (line ∷ lines) h =
    rw h.0 (read_reply-short cmd ended (out ++ line) lines h.1)

read_from-whole :
    (cmd : Text) (c : Client) (lines : List Text) (last : Text) (rest : List Text)
    → c.lines ≡ lines ++ last ∷ rest
    → AllPartial lines
    → final last ≡ true
    → ((read_from cmd c).1 ≡ ok (spelled lines last)) × ((read_from cmd c).0.lines ≡ rest)
unfolding read_from
read_from-whole cmd c lines last rest s h e =
    rw (s, read_reply-whole cmd c.ended [] lines last rest h e) (refl, refl)

read_from-short :
    (cmd : Text) (c : Client)
    → AllPartial c.lines
    → ((read_from cmd c).1 ≡ failed (label cmd c.ended)) × ((read_from cmd c).0.lines ≡ [])
unfolding read_from
read_from-short cmd c h = rw (read_reply-short cmd c.ended [] c.lines h) (refl, refl)

-- A command whose line goes out returns with the reply as soon as the reply's last line has come,
-- and leaves what the printer sends after that for the next reply.
pub command-whole :
    (cmd : Text) (c : Client) (lines : List Text) (last : Text) (rest : List Text)
    → next_write c.writes ≡ none
    → c.lines ≡ lines ++ last ∷ rest
    → AllPartial lines
    → final last ≡ true
    → ((command cmd c).1 ≡ ok (spelled lines last)) × ((command cmd c).0.lines ≡ rest)
unfolding command
command-whole cmd c lines last rest w s h e = elim (Bool-cases (is_empty cmd)) [
  | inl silent ↦ rw silent (read_from-whole cmd c lines last rest s h e)
  | inr spoken ↦ rw (spoken, w) (read_from-whole cmd (written cmd none c) lines last rest s h e)
]

-- A command whose reply does not end fails with the error of the connection, and not with half a
-- reply.
pub command-short :
    (cmd : Text) (c : Client)
    → next_write c.writes ≡ none
    → AllPartial c.lines
    → ((command cmd c).1 ≡ failed (label cmd c.ended)) × ((command cmd c).0.lines ≡ [])
unfolding command
command-short cmd c w h = elim (Bool-cases (is_empty cmd)) [
  | inl silent ↦ rw silent (read_from-short cmd c h)
  | inr spoken ↦ rw (spoken, w) (read_from-short cmd (written cmd none c) h)
]
