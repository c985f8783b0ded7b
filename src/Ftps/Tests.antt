-- ===== src/Ftps/Tests.antt =====
-- The FTPS client on small scripts of a printer.
use bambu_timelapse.Prelude.{◌<◌, true, none, List, [], ◌∷◌, ◌++◌, ◌≡◌, refl, arith, pos}
use bambu_timelapse.Go.Text.{Text, text, has_prefix}
use bambu_timelapse.Go.Number.{itoa, digits, digits_onto, atoi, parse_nat, parse_digits}
use bambu_timelapse.Go.Strings.{
  index_of, split, byte_mem, all_in, trim_end, trim_left, all_blank, trim_right, trim_space,
  join_host_port,
}
use bambu_timelapse.Ftps.{
  Client, ok, failed, crlf, redact, final, read_reply, read_from, command, expect, log_in, dial,
  pasv_addr, Channel, exchange, transfer, lines_of, listed,
}
use bambu_timelapse.Ftps.Reply.{command-whole}
use bambu_timelapse.Ftps.Secret.{blind_result, dial-secret}
use bambu_timelapse.Ftps.Script.{Follows}
use bambu_timelapse.Ftps.Transfer.{transferred, transfer-Follows}
use bambu_timelapse.Ftps.Address.{tuple, tuple_text, pasv_addr-tuple}

abbrev client : List Text → Client
client lines = record {
  host = text "10.0.0.9";
  lines = lines;
  ended = text "EOF";
  writes = [];
  acts = [];
  plain = 0;
  closed = 0;
}

abbrev hello : Text
hello = text "220-hello" ++ crlf

abbrev welcome : Text
welcome = text "220 welcome" ++ crlf

abbrev fine : Text
fine = text "200 fine" ++ crlf

abbrev passive : Text
passive = text "227 Entering (0,0,0,0,7,208)" ++ crlf

abbrev begins : Text
begins = text "150 here it comes" ++ crlf

abbrev quoted : Text → Text
quoted s = text "invalid syntax: " ++ s

abbrev channel : Text → Channel
channel addr = record {
  refused = none;
  handshake = none;
  resumed = true;
  body = text "a.3mf" ++ (crlf ++ (crlf ++ text "b"));
  cut = none;
}

abbrev logs_in : Client
logs_in = client (hello ∷ welcome ∷ fine ∷ fine ∷ fine ∷ fine ∷ fine ∷ [])

abbrev refuses : Client
refuses = client (welcome ∷ fine ∷ (text "530 Login incorrect." ++ crlf) ∷ [])

abbrev transfers : Client
transfers = client (passive ∷ begins ∷ fine ∷ [])

refused_login : (dial (text "secret") refuses).1 ≡ failed (text "ftps PASS: 530 Login incorrect.")
unfolding dial log_in expect command read_from read_reply final trim_end all_in byte_mem redact
    has_prefix trim_space trim_left trim_right all_blank
refused_login = refl

listed_lines :
    (listed quoted channel (text "/cache/") transfers).1 ≡ ok (text "a.3mf" ∷ text "b" ∷ [])
unfolding listed transfer exchange expect command read_from read_reply final trim_end all_in
    byte_mem redact has_prefix pasv_addr index_of split trim_space trim_left trim_right all_blank
    atoi parse_nat parse_digits itoa digits digits_onto lines_of
listed_lines = refl

command-whole_example :
    ((command [] logs_in).1 ≡ ok (hello ++ welcome))
    × ((command [] logs_in).0.lines ≡ fine ∷ fine ∷ fine ∷ fine ∷ fine ∷ [])
unfolding final trim_end all_in byte_mem
command-whole_example =
    command-whole [] logs_in (hello ∷ []) welcome (fine ∷ fine ∷ fine ∷ fine ∷ fine ∷ []) refl refl
      (refl, tt) refl

dial-secret_example :
    blind_result (dial (text "one") refuses) ≡ blind_result (dial (text "other") refuses)
dial-secret_example = dial-secret (text "one") (text "other") refuses

transfer-Follows_example :
    (addr : Text) × Follows []
      (transferred (text "RETR /a") addr)
      (transfer quoted channel (text "RETR /a") transfers)
transfer-Follows_example = transfer-Follows quoted channel (text "RETR /a") transfers

pasv_addr-tuple_example :
    (pasv_addr quoted (text "10.0.0.9") (
        text "227 Entering "
        ++ (b'('
            ∷ (tuple_text (tuple (text "0") (text "0") (text "0") (text "0") 7 208)
                ++ (b')' ∷ crlf))))
      ≡ ok (join_host_port (text "10.0.0.9") (itoa (pos 2000))))
    × (2000 < 65536)
pasv_addr-tuple_example =
    pasv_addr-tuple quoted (text "10.0.0.9") (text "227 Entering ") crlf (text "0") (text "0")
      (text "0") (text "0") 7 208 (ground arith) (ground arith) (ground arith) (ground arith)
      (omega arith) (omega arith)
