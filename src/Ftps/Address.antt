-- ===== src/Ftps/Address.antt =====
-- `pasvAddr` of internal/ftps/ftps.go: the port of a 227 reply.
use bambu_timelapse.Prelude.{
  ℕ, suc, ◌+◌, ◌-◌, ◌*◌, ◌<◌, ◌^◌, pos, false, some, List, [], ◌∷◌, ◌++◌, append_assoc, append-nil,
  ltb, ◌==◌, length, take, drop, length-append, ◌≡◌, refl, ap, sym, ◌∙◌, arith,
}
use bambu_timelapse.Go.Text.{Text, text, join}
use bambu_timelapse.Go.Number.{digits, itoa, atoi, plus, times, is_digit}
use bambu_timelapse.Go.Strings.{index_of, trim_left, trim_space, join_host_port}
use bambu_timelapse.Go.Decimal.{
  AllDigits, digits-AllDigits, atoi-digits, Lacks, AllLack, Lacks-append, split-join,
  AllDigits-Lacks,
}
use bambu_timelapse.Go.Trim.{AllDigits-AllInk, trim_space-AllInk, trim_right-nil}
use bambu_timelapse.Ftps.{ok, pasv_addr}

index_of-append : (b : ℕ) (s t : Text) → Lacks b s → index_of b (s ++ b ∷ t) ≡ some (length s)
unfolding index_of
index_of-append b [] t h = ground arith
index_of-append b (c ∷ s) t h = rw (h.0, index_of-append b s t h.1)

drop-append : (s t : Text) → drop (length s) (s ++ t) ≡ t
drop-append [] t = refl
drop-append (c ∷ s) t = drop-append s t

take-append : (s t : Text) → take (length s) (s ++ t) ≡ s
take-append [] t = refl
take-append (c ∷ s) t = ap (◌∷◌ c) (take-append s t)

trim_space-AllDigits : (s : Text) → AllDigits s → trim_space s ≡ s
trim_space-AllDigits [] h = unfold trim_space in unfold trim_left in trim_right-nil
trim_space-AllDigits (c ∷ s) h =
    ap (λ t. trim_space (c ∷ t)) (sym (append-nil s))
    ∙ trim_space-AllInk c s [] (AllDigits-AllInk (c ∷ s) h) trim_right-nil

read_digits : (n : ℕ) → n < 2 ^ 63 → atoi (trim_space (digits n)) ≡ some (pos n)
read_digits n h = ap atoi (trim_space-AllDigits (digits n) (digits-AllDigits n)) ∙ atoi-digits n h

port_sum :
    (p1 p2 : ℕ) → p1 < 256 → p2 < 256 → plus (times (pos p1) 256) (pos p2) ≡ pos (p1 * 256 + p2)
port_sum p1 p2 h k = ground arith

Lacks-join :
    (b sep : ℕ) (ps : List Text) → (sep == b) ≡ false → AllLack b ps → Lacks b (join (sep ∷ []) ps)
unfolding join
Lacks-join b sep [] h k = tt
Lacks-join b sep (p ∷ []) h k = k.0
Lacks-join b sep (p ∷ q ∷ qs) h k = Lacks-append b p _ k.0 (h, Lacks-join b sep (q ∷ qs) h k.1)

-- The six fields of a reply, in text.
abbrev pub tuple : Text → Text → Text → Text → ℕ → ℕ → List Text
tuple h1 h2 h3 h4 p1 p2 = h1 ∷ h2 ∷ h3 ∷ h4 ∷ digits p1 ∷ digits p2 ∷ []

abbrev pub tuple_text : List Text → Text
tuple_text ps = join (text ",") ps

cut_out :
    (pre m post : Text)
    → take
        (length pre + suc (length m) - (length pre + 1))
        (drop (length pre + 1) (pre ++ (b'(' ∷ (m ++ (b')' ∷ post)))))
      ≡ m
cut_out pre m post =
    ap (λ n. take n (drop (length pre + 1) (pre ++ (b'(' ∷ (m ++ (b')' ∷ post)))))) (omega arith)
    ∙ ap (take (length m)) (dropped pre (m ++ (b')' ∷ post)))
    ∙ take-append m (b')' ∷ post)
  where
    dropped : (s t : Text) → drop (length s + 1) (s ++ (b'(' ∷ t)) ≡ t
    dropped s t =
        ap (λ n. drop n (s ++ (b'(' ∷ t))) (omega (arith, length-append s (b'(' ∷ [])))
        ∙ ap (drop (length (s ++ b'(' ∷ []))) (sym (append_assoc s (b'(' ∷ []) t))
        ∙ drop-append (s ++ b'(' ∷ []) t

closing_at :
    (pre m post : Text)
    → Lacks b')' pre
    → Lacks b')' m
    → index_of b')' (pre ++ (b'(' ∷ (m ++ (b')' ∷ post)))) ≡ some (length pre + suc (length m))
closing_at pre m post h k =
    ap (index_of b')') (sym (append_assoc pre (b'(' ∷ m) (b')' ∷ post)))
    ∙ index_of-append b')' (pre ++ b'(' ∷ m) post (Lacks-append b')' pre (b'(' ∷ m) h (refl, k))
    ∙ ap some (length-append pre (b'(' ∷ m))

tuple-AllLack :
    (b : ℕ) (h1 h2 h3 h4 : Text) (p1 p2 : ℕ)
    → is_digit b ≡ false
    → AllLack b (h1 ∷ h2 ∷ h3 ∷ h4 ∷ [])
    → AllLack b (tuple h1 h2 h3 h4 p1 p2)
tuple-AllLack b h1 h2 h3 h4 p1 p2 nd (c1, (c2, (c3, (c4, _)))) = (
  c1,
  (
    c2,
    (
      c3,
      (
        c4,
        (
          AllDigits-Lacks b (digits p1) (digits-AllDigits p1) nd,
          (AllDigits-Lacks b (digits p2) (digits-AllDigits p2) nd, tt),
        ),
      ),
    ),
  ),
)

not_before : (m n : ℕ) → ltb (m + suc n) m ≡ false
not_before m n = ground arith

-- The address of a passive reply is the host of the connection, whatever host the reply names,
-- with the port that its last two numbers stand for, below 65536.
pub pasv_addr-tuple :
    (syntax : Text → Text) (host pre post h1 h2 h3 h4 : Text) (p1 p2 : ℕ)
    → Lacks b'(' pre
    → Lacks b')' pre
    → AllLack b')' (h1 ∷ h2 ∷ h3 ∷ h4 ∷ [])
    → AllLack b',' (h1 ∷ h2 ∷ h3 ∷ h4 ∷ [])
    → p1 < 256
    → p2 < 256
    → (pasv_addr syntax host
          (pre ++ (b'(' ∷ (tuple_text (tuple h1 h2 h3 h4 p1 p2) ++ (b')' ∷ post))))
        ≡ ok (join_host_port host (itoa (pos (p1 * 256 + p2)))))
      × (p1 * 256 + p2 < 65536)
unfolding pasv_addr
pasv_addr-tuple syntax host pre post h1 h2 h3 h4 p1 p2 la lb cs ds k1 k2 =
    let ps = tuple h1 h2 h3 h4 p1 p2 in
    let m = tuple_text ps in
    (
      rw
          (
            index_of-append b'(' pre (m ++ (b')' ∷ post)) la,
            closing_at pre m post lb
                (Lacks-join b')' b',' ps refl (tuple-AllLack b')' h1 h2 h3 h4 p1 p2 refl cs)),
            not_before (length pre) (length m),
            cut_out pre m post,
            split-join b',' h1 (h2 ∷ h3 ∷ h4 ∷ digits p1 ∷ digits p2 ∷ [])
                (tuple-AllLack b',' h1 h2 h3 h4 p1 p2 refl ds),
            read_digits p1 (omega arith),
            read_digits p2 (omega arith),
            port_sum p1 p2 k1 k2,
          )
          refl,
      omega arith,
    )
