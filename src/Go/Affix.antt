-- ===== src/Go/Affix.antt =====
-- strings.HasPrefix and strings.HasSuffix: which texts they hold of.
use bambu_timelapse.Prelude.{
  ◌-◌, ◌≡◌, refl, sym, ap, ◌∙◌, ◌↔◌, true, [], ◌∷◌, ◌++◌, arith, take, drop, length, length-append,
  take-append-drop, append-nil, Bool-cases, inl, inr,
}
use bambu_timelapse.Go.Text.{Text, text_eq_iff, has_prefix, has_suffix, contains, is_empty_iff}

prefix_rest : (s p : Text) → has_prefix s p ≡ true → (rest : Text) × (s ≡ p ++ rest)
unfolding has_prefix
prefix_rest s [] h = (s, refl)
prefix_rest [] (b ∷ p) h = ground arith
prefix_rest (a ∷ s) (b ∷ p) h =
    let same : a ≡ b = ground arith in
    let (rest, e) = prefix_rest s p (ground arith) in
    (rest, ap (λ c. c ∷ s) same ∙ ap (λ t. b ∷ t) e)

prefix_of_append : (p rest : Text) → has_prefix (p ++ rest) p ≡ true
unfolding has_prefix
prefix_of_append [] rest = prefix_nil rest
  where
    prefix_nil : (s : Text) → has_prefix s [] ≡ true
    prefix_nil [] = refl
    prefix_nil (a ∷ s) = refl
prefix_of_append (b ∷ p) rest = ground (arith, prefix_of_append p rest)

pub has_prefix_iff : (s p : Text) → (has_prefix s p ≡ true) ↔ (rest : Text) × (s ≡ p ++ rest)
has_prefix_iff s p = (prefix_rest s p, λ h. ap (λ t. has_prefix t p) h.1 ∙ prefix_of_append p h.0)

pub drop-append : (s t : Text) → drop (length s) (s ++ t) ≡ t
drop-append [] t = refl
drop-append (a ∷ s) t = drop-append s t

suffix_stem : (s p : Text) → has_suffix s p ≡ true → (stem : Text) × (s ≡ stem ++ p)
unfolding has_suffix
suffix_stem s p h =
    let n = length s - length p in
    let same : drop n s ≡ p = ground (arith, text_eq_iff (drop n s) p) in
    (take n s, sym (take-append-drop n s) ∙ ap (λ t. take n s ++ t) same)

suffix_of_append : (stem p : Text) → has_suffix (stem ++ p) p ≡ true
unfolding has_suffix
suffix_of_append stem p =
    let len : length (stem ++ p) - length p ≡ length stem = omega (arith, length-append stem p) in
    let same : drop (length (stem ++ p) - length p) (stem ++ p) ≡ p =
      ap (λ n. drop n (stem ++ p)) len ∙ drop-append stem p in
    ground (
      arith,
      length-append stem p,
      text_eq_iff (drop (length (stem ++ p) - length p) (stem ++ p)) p,
    )

pub has_suffix_iff : (s p : Text) → (has_suffix s p ≡ true) ↔ (stem : Text) × (s ≡ stem ++ p)
has_suffix_iff s p = (suffix_stem s p, λ h. ap (λ t. has_suffix t p) h.1 ∙ suffix_of_append h.0 p)

contains_parts : (s p : Text) → contains s p ≡ true → (u : Text) × (v : Text) × (s ≡ u ++ (p ++ v))
unfolding contains
contains_parts [] p h = ([], [], sym ((is_empty_iff p).0 h) ∙ sym (append-nil p))
contains_parts (a ∷ s) p h = elim (Bool-cases (has_prefix (a ∷ s) p)) [
  | inl here ↦ let (v, e) = prefix_rest (a ∷ s) p here in ([], v, e)
  | inr later ↦ let (u, v, e) = contains_parts s p (rw later at h) in (a ∷ u, v, ap (λ t. a ∷ t) e)
]

contains_nil : (v : Text) → contains v [] ≡ true
unfolding contains has_prefix
contains_nil [] = refl
contains_nil (a ∷ v) = refl

contains_of_append : (u p v : Text) → contains (u ++ (p ++ v)) p ≡ true
unfolding contains
contains_of_append [] [] v = contains_nil v
contains_of_append [] (b ∷ p) v = rw (prefix_of_append (b ∷ p) v) refl
contains_of_append (a ∷ u) p v = ground (arith, contains_of_append u p v)

pub contains_iff :
    (s p : Text) → (contains s p ≡ true) ↔ (u : Text) × (v : Text) × (s ≡ u ++ (p ++ v))
contains_iff s p =
    (contains_parts s p, λ h. ap (λ t. contains t p) h.2 ∙ contains_of_append h.0 p h.1)
