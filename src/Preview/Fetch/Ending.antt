-- ===== src/Preview/Fetch/Ending.antt =====
-- `findArchive` of internal/preview/preview.go: which names have the extension of an archive.
use bambu_timelapse.Prelude.{
  ℕ, ◌-◌, ◌≡◌, ◌⊎◌, ◌↔◌, inl, inr, refl, sym, ap, ◌∙◌, true, List, [], ◌∷◌, ◌++◌, IsIn, take, drop,
  length, length-append, take-append-drop, arith,
}
use bambu_timelapse.Go.Text.{Text, text}
use bambu_timelapse.Go.Affix.{drop-append}
use bambu_timelapse.Preview.{ends_3mf, is_3mf}

-- The extension, in any case.
abbrev pub extensions : List Text
extensions = text ".3mf" ∷ text ".3mF" ∷ text ".3Mf" ∷ text ".3MF" ∷ []

abbrev pub Is3mf : Text → Type 0
Is3mf name = (stem : Text) × (ext : Text) × IsIn ext extensions × (name ≡ stem ++ ext)

letters :
    (a b c d : ℕ)
    → a ≡ 46
    → b ≡ 51
    → (c ≡ 109) ⊎ (c ≡ 77)
    → (d ≡ 102) ⊎ (d ≡ 70)
    → IsIn (a ∷ b ∷ c ∷ d ∷ []) extensions
letters a b c d ea eb (inl p) (inl q) = rw (ea, eb, p, q) (inl refl)
letters a b c d ea eb (inl p) (inr q) = rw (ea, eb, p, q) (inr (inl refl))
letters a b c d ea eb (inr p) (inl q) = rw (ea, eb, p, q) (inr (inr (inl refl)))
letters a b c d ea eb (inr p) (inr q) = rw (ea, eb, p, q) (inr (inr (inr (inl refl))))

ends_3mf-extension : (t : Text) → ends_3mf t ≡ true → IsIn t extensions
ends_3mf-extension [] h = ground arith
ends_3mf-extension (a ∷ []) h = ground arith
ends_3mf-extension (a ∷ b ∷ []) h = ground arith
ends_3mf-extension (a ∷ b ∷ c ∷ []) h = ground arith
ends_3mf-extension (a ∷ b ∷ c ∷ d ∷ []) h =
    letters a b c d (ground arith) (ground arith) (ground arith) (ground arith)
ends_3mf-extension (a ∷ b ∷ c ∷ d ∷ e ∷ t) h = ground arith

extension-ends_3mf : (t : Text) → IsIn t extensions → ends_3mf t ≡ true
extension-ends_3mf t (inl e) = ap ends_3mf (sym e)
extension-ends_3mf t (inr (inl e)) = ap ends_3mf (sym e)
extension-ends_3mf t (inr (inr (inl e))) = ap ends_3mf (sym e)
extension-ends_3mf t (inr (inr (inr (inl e)))) = ap ends_3mf (sym e)
extension-ends_3mf t (inr (inr (inr (inr e)))) = absurd e

length-extension : (t : Text) → IsIn t extensions → length t ≡ 4
length-extension t (inl e) = ap length (sym e)
length-extension t (inr (inl e)) = ap length (sym e)
length-extension t (inr (inr (inl e))) = ap length (sym e)
length-extension t (inr (inr (inr (inl e)))) = ap length (sym e)
length-extension t (inr (inr (inr (inr e)))) = absurd e

is_3mf-Is3mf : (name : Text) → is_3mf name ≡ true → Is3mf name
unfolding is_3mf
is_3mf-Is3mf name h =
    let n = length name - 4 in
    let ends : ends_3mf (drop n name) ≡ true = ground arith in
    (take n name, drop n name, ends_3mf-extension (drop n name) ends, sym (take-append-drop n name))

joined-is_3mf : (stem ext : Text) → IsIn ext extensions → is_3mf (stem ++ ext) ≡ true
unfolding is_3mf
joined-is_3mf stem ext i =
    let four : length ext ≡ 4 = length-extension ext i in
    let at : length (stem ++ ext) - 4 ≡ length stem = omega (arith, length-append stem ext) in
    let rest : drop (length (stem ++ ext) - 4) (stem ++ ext) ≡ ext =
      ap (λ n. drop n (stem ++ ext)) at ∙ drop-append stem ext in
    let ends : ends_3mf (drop (length (stem ++ ext) - 4) (stem ++ ext)) ≡ true =
      ap ends_3mf rest ∙ extension-ends_3mf ext i in
    ground (arith, length-append stem ext)

-- strings.EqualFold(path.Ext(name), ".3mf") tells the extension.
pub is_3mf_iff : (name : Text) → (is_3mf name ≡ true) ↔ Is3mf name
is_3mf_iff name = (is_3mf-Is3mf name, λ h. ap is_3mf h.3 ∙ joined-is_3mf h.0 h.1 h.2)
