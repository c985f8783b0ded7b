-- ===== src/Preview/Choice.antt =====
-- internal/preview/preview.go, `pickPlate` and `findArchive`: what is chosen.
use bambu_timelapse.Prelude.{
  ◌≡◌, ◌≢◌, refl, ap, ◌∙◌, ℤ, Bool, true, false, ◌||◌, Option, none, some, List, [], ◌∷◌,
  if◌then◌else◌, arith, Bool-cases, inl, inr,
}
use bambu_timelapse.Go.Text.{Text, text_eq_iff, text_eq_refl, text_mem, is_empty, has_prefix}
use bambu_timelapse.Preview.{
  exact_name, is_render, pick_from, pick_plate, is_named, named_or, choose,
}

-- The first render in the list, whichever plate it is of.
abbrev pub first_render : List Text → Text
first_render [] = []
first_render (name ∷ names) = let rest = first_render names in if is_render name then name else rest

pick_with :
    (exact fallback : Text) (names : List Text)
    → is_empty fallback ≡ false
    → pick_from exact fallback names ≡ (if text_mem exact names then exact else fallback)
unfolding pick_from text_mem
pick_with exact fallback [] h = refl
pick_with exact fallback (name ∷ names) h =
    ground (arith, text_eq_iff name exact, pick_with exact fallback names h)

render_nonempty : (name : Text) → is_render name ≡ true → is_empty name ≡ false
unfolding has_prefix
render_nonempty [] h = cc
render_nonempty (c ∷ s) h = refl

pick_without :
    (exact : Text) (names : List Text)
    → pick_from exact [] names ≡ (if text_mem exact names then exact else first_render names)
unfolding pick_from text_mem
pick_without exact [] = refl
pick_without exact (name ∷ names) = ground (
  arith,
  text_eq_iff name exact,
  render_nonempty name,
  pick_with exact name names,
  pick_without exact names,
)

-- The picture is the render of the plate that is printing if the archive has it. Otherwise it is the
-- first full render of any plate, and none if there is none.
pub pick_plate_lem :
    (names : List Text) (plate : ℤ)
    → pick_plate names plate
      ≡ (if text_mem (exact_name plate) names then exact_name plate else first_render names)
unfolding pick_plate
pick_plate_lem names plate = pick_without (exact_name plate) names

head_mem : (c : Text) (cs : List Text) → text_mem c (c ∷ cs) ≡ true
unfolding text_mem
head_mem c cs = ap (λ b. b || text_mem c cs) (text_eq_refl c)

module _ (lower : Text → Text) where
  -- Is one of the archives named after the job?
  abbrev pub some_named : Text → List Text → Bool
  some_named job [] = false
  some_named job (c ∷ cs) = is_named lower job c || some_named job cs

  named_mem :
      (job default : Text) (cs : List Text)
      → some_named job cs ≡ true
      → (text_mem (named_or lower job default cs) cs ≡ true)
        × (is_named lower job (named_or lower job default cs) ≡ true)
  unfolding named_or text_mem
  named_mem job default [] h = cc
  named_mem job default (c ∷ cs) h = ground (arith, text_eq_refl c, named_mem job default cs)

  none_named :
      (job default : Text) (cs : List Text)
      → some_named job cs ≡ false
      → named_or lower job default cs ≡ default
  unfolding named_or
  none_named job default [] h = refl
  none_named job default (c ∷ cs) h = ground (arith, none_named job default cs)

  -- One of those found, and of several one that is named after the job, if there is one.
  abbrev pub IsChoice : Text → List Text → Option Text → Type 0
  IsChoice job found none = found ≡ []
  IsChoice job found (some a) =
      (text_mem a found ≡ true)
      × (found ≢ a ∷ [] → some_named job found ≡ true → is_named lower job a ≡ true)

  of_several :
      (job a b : Text) (rest : List Text)
      → text_mem (named_or lower job a (a ∷ b ∷ rest)) (a ∷ b ∷ rest) ≡ true
  of_several job a b rest = elim (Bool-cases (some_named job (a ∷ b ∷ rest))) [
    | inl known ↦ (named_mem job a (a ∷ b ∷ rest) known).0
    | inr unknown ↦
        ap (λ (c : Text). text_mem c (a ∷ b ∷ rest)) (none_named job a (a ∷ b ∷ rest) unknown)
        ∙ head_mem a (b ∷ rest)
  ]

  -- If archives are found, one of them is chosen, and of several one that is named after the job, if
  -- any is. None is chosen only if none is found.
  pub choose-IsChoice :
      (job : Text) (found : List Text) → IsChoice job found (choose lower job found)
  unfolding choose
  choose-IsChoice job [] = refl
  choose-IsChoice job (a ∷ []) = (head_mem a [], λ several. absurd (several refl))
  choose-IsChoice job (a ∷ b ∷ rest) =
      (of_several job a b rest, λ several known. (named_mem job a (a ∷ b ∷ rest) known).1)
