-- ===== src/Preview/Fetch/Picked.antt =====
-- `findArchive` of internal/preview/preview.go: which of the files that are found is picked.
use bambu_timelapse.Prelude.{
  ◌≡◌, ◌≢◌, ◌⊎◌, ◌↔◌, inl, inr, refl, sym, ap, ◌∙◌, true, false, Option, none, some, List, [], ◌∷◌,
  ◌++◌, IsIn, Bool-cases, arith,
}
use mathlib.Core.Bool.{true≢false}
use mathlib.Core.Path.{subst}
use bambu_timelapse.Go.Text.{Text, is_empty_iff, contains}
use bambu_timelapse.Go.Affix.{contains_iff}
use bambu_timelapse.Preview.{is_named, named_or, choose}

module _ (lower : Text → Text) where
  -- The path holds the job's title, in any case, if the job has a title.
  abbrev pub IsNamed : Text → Text → Type 0
  IsNamed job path =
      (job ≢ [])
      × ((before : Text) × (after : Text) × (lower path ≡ before ++ (lower job ++ after)))

  pub is_named_iff : (job path : Text) → (is_named lower job path ≡ true) ↔ IsNamed job path
  is_named_iff job path =
      let (c1, c2) = contains_iff (lower path) (lower job) in
      (
        λ h. ((λ e. ground (arith, is_empty_iff job)), c1 (ground arith)),
        λ h.
            let part : contains (lower path) (lower job) ≡ true = c2 h.1 in
            ground (arith, is_empty_iff job),
      )

  abbrev pub NoneNamed : Text → List Text → Type 0
  NoneNamed job found = (b : Text) → ¬ (IsIn b found × (is_named lower job b ≡ true))

  none_more :
      (job c : Text) (cs : List Text)
      → is_named lower job c ≡ false
      → NoneNamed job cs
      → NoneNamed job (c ∷ cs)
  none_more job c cs other none' b (inl same, n) =
      true≢false (sym n ∙ (ap (λ x. is_named lower job x) (sym same) ∙ other))
  none_more job c cs other none' b (inr i, n) = none' b (i, n)

  -- The result is one of these and named after the job, or the default, and none of these is.
  abbrev pub NamedOr : Text → Text → List Text → Text → Type 0
  NamedOr job default cs r =
      (IsIn r cs × (is_named lower job r ≡ true)) ⊎ ((r ≡ default) × NoneNamed job cs)

  NamedOr-later :
      (job default c : Text) (cs : List Text) {r : Text}
      → is_named lower job c ≡ false
      → NamedOr job default cs r
      → NamedOr job default (c ∷ cs) r
  NamedOr-later job default c cs other (inl (i, n)) = inl (inr i, n)
  NamedOr-later job default c cs other (inr (e, nobody)) = inr (e, none_more job c cs other nobody)

  named_or_lem :
      (job default : Text) (cs : List Text) → NamedOr job default cs (named_or lower job default cs)
  unfolding named_or
  named_or_lem job default [] = inr (refl, λ b h. absurd h.0)
  named_or_lem job default (c ∷ cs) = elim (Bool-cases (is_named lower job c)) [
    | inl mine ↦
        let step : c ≡ named_or lower job default (c ∷ cs) = rw mine refl in
        subst (NamedOr job default (c ∷ cs)) step (inl (inl refl, mine))
    | inr other ↦
        let step : named_or lower job default cs ≡ named_or lower job default (c ∷ cs) =
          rw other refl in
        subst (NamedOr job default (c ∷ cs)) step
          (NamedOr-later job default c cs other (named_or_lem job default cs))
  ]

  abbrev pub IsPick : Text → List Text → Option Text → Type 0
  IsPick job found none = found ≡ []
  IsPick job found (some a) = IsIn a found × ((is_named lower job a ≡ true) ⊎ NoneNamed job found)

  several :
      (job a : Text) (cs : List Text) (r : Text)
      → IsIn a cs
      → NamedOr job a cs r
      → IsPick job cs (some r)
  several job a cs r i (inl (j, n)) = (j, inl n)
  several job a cs r i (inr (e, nobody)) = (subst (λ x. IsIn x cs) (sym e) i, inr nobody)

  pub choose-IsPick : (job : Text) (found : List Text) → IsPick job found (choose lower job found)
  unfolding choose
  choose-IsPick job [] = refl
  choose-IsPick job (a ∷ []) = elim (Bool-cases (is_named lower job a)) [
    | inl mine ↦ (inl refl, inl mine)
    | inr other ↦ (inl refl, inr (none_more job a [] other (λ b h. absurd h.0)))
  ]
  choose-IsPick job (a ∷ b ∷ rest) =
      several job a (a ∷ b ∷ rest) (named_or lower job a (a ∷ b ∷ rest)) (inl refl)
        (named_or_lem job a (a ∷ b ∷ rest))
