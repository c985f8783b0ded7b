-- ===== src/Preview/Fetch/Directories.antt =====
-- `findArchive` of internal/preview/preview.go: which files the loop over the directories finds.
use bambu_timelapse.Prelude.{
  ◌≡◌, ◌⊎◌, ◌↔◌, inl, inr, refl, sym, ap, ◌∙◌, true, Option, none, some, List, [], ◌∷◌, ◌++◌, IsIn,
  Bool-cases,
}
use mathlib.Core.Path.{subst}
use bambu_timelapse.Go.Text.{Text, text}
use bambu_timelapse.Preview.Fetch.Ending.{Is3mf, is_3mf_iff}
use bambu_timelapse.Preview.{listed_file, is_3mf, archives_in, with_rest, found_in}

-- The directories that are searched.
abbrev pub four_dirs : List Text
four_dirs = text "/" ∷ text "/cache/" ∷ text "/sdcard/" ∷ text "/model/" ∷ []

right_of : (x : Text) (b : List Text) → ⊥ ⊎ IsIn x b → IsIn x b
right_of x b (inl h) = absurd h
right_of x b (inr h) = h

later_of : (x c : Text) (a b : List Text) → IsIn x a ⊎ IsIn x b → IsIn x (c ∷ a) ⊎ IsIn x b
later_of x c a b (inl i) = inl (inr i)
later_of x c a b (inr i) = inr i

IsIn-parts : (x : Text) (a b : List Text) → IsIn x (a ++ b) → IsIn x a ⊎ IsIn x b
IsIn-parts x [] b h = inr h
IsIn-parts x (c ∷ a) b (inl e) = inl (inl e)
IsIn-parts x (c ∷ a) b (inr h) = later_of x c a b (IsIn-parts x a b h)

IsIn-joined : (x : Text) (a b : List Text) → IsIn x a ⊎ IsIn x b → IsIn x (a ++ b)
IsIn-joined x [] b h = right_of x b h
IsIn-joined x (c ∷ a) b (inl (inl e)) = inl e
IsIn-joined x (c ∷ a) b (inl (inr i)) = inr (IsIn-joined x a b (inl i))
IsIn-joined x (c ∷ a) b (inr i) = inr (IsIn-joined x a b (inr i))

module _ (join_path : Text → Text → Text) where
  -- The path is that of a 3mf file in one of these lines of a directory.
  abbrev pub InLines : Text → List Text → Text → Type 0
  InLines dir lines path =
      (line : Text) × IsIn line lines
      × Is3mf (listed_file line)
      × (join_path dir (listed_file line) ≡ path)

  -- It is that of a 3mf file in one of these directories.
  abbrev pub IsArchive : (Text → Option (List Text)) → List Text → Text → Type 0
  IsArchive listing dirs path =
      (dir : Text) × (lines : List Text) × IsIn dir dirs
      × (listing dir ≡ some lines)
      × InLines dir lines path

  InLines-later :
      (dir line : Text) (lines : List Text) (path : Text)
      → InLines dir lines path
      → InLines dir (line ∷ lines) path
  InLines-later dir line lines path (l, i, t, e) = (l, inr i, t, e)

  InLines-first :
      (dir line : Text) (lines rest : List Text) (path : Text)
      → Is3mf (listed_file line)
      → (IsIn path rest → InLines dir lines path)
      → IsIn path (join_path dir (listed_file line) ∷ rest)
      → InLines dir (line ∷ lines) path
  InLines-first dir line lines rest path t f (inl e) = (line, inl refl, t, e)
  InLines-first dir line lines rest path t f (inr i) = InLines-later dir line lines path (f i)

  archives_in-InLines :
      (dir : Text) (lines : List Text) (path : Text)
      → IsIn path (archives_in join_path dir lines)
      → InLines dir lines path
  unfolding archives_in
  archives_in-InLines dir [] path h = absurd h
  archives_in-InLines dir (line ∷ lines) path h = elim (Bool-cases (is_3mf (listed_file line))) [
    | inl mine ↦
        InLines-first dir line lines (archives_in join_path dir lines) path
          ((is_3mf_iff (listed_file line)).0 mine) (archives_in-InLines dir lines path)
          (rw mine at h)
    | inr other ↦
        InLines-later dir line lines path (archives_in-InLines dir lines path (rw other at h))
  ]

  InLines-archives_in :
      (dir : Text) (lines : List Text) (path : Text)
      → InLines dir lines path
      → IsIn path (archives_in join_path dir lines)
  unfolding archives_in
  InLines-archives_in dir [] path (l, i, t, e) = absurd i
  InLines-archives_in dir (line ∷ lines) path (l, inl same, t, e) =
      let mine : is_3mf (listed_file line) ≡ true =
        ap (λ x. is_3mf (listed_file x)) same ∙ (is_3mf_iff (listed_file l)).1 t in
      rw mine (inl (ap (λ x. join_path dir (listed_file x)) same ∙ e))
  InLines-archives_in dir (line ∷ lines) path (l, inr i, t, e) =
      let rest = InLines-archives_in dir lines path (l, i, t, e) in
      elim (Bool-cases (is_3mf (listed_file line))) [
        | inl mine ↦ rw mine (inr rest)
        | inr other ↦ rw other rest
      ]

  -- What the loop over the directories comes to: one of them cannot be listed, or all are, and what
  -- is found are the archives.
  abbrev pub Gives : (Text → Option (List Text)) → List Text → Option (List Text) → Type 0
  Gives listing dirs none = (dir : Text) × IsIn dir dirs × (listing dir ≡ none)
  Gives listing dirs (some found) =
      ((path : Text) → IsIn path found ↔ IsArchive listing dirs path)
      × ((dir : Text) → ¬ (IsIn dir dirs × (listing dir ≡ none)))

  Gives-more :
      (listing : Text → Option (List Text)) (dir : Text) (dirs : List Text)
      (o r : Option (List Text))
      → listing dir ≡ o
      → Gives listing dirs r
      → Gives listing (dir ∷ dirs) (with_rest join_path dir o r)
  Gives-more listing dir dirs none r e h = (dir, inl refl, e)
  Gives-more listing dir dirs (some lines) none e (d, i, n) = (d, inr i, n)
  Gives-more listing dir dirs (some lines) (some found) e (same, all) = (
    λ path. (
      λ i. split_in path (IsIn-parts path (archives_in join_path dir lines) found i),
      λ a. IsIn-joined path (archives_in join_path dir lines) found (joined path a),
    ),
    λ d h. unlisted d h.0 h.1,
  )
    where
      split_in :
          (path : Text)
          → IsIn path (archives_in join_path dir lines) ⊎ IsIn path found
          → IsArchive listing (dir ∷ dirs) path
      split_in path (inl i) = (dir, lines, inl refl, e, archives_in-InLines dir lines path i)
      split_in path (inr i) = let (d, ls, j, l, k) = (same path).0 i in (d, ls, inr j, l, k)

      some_inj : {xs ys : List Text} → some xs ≡ some ys → xs ≡ ys
      some_inj h = cc

      here :
          (path d : Text) (ls : List Text)
          → dir ≡ d
          → listing d ≡ some ls
          → InLines d ls path
          → InLines dir lines path
      here path d ls at l (line, i, t, j) =
          let both : some lines ≡ some ls = sym e ∙ (ap listing at ∙ l) in
          let equal : lines ≡ ls = some_inj both in
          (
            line,
            subst (λ xs. IsIn line xs) (sym equal) i,
            t,
            ap (λ x. join_path x (listed_file line)) at ∙ j,
          )

      joined :
          (path : Text)
          → IsArchive listing (dir ∷ dirs) path
          → IsIn path (archives_in join_path dir lines) ⊎ IsIn path found
      joined path (d, ls, inl at, l, k) =
          inl (InLines-archives_in dir lines path (here path d ls at l k))
      joined path (d, ls, inr j, l, k) = inr ((same path).1 (d, ls, j, l, k))

      unlisted : (d : Text) → IsIn d (dir ∷ dirs) → listing d ≡ none → ⊥
      unlisted d (inl at) n = let clash : some lines ≡ none = sym e ∙ (ap listing at ∙ n) in cc
      unlisted d (inr i) n = all d (i, n)

  pub found_in-Gives :
      (listing : Text → Option (List Text)) (dirs : List Text)
      → Gives listing dirs (found_in join_path listing dirs)
  unfolding found_in
  found_in-Gives listing [] = (λ path. (λ i. absurd i, λ a. absurd a.2), λ d h. absurd h.0)
  found_in-Gives listing (dir ∷ dirs) =
      Gives-more listing dir dirs (listing dir) (found_in join_path listing dirs) refl
        (found_in-Gives listing dirs)
