-- ===== src/Preview/Fetch/Archive.antt =====
-- `findArchive` of internal/preview/preview.go: over the connection, and on what it lists.
use bambu_timelapse.Prelude.{
  ◌≡◌, refl, sym, ◌∙◌, ap, Option, none, some, List, [], ◌∷◌, ◌++◌, append-nil, append_assoc, arith,
}
use bambu_timelapse.Go.Text.{Text}
use bambu_timelapse.Ftps.{Client, Outcome, ok, failed, and_then, Channel, listed}
use bambu_timelapse.Preview.{
  search_dirs, archives_in, with_rest, found_in, choose, chosen, find_archive,
}
use bambu_timelapse.Preview.Fetch.{search, found_or, locate}

abbrev pub value : {A : Type 0} → Outcome A → Option A
value (ok a) = some a
value (failed why) = none

abbrev onto : List Text → Option (List Text) → Option (List Text)
onto found none = none
onto found (some more) = some (found ++ more)

onto-with_rest :
    (join_path : Text → Text → Text) (found lines : List Text) (dir : Text)
    (rest : Option (List Text))
    → onto (found ++ archives_in join_path dir lines) rest
      ≡ onto found (with_rest join_path dir (some lines) rest)
onto-with_rest join_path found lines dir none = refl
onto-with_rest join_path found lines dir (some more) =
    ap some (append_assoc found (archives_in join_path dir lines) more)

-- Where an operation went well, this holds of the connection that it leaves.
abbrev pub AfterOk : (Client → Type 0) → Client × Outcome (List Text) → Type 0
AfterOk P (c, failed why) = Unit
AfterOk P (c, ok lines) = P c

module _ (syntax : Text → Text) (join_path : Text → Text → Text) (lower : Text → Text) where
  -- The listing gives for each directory the lines that the printer sends when it is asked for that
  -- directory in its turn, and none for the first one that cannot be listed.
  abbrev pub Answers : (Text → Channel) → (Text → Option (List Text)) → List Text → Client → Type 0
  Answers net listing [] c = Unit
  Answers net listing (dir ∷ dirs) c =
      (listing dir ≡ value (listed syntax net dir c).1)
      × AfterOk (Answers net listing dirs) (listed syntax net dir c)

  search_step :
      (net : Text → Channel) (listing : Text → Option (List Text)) (dir : Text) (dirs : List Text)
      (found : List Text) (r : Client × Outcome (List Text))
      → listing dir ≡ value r.1
      → ((lines : List Text)
          → r.1 ≡ ok lines
          → value
              (search syntax join_path lower net dirs
                (found ++ archives_in join_path dir lines)
                r.0).1
            ≡ onto (found ++ archives_in join_path dir lines) (found_in join_path listing dirs))
      → value
          (and_then r (λ lines c.
            search syntax join_path lower net dirs (found ++ archives_in join_path dir lines) c)).1
        ≡ onto found (with_rest join_path dir (listing dir) (found_in join_path listing dirs))
  search_step net listing dir dirs found (c, failed why) e h = rw e refl
  search_step net listing dir dirs found (c, ok lines) e h =
      h lines refl
      ∙ (onto-with_rest join_path found lines dir (found_in join_path listing dirs)
          ∙ ap (λ l. onto found (with_rest join_path dir l (found_in join_path listing dirs)))
              (sym e))

  after_ok :
      (P : Client → Type 0) (r : Client × Outcome (List Text)) (lines : List Text)
      → AfterOk P r
      → r.1 ≡ ok lines
      → P r.0
  after_ok P (c, failed why) lines h e = let empty : none ≡ some lines = ap value e in ground arith
  after_ok P (c, ok _) lines h e = h

  search_lem :
      (net : Text → Channel) (listing : Text → Option (List Text)) (dirs found : List Text)
      (c : Client)
      → Answers net listing dirs c
      → value (search syntax join_path lower net dirs found c).1
        ≡ onto found (found_in join_path listing dirs)
  unfolding search found_in
  search_lem net listing [] found c h = ap some (sym (append-nil found))
  search_lem net listing (dir ∷ dirs) found c h =
      search_step net listing dir dirs found (listed syntax net dir c) h.0 (λ lines e.
        search_lem net listing dirs (found ++ archives_in join_path dir lines) _
          (after_ok (Answers net listing dirs) (listed syntax net dir c) lines h.1 e))

  chosen_lem : (o : Option Text) (c : Client) → value (found_or syntax join_path lower o c).1 ≡ o
  chosen_lem none c = refl
  chosen_lem (some archive) c = refl

  found_or_lem :
      (job : Text) (r : Client × Outcome (List Text)) (o : Option (List Text))
      → value r.1 ≡ onto [] o
      → value (and_then r (λ found c. found_or syntax join_path lower (choose lower job found) c)).1
        ≡ chosen lower job o
  found_or_lem job (c, failed why) none e = refl
  found_or_lem job (c, failed why) (some found) e = ground arith
  found_or_lem job (c, ok found) none e = ground arith
  found_or_lem job (c, ok found) (some same) e =
      chosen_lem (choose lower job found) c ∙ ap (λ o. chosen lower job o) e

  -- The loops over the connection come to those over the listing.
  pub locate-find_archive :
      (net : Text → Channel) (listing : Text → Option (List Text)) (job : Text) (c : Client)
      → Answers net listing search_dirs c
      → value (locate syntax join_path lower net job c).1 ≡ find_archive lower join_path listing job
  unfolding locate find_archive
  locate-find_archive net listing job c h =
      found_or_lem job (search syntax join_path lower net search_dirs [] c) _
        (search_lem net listing search_dirs [] c h)
