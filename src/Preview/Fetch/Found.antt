-- ===== src/Preview/Fetch/Found.antt =====
-- `findArchive` of internal/preview/preview.go: which archive it finds, told without its loops.
use bambu_timelapse.Prelude.{◌≡◌, ◌⊎◌, inl, inr, sym, true, Option, none, some, List, IsIn}
use mathlib.Core.Path.{subst}
use bambu_timelapse.Go.Text.{Text}
use bambu_timelapse.Ftps.{Client, Channel}
use bambu_timelapse.Preview.{search_dirs, found_in, is_named, choose, chosen, find_archive}
use bambu_timelapse.Preview.Fetch.{locate}
use bambu_timelapse.Preview.Fetch.Archive.{value, Answers, locate-find_archive}
use bambu_timelapse.Preview.Fetch.Directories.{four_dirs, IsArchive, Gives, found_in-Gives}
use bambu_timelapse.Preview.Fetch.Picked.{IsNamed, is_named_iff, NoneNamed, IsPick, choose-IsPick}

module _ (syntax : Text → Text) (join_path : Text → Text → Text) (lower : Text → Text) where
  -- An archive that is found is a 3mf file in one of the four directories, all of which can be
  -- listed, and it is named after the job if any of these files is. None is found only if one of the
  -- four cannot be listed or there is no 3mf file in them.
  abbrev pub IsFound : (Text → Option (List Text)) → Text → Option Text → Type 0
  IsFound listing job none =
      ((dir : Text) × IsIn dir four_dirs × (listing dir ≡ none))
      ⊎ ((path : Text) → ¬ (IsArchive join_path listing four_dirs path))
  IsFound listing job (some a) =
      IsArchive join_path listing four_dirs a
      × ((dir : Text) → ¬ (IsIn dir four_dirs × (listing dir ≡ none)))
      × (IsNamed lower job a
          ⊎ ((b : Text) → ¬ (IsArchive join_path listing four_dirs b × IsNamed lower job b)))

  chosen-IsFound :
      (listing : Text → Option (List Text)) (job : Text) (o : Option (List Text))
      → Gives join_path listing four_dirs o
      → IsFound listing job (chosen lower job o)
  chosen-IsFound listing job none h = inl h
  chosen-IsFound listing job (some found) (same, all) =
      picked (choose lower job found) (choose-IsPick lower job found)
    where
      named :
          (a : Text)
          → (is_named lower job a ≡ true) ⊎ NoneNamed lower job found
          → IsNamed lower job a
            ⊎ ((b : Text) → ¬ (IsArchive join_path listing four_dirs b × IsNamed lower job b))
      named a (inl n) = inl ((is_named_iff lower job a).0 n)
      named a (inr nobody) =
          inr (λ b h. nobody b ((same b).1 h.0, (is_named_iff lower job b).1 h.1))

      picked : (o : Option Text) → IsPick lower job found o → IsFound listing job o
      picked none e = inr (λ path a. subst (λ xs. IsIn path xs) e ((same path).1 a))
      picked (some a) (i, n) = ((same a).0 i, all, named a n)

  -- Where a listing gives what the printer answers for each directory in its turn, what is found over
  -- the connection is a file in one of `/`, `/cache/`, `/sdcard/` and `/model/` that ends in `.3mf`,
  -- in any case, and one whose path holds the title of the job, in any case, if there is such a file.
  -- Nothing is found if one of the four directories cannot be listed, or if there is no such file in
  -- them, and only then.
  pub locate-IsFound :
      (net : Text → Channel) (listing : Text → Option (List Text)) (job : Text) (c : Client)
      → Answers syntax join_path lower net listing four_dirs c
      → IsFound listing job (value (locate syntax join_path lower net job c).1)
  unfolding find_archive
  locate-IsFound net listing job c h =
      subst (IsFound listing job)
        (sym (locate-find_archive syntax join_path lower net listing job c h))
        (chosen-IsFound listing job (found_in join_path listing search_dirs)
          (found_in-Gives join_path listing search_dirs))
