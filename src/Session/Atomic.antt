-- ===== src/Session/Atomic.antt =====
-- `Save` of internal/session/session.go, on the files of one directory: what the disk holds at each
-- moment, so that a crash can come at any of them.
use bambu_timelapse.Prelude.{
  ℕ, ◌≡◌, ◌≢◌, ◌⊎◌, inl, inr, refl, Bool, true, false, Option, some, List, [], ◌∷◌, ◌++◌, map, take,
  if◌then◌else◌, arith,
}
use bambu_timelapse.Go.Text.{Text, text, text_eq_iff}
use bambu_timelapse.Session.Dirs.{Files, get, put, remove, get-put}

-- How a save goes: how many bytes of the temporary file the disk holds as it is written, whether
-- the write ends without an error, and whether the rename does.
pub record Writes : Type 0 where
  pub landed : List ℕ
  pub wrote : Bool
  pub renames : Bool

-- After the write: the temporary file whole, and then, in one step, in the place of the state file.
abbrev replaced : Writes → Text → Text → Text → Files → List Files
replaced w tmp state body fs =
    put tmp body fs ∷ (if w.renames then put state body (remove tmp fs) ∷ [] else [])

-- What the disk holds at each moment of a save, the first of them before it.
unfoldable pub save_stages : Writes → Text → Text → Text → Files → List Files
save_stages w tmp state body fs =
    fs
    ∷ (map (λ n. put tmp (take n body) fs) w.landed
        ++ (if w.wrote then replaced w tmp state body fs else []))

-- `Save`, of a body that is already JSON
unfoldable pub save_file : (Text → Text → Text) → Writes → Text → Text → Files → List Files
save_file join_path w dir body fs =
    save_stages w (join_path dir (text "state.json.tmp")) (join_path dir (text "state.json")) body
      fs

-- On every disk of the list the state file is the old one or the new one.
abbrev pub AllWhole : Text → Option Text → Text → List Files → Type 0
AllWhole state old body [] = Unit
AllWhole state old body (fs ∷ rest) =
    ((get state fs ≡ old) ⊎ (get state fs ≡ some body)) × AllWhole state old body rest

AllWhole-append :
    (state : Text) (old : Option Text) (body : Text) (xs ys : List Files)
    → AllWhole state old body xs
    → AllWhole state old body ys
    → AllWhole state old body (xs ++ ys)
AllWhole-append state old body [] ys h k = k
AllWhole-append state old body (x ∷ xs) ys (h, hs) k =
    (h, AllWhole-append state old body xs ys hs k)

module _ (tmp state body : Text) (fs : Files) (apart : tmp ≢ state) where
  written-AllWhole : (v : Text) → get state (put tmp v fs) ≡ get state fs
  written-AllWhole v = ground (arith, get-put tmp state v fs, text_eq_iff tmp state)

  landed-AllWhole :
      (ns : List ℕ) → AllWhole state (get state fs) body (map (λ n. put tmp (take n body) fs) ns)
  landed-AllWhole [] = tt
  landed-AllWhole (n ∷ ns) = (inl (written-AllWhole (take n body)), landed-AllWhole ns)

  renamed-AllWhole : get state (put state body (remove tmp fs)) ≡ some body
  renamed-AllWhole =
      ground (arith, get-put state state body (remove tmp fs), text_eq_iff state state)

  ended-AllWhole :
      (wrote renames : Bool)
      → let stages =
          if wrote
          then put tmp body fs ∷ (if renames then put state body (remove tmp fs) ∷ [] else [])
          else [] in
        AllWhole state (get state fs) body stages
  ended-AllWhole false renames = tt
  ended-AllWhole true false = (inl (written-AllWhole body), tt)
  ended-AllWhole true true = (inl (written-AllWhole body), (inr renamed-AllWhole, tt))

-- At every moment of a save, wherever its writes or its rename fail, the state file is whole: what
-- it was before, or what is saved. The temporary file has a path of its own.
pub save_file-AllWhole :
    (join_path : Text → Text → Text) (w : Writes) (dir body : Text) (fs : Files)
    → join_path dir (text "state.json.tmp") ≢ join_path dir (text "state.json")
    → AllWhole
        (join_path dir (text "state.json"))
        (get (join_path dir (text "state.json")) fs)
        body
        (save_file join_path w dir body fs)
unfolding save_file save_stages
save_file-AllWhole join_path w dir body fs apart =
    let tmp = join_path dir (text "state.json.tmp") in
    let state = join_path dir (text "state.json") in
    (
      inl refl,
      AllWhole-append state _ body (map (λ n. put tmp (take n body) fs) w.landed) _
          (landed-AllWhole tmp state body fs apart w.landed)
          (ended-AllWhole tmp state body fs apart w.wrote w.renames),
    )
