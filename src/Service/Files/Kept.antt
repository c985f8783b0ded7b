-- ===== src/Service/Files/Kept.antt =====
-- `move` of internal/service/helpers.go: where the video is, however the move ends.
use bambu_timelapse.Prelude.{
  ◌≡◌, ◌≢◌, ◌⊎◌, ◌∙◌, inl, inr, refl, sym, ap, Option, none, some, arith, take, Bool-cases,
}
use bambu_timelapse.Go.Text.{Text, text_eq_iff}
use bambu_timelapse.Session.Dirs.{Files, get, put, remove, get-put, get-remove}
use bambu_timelapse.Service.Files.{Disk, unless, read_after, copy_across, move_from, move}

module _ (k : Text) (v : Text) (m : Files) where
  get-put_self : get k (put k v m) ≡ some v
  get-put_self = ground (arith, get-put k k v m, text_eq_iff k k)

  pub get-put_other : (j : Text) → j ≢ k → get j (put k v m) ≡ get j m
  get-put_other j ne = ground (arith, get-put k j v m, text_eq_iff k j)

module _ (k : Text) (m : Files) where
  get-remove_self : get k (remove k m) ≡ none
  get-remove_self = ground (arith, get-remove k k m, text_eq_iff k k)

  get-remove_other : (j : Text) → j ≢ k → get j (remove k m) ≡ get j m
  get-remove_other j ne = ground (arith, get-remove k j m, text_eq_iff k j)

-- The video is where it should be, and no other file has changed.
abbrev pub IsMoved : Text → Text → Text → Text → Files → Files × Option Text → Type 0
IsMoved src dst body other fs (fs', why) =
    (((why ≡ none) × (get dst fs' ≡ some body) × (get src fs' ≡ none))
      ⊎ ((why ≢ none) × (get src fs' ≡ some body)))
    × (get other fs' ≡ get other fs)

unless-IsMoved :
    (src dst body other : Text) (fs fs' : Files) (e : Option Text) (r : Files × Option Text)
    → get src fs' ≡ some body
    → get other fs' ≡ get other fs
    → IsMoved src dst body other fs r
    → IsMoved src dst body other fs (unless e fs' r)
unless-IsMoved src dst body other fs fs' none r s o h = h
unless-IsMoved src dst body other fs fs' (some why) r s o h = (inr ((λ e. ground arith), s), o)

-- From the writing of the destination on, with what can be read of the source.
written-IsMoved :
    (src dst body other back : Text) (fs : Files) (d : Disk)
    → src ≢ dst
    → other ≢ src
    → other ≢ dst
    → get src fs ≡ some body
    → back ≡ body
    → let kept = put dst (take d.landed back) fs in
      let whole = put dst back fs in
      IsMoved src dst body other fs (
        unless d.copy_error kept
          (unless d.close_error kept (unless d.remove_error whole (remove src whole, none))))
written-IsMoved src dst body other back fs d apart o1 o2 there same =
    let kept = put dst (take d.landed back) fs in
    let whole = put dst back fs in
    let s1 : get src kept ≡ some body = get-put_other dst _ fs src apart ∙ there in
    let s2 : get src whole ≡ some body = get-put_other dst _ fs src apart ∙ there in
    let o3 : get other kept ≡ get other fs = get-put_other dst _ fs other o2 in
    let o4 : get other whole ≡ get other fs = get-put_other dst _ fs other o2 in
    unless-IsMoved src dst body other fs kept d.copy_error _ s1 o3 (
      unless-IsMoved src dst body other fs kept d.close_error _ s1 o3 (
        unless-IsMoved src dst body other fs whole d.remove_error _ s2 o4 (
          inl (
            refl,
            get-remove_other src whole dst (λ e. apart (sym e))
                ∙ (get-put_self dst back fs ∙ ap some same),
            get-remove_self src whole,
          ),
          get-remove_other src whole other o1 ∙ o4,
        )))

module _ (src dst body other : Text) (fs : Files) where
  move_from-IsMoved :
      (d : Disk)
      → src ≢ dst
      → other ≢ src
      → other ≢ dst
      → get src fs ≡ some body
      → IsMoved src dst body other fs (move_from d src dst fs (some body))
  unfolding copy_across
  move_from-IsMoved d apart o1 o2 there = elim (Bool-cases d.renames) [
    | inl one ↦ simp (one) (
        (
          inl (
            refl,
            get-put_self dst body (remove src fs),
            get-put_other dst body (remove src fs) src apart ∙ get-remove_self src fs,
          ),
          get-put_other dst body (remove src fs) other o2 ∙ get-remove_other src fs other o1,
        ))
    | inr across ↦ simp (across) (
        unless-IsMoved src dst body other fs fs d.open_error _ there refl (
          unless-IsMoved src dst body other fs fs d.create_error _ there refl (
            written-IsMoved src dst body other (read_after src dst body) fs d apart o1 o2 there
              (ground (arith, text_eq_iff src dst)))))
  ]

  -- Moving a file that is there to another path ends in one of two ways: without an error, and then
  -- the file is whole at the destination and gone from the source; or with one, and then the source
  -- still holds it. Neither changes another file.
  pub move-IsMoved :
      (d : Disk)
      → src ≢ dst
      → other ≢ src
      → other ≢ dst
      → get src fs ≡ some body
      → IsMoved src dst body other fs (move d src dst fs)
  unfolding move
  move-IsMoved d apart o1 o2 there = rw there (move_from-IsMoved d apart o1 o2 there)

unless-other :
    (e : Option Text) (fs fs' : Files) (r : Files × Option Text) (q : Text)
    → get q fs' ≡ get q fs
    → get q r.0 ≡ get q fs
    → get q (unless e fs' r).0 ≡ get q fs
unless-other none fs fs' r q h k = k
unless-other (some why) fs fs' r q h k = h

move_from-other :
    (d : Disk) (src dst : Text) (fs : Files) (o : Option Text) (q : Text)
    → q ≢ src
    → q ≢ dst
    → get q (move_from d src dst fs o).0 ≡ get q fs
unfolding copy_across
move_from-other d src dst fs none q o1 o2 = refl
move_from-other d src dst fs (some body) q o1 o2 = elim (Bool-cases d.renames) [
  | inl one ↦
      simp (one) (get-put_other dst body (remove src fs) q o2 ∙ get-remove_other src fs q o1)
  | inr across ↦ simp (across) (
      unless-other d.open_error fs fs _ q refl (
        unless-other d.create_error fs fs _ q refl (
          unless-other d.copy_error fs _ _ q (get-put_other dst _ fs q o2) (
            unless-other d.close_error fs _ _ q (get-put_other dst _ fs q o2) (
              unless-other d.remove_error fs _ _ q (get-put_other dst _ fs q o2)
                (get-remove_other src _ q o1 ∙ get-put_other dst _ fs q o2))))))
]

-- A move changes no file but its two, whether or not the source is there.
pub move-other :
    (d : Disk) (src dst : Text) (fs : Files) (q : Text)
    → q ≢ src
    → q ≢ dst
    → get q (move d src dst fs).0 ≡ get q fs
unfolding move
move-other d src dst fs q o1 o2 = move_from-other d src dst fs (get src fs) q o1 o2
