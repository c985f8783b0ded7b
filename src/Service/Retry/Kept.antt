-- ===== src/Service/Retry/Kept.antt =====
-- internal/service/service.go, `retryParked`: which parked jobs go, and which stay.
use bambu_timelapse.Prelude.{
  ℤ, ◌+◌, ◌≤◌, ◌≡◌, refl, sym, ap, ◌∙◌, ◌↔◌, inl, inr, Bool, true, false, ◌&&◌, not, Option, none,
  some, List, [], ◌∷◌, ◌++◌, length, IsIn, dropped, IsIn-dropped, arith, Bool-cases,
}
use mathlib.Core.Bool.{true≢false}
use bambu_timelapse.Go.Text.{Text, text, has_prefix, has_suffix}
use bambu_timelapse.Go.Affix.{has_prefix_iff, has_suffix_iff}
use bambu_timelapse.Session.Store.{Store, JobDir}
use bambu_timelapse.Uploader.{PostResult, posted, failed}
use bambu_timelapse.Service.Metrics.{Counters}
use bambu_timelapse.Service.Retry.{
  Answers, video_in, find_video, has_video, is_taken, is_retried, retry_from, retry_parked,
}

-- A plain file whose name ends in ".mp4".
abbrev pub HasVideo : List (Text × Bool) → Type 0
HasVideo files = (stem : Text) × IsIn (stem ++ text ".mp4", false) files

video_in-HasVideo :
    (files : List (Text × Bool)) → has_video (video_in files) ≡ true → HasVideo files
video_in-HasVideo [] h = ground arith
video_in-HasVideo ((name, is_dir) ∷ rest) h =
    elim (Bool-cases (not is_dir && has_suffix name (text ".mp4"))) [
      | inl here ↦
          let plain : is_dir ≡ false = ground arith in
          let (stem, e) = (has_suffix_iff name (text ".mp4")).0 (ground arith) in
          (stem, inl (ap (λ n. (n, is_dir)) e ∙ ap (λ b. (stem ++ text ".mp4", b)) plain))
      | inr other ↦ let (stem, later) = video_in-HasVideo rest (rw other at h) in (stem, inr later)
    ]

HasVideo-video_in :
    (files : List (Text × Bool)) → HasVideo files → has_video (video_in files) ≡ true
HasVideo-video_in [] h = absurd h.1
HasVideo-video_in ((name, is_dir) ∷ rest) (stem, inl same) =
    let named : has_suffix name (text ".mp4") ≡ true =
      (has_suffix_iff name (text ".mp4")).1 (stem, ap (λ x. x.0) same) in
    let plain : is_dir ≡ false = ap (λ x. x.1) same in rw (named, plain) refl
HasVideo-video_in ((name, is_dir) ∷ rest) (stem, inr later) =
    elim (Bool-cases (not is_dir && has_suffix name (text ".mp4"))) [
      | inl here ↦ rw here refl
      | inr other ↦ rw other (HasVideo-video_in rest (stem, later))
    ]

-- The name is that of a failed upload, there is a video, and the post of it is taken.
abbrev pub IsPosted : Answers → Text → Type 0
IsPosted a name =
    ((job : Text) × (name ≡ text "upload-failed-" ++ job))
    × ((files : List (Text × Bool)) × (a.files name ≡ some files) × HasVideo files)
    × ((ids : List ℤ) × (a.post name ≡ posted ids))

is_taken-posted : (r : PostResult) → is_taken r ≡ true → (ids : List ℤ) × (r ≡ posted ids)
is_taken-posted (posted ids) h = (ids, refl)
is_taken-posted (failed e) h = ground arith

find_video-files :
    (o : Option (List (Text × Bool)))
    → has_video (find_video o) ≡ true
    → (files : List (Text × Bool)) × (o ≡ some files) × HasVideo files
unfolding find_video
find_video-files none h = ground arith
find_video-files (some files) h = (files, refl, video_in-HasVideo files h)

find_video-HasVideo :
    (o : Option (List (Text × Bool)))
    → ((files : List (Text × Bool)) × (o ≡ some files) × HasVideo files)
    → has_video (find_video o) ≡ true
unfolding find_video
find_video-HasVideo o (files, e, v) =
    ap (λ p. has_video (find_video p)) e ∙ HasVideo-video_in files v

and_true : (b c d : Bool) → (b && (c && d)) ≡ true → (b ≡ true) × (c ≡ true) × (d ≡ true)
and_true b c d h = ground arith

is_retried_iff : (a : Answers) (name : Text) → (is_retried a name ≡ true) ↔ IsPosted a name
unfolding is_retried
is_retried_iff a name = (
  λ h.
      let (p, v, t) =
        and_true (has_prefix name (text "upload-failed-")) (has_video (find_video (a.files name)))
          (is_taken (a.post name)) h in
      (
        (has_prefix_iff name (text "upload-failed-")).0 p,
        find_video-files (a.files name) v,
        is_taken-posted (a.post name) t,
      ),
  λ h.
      rw
        (
          (has_prefix_iff name (text "upload-failed-")).1 h.0,
          find_video-HasVideo (a.files name) h.1,
          ap is_taken h.2.1,
        )
        refl,
)

stays_iff :
    (a : Answers) (name : Text)
    → ((is_retried a name && a.removable name) ≡ false)
      ↔ (¬ (IsPosted a name × (a.removable name ≡ true)))
stays_iff a name =
    let (r1, r2) = is_retried_iff a name in
    (
      λ e h. true≢false (sym (both (r2 h.0) h.1) ∙ e),
      λ no. elim (Bool-cases (is_retried a name)) [
        | inr other ↦ rw other refl
        | inl mine ↦ elim (Bool-cases (a.removable name)) [
          | inr held ↦ rw (mine, held) refl
          | inl goes ↦ absurd (no (r1 mine, goes))
        ]
      ],
    )
  where
    both :
        is_retried a name ≡ true
        → a.removable name ≡ true
        → (is_retried a name && a.removable name) ≡ true
    both e h = rw (e, h) refl

module _ {A : Type 0} where
  retry_from-dropped :
      (a : Answers) (es : List (Text × JobDir A))
      → (retry_from a es).0 ≡ dropped (λ x. is_retried a x.0 && a.removable x.0) es
  unfolding retry_from
  retry_from-dropped a [] = refl
  retry_from-dropped a ((j, d) ∷ rest) = elim (Bool-cases (is_retried a j)) [
    | inr other ↦ rw other (ap (λ l. (j, d) ∷ l) (retry_from-dropped a rest))
    | inl mine ↦ elim (Bool-cases (a.removable j)) [
      | inl goes ↦ rw (mine, goes) (retry_from-dropped a rest)
      | inr held ↦ rw (mine, held) (ap (λ l. (j, d) ∷ l) (retry_from-dropped a rest))
    ]
  ]

  retry_from-counted :
      (a : Answers) (es : List (Text × JobDir A))
      → length es ≤ length (retry_from a es).0 + (retry_from a es).1
  unfolding retry_from
  retry_from-counted a [] = omega arith
  retry_from-counted a ((j, d) ∷ rest) = ground (arith, retry_from-counted a rest)

  -- Where the parked jobs can be listed, a job stays parked exactly if it was and if it is not both
  -- posted and removable: posted are those whose name starts with `upload-failed-`, that hold a
  -- plain file ending in `.mp4`, and whose post is taken. Every job that goes is counted as an
  -- upload, and no staged job is touched.
  pub retry_parked_lem :
      (a : Answers) (c : Counters) (st : Store A) (name : Text) (d : JobDir A)
      → a.listed ≡ true
      → let r = retry_parked a c st in
        (IsIn (name, d) r.0.failed
          ↔ IsIn (name, d) st.failed × (¬ (IsPosted a name × (a.removable name ≡ true))))
        × (length st.failed + c.uploads_ok ≤ length r.0.failed + r.1.uploads_ok)
        × (r.0.jobs ≡ st.jobs)
  unfolding retry_parked
  retry_parked_lem a c st name d listed =
      let (out, into) =
        IsIn-dropped (λ x. is_retried a x.0 && a.removable x.0) (name, d) st.failed in
      let (s1, s2) = stays_iff a name in
      simp listed (
        rw (retry_from-dropped a st.failed)
            ((λ h. ((out h).0, s1 (out h).1)), (λ h. into (h.0, s2 h.1))),
        omega (arith, retry_from-counted a st.failed),
        refl,
      )
