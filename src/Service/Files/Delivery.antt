-- ===== src/Service/Files/Delivery.antt =====
-- `deliverLocally` of internal/service/service.go: where the video of a print is that is kept on this
-- machine, and which files are as they were.
use bambu_timelapse.Prelude.{
  ◌≡◌, ◌≢◌, ◌⊎◌, ◌∙◌, inl, inr, refl, sym, ap, Bool, true, false, not, Option, none, some, [], ◌∷◌,
  dropped, Bool-cases, if◌then◌else◌, arith,
}
use mathlib.Core.Bool.{true≢false}
use bambu_timelapse.Go.Text.{Text, text_eq, text_eq_iff}
use bambu_timelapse.Session.{Session}
use bambu_timelapse.Session.Dirs.{Files, get}
use bambu_timelapse.Session.Store.{Store}
use bambu_timelapse.Service.Metrics.{Counters}
use bambu_timelapse.Service.Finalize.{
  Settings, Host, Outcome, recorded, output_unwritable, deliver_locally,
}
use bambu_timelapse.Service.Files.{Disk, move}
use bambu_timelapse.Service.Files.Kept.{IsMoved, move-IsMoved, move-other, get-put_other}
use bambu_timelapse.Service.Files.Local.{
  Local, Paths, cover_dest, note_dest, cover_moved, noted_in, after_video, deliver_files,
}

-- A path that the delivery does not touch once the video is moved: none of the cover's two and of the
-- caption's, and not in the job's directory.
pub record IsAside (ext : Text → Text) (p : Paths) (q : Text) : Type 0 where
  pub from_cover : p.cover ≢ some q
  pub from_cover_dest : q ≢ cover_dest ext p.dest
  pub from_note : q ≢ note_dest ext p.dest
  pub from_job : p.in_job q ≡ false

get-dropped :
    (b : Text → Bool) (q : Text) (fs : Files)
    → b q ≡ false
    → get q (dropped (λ x. b x.0) fs) ≡ get q fs
unfolding get
get-dropped b q [] h = refl
get-dropped b q ((j, v) ∷ fs) h = elim (Bool-cases (b j)) [
  | inl goes ↦
      let differs : j ≢ q = λ e. true≢false (sym goes ∙ (ap b e ∙ h)) in
      let other : text_eq j q ≡ false = ground (arith, text_eq_iff j q) in
      rw (goes, other) (get-dropped b q fs h)
  | inr stays ↦ elim (Bool-cases (text_eq j q)) [
    | inl same ↦ rw (stays, same) refl
    | inr other ↦ rw (stays, other) (get-dropped b q fs h)
  ]
]

cover_moved-other :
    (d : Disk) (dst : Text) (cover : Option Text) (fs : Files) (q : Text)
    → cover ≢ some q
    → q ≢ dst
    → get q (cover_moved d dst cover fs) ≡ get q fs
cover_moved-other d dst none fs q h k = refl
cover_moved-other d dst (some cover) fs q h k =
    move-other d cover dst fs q (λ e. h (ap some (sym e))) k

noted_in-other :
    (path : Text) (o : Option Text) (fs : Files) (q : Text)
    → q ≢ path
    → get q (noted_in path o fs) ≡ get q fs
noted_in-other path none fs q h = refl
noted_in-other path (some held) fs q h = get-put_other path held fs q h

after_video-other :
    (ext : Text → Text) (l : Local) (p : Paths) (caption : Text) (fs : Files) (o : Option Text)
    (q : Text)
    → IsAside ext p q
    → get q (after_video ext l p caption (fs, o)).0 ≡ get q fs
after_video-other ext l p caption fs (some why) q h = refl
after_video-other ext l p caption fs none q h =
    get-dropped p.in_job q _ h.from_job
    ∙ (noted_in-other (note_dest ext p.dest) (l.noted caption) _ q h.from_note
        ∙ cover_moved-other l.cover_disk (cover_dest ext p.dest) p.cover fs q h.from_cover
            h.from_cover_dest)

abbrev is_fine : Option Text → Bool
is_fine none = true
is_fine (some why) = false

-- The answers of the system to the finalisation, with those to the delivery.
abbrev pub moving : Host → Local → Paths → Files → Host
moving h l p fs = record h {
  output_made = l.made;
  moved = is_fine (move l.video_disk p.video p.dest fs).1;
}

-- Saved, and whole at its destination; or not saved, and still where it was encoded.
abbrev pub IsDelivered : Paths → Text → Outcome → Files × Bool → Type 0
IsDelivered p body o r =
    ((o ≡ recorded) × (r.1 ≡ true) × (get p.dest r.0 ≡ some body))
    ⊎ ((o ≡ output_unwritable) × (r.1 ≡ false) × (get p.video r.0 ≡ some body))

module _ {A : Type 0} (ext : Text → Text) (l : Local) (p : Paths) (caption body other : Text) where
  moved-IsDelivered :
      (cfg : Settings) (h : Host) (c : Counters) (s : Session A) (st : Store A) (fs : Files)
      (m : Files × Option Text)
      → h.output_made ≡ true
      → h.moved ≡ is_fine m.1
      → IsAside ext p p.dest
      → IsAside ext p other
      → IsMoved p.video p.dest body other fs m
      → IsDelivered p body (deliver_locally cfg h c s st).outcome (after_video ext l p caption m)
        × (get other (after_video ext l p caption m).0 ≡ get other fs)
  unfolding deliver_locally
  moved-IsDelivered cfg h c s st fs (fs', none) made fine d1 d2 (inl (e, d, g), o) = (
    simp (made, fine) (inl (refl, refl, after_video-other ext l p caption fs' none p.dest d1 ∙ d)),
    after_video-other ext l p caption fs' none other d2 ∙ o,
  )
  moved-IsDelivered cfg h c s st fs (fs', none) made fine d1 d2 (inr (e, g), o) = absurd (e refl)
  moved-IsDelivered cfg h c s st fs (fs', some why) made fine d1 d2 (inl (e, d, g), o) =
      ground arith
  moved-IsDelivered cfg h c s st fs (fs', some why) made fine d1 d2 (inr (e, g), o) =
      (simp (made, fine) (inr (refl, refl, g)), o)

  unmade-IsDelivered :
      (cfg : Settings) (h : Host) (c : Counters) (s : Session A) (st : Store A) (fs : Files)
      → h.output_made ≡ false
      → get p.video fs ≡ some body
      → IsDelivered p body (deliver_locally cfg h c s st).outcome (fs, false)
  unfolding deliver_locally
  unmade-IsDelivered cfg h c s st fs unmade there = simp (unmade) (inr (refl, refl, there))

  by_made :
      (cfg : Settings) (h : Host) (c : Counters) (s : Session A) (st : Store A) (fs : Files)
      (m : Files × Option Text) (b : Bool)
      → h.output_made ≡ b
      → h.moved ≡ is_fine m.1
      → IsAside ext p p.dest
      → IsAside ext p other
      → get p.video fs ≡ some body
      → IsMoved p.video p.dest body other fs m
      → let r = if not b then (fs, false) else after_video ext l p caption m in
        IsDelivered p body (deliver_locally cfg h c s st).outcome r × (get other r.0 ≡ get other fs)
  by_made cfg h c s st fs m true made fine d1 d2 there moved =
      moved-IsDelivered cfg h c s st fs m made fine d1 d2 moved
  by_made cfg h c s st fs m false unmade fine d1 d2 there moved =
      (unmade-IsDelivered cfg h c s st fs unmade there, refl)

  -- A local delivery ends in one of two ways. The job counts as recorded, and the whole video is at
  -- its destination, whatever becomes of the cover and the caption and although the job's directory
  -- is then deleted; or the job is to be parked, and the whole video is still where it was encoded.
  -- A file is as it was if it is none of the two paths of the video, the two of the cover and the
  -- one of the caption, and not in the job's directory. The destination is a path of its own: it is
  -- not that of the source, the cover or the caption, and not in the job's directory.
  pub deliver_files-Kept :
      (cfg : Settings) (h : Host) (c : Counters) (s : Session A) (st : Store A) (fs : Files)
      → p.video ≢ p.dest
      → IsAside ext p p.dest
      → other ≢ p.video
      → other ≢ p.dest
      → IsAside ext p other
      → get p.video fs ≡ some body
      → let r = deliver_files ext l p caption fs in
        IsDelivered p body (deliver_locally cfg (moving h l p fs) c s st).outcome r
        × (get other r.0 ≡ get other fs)
  unfolding deliver_files
  deliver_files-Kept cfg h c s st fs apart d1 o1 o2 d2 there =
      by_made cfg (moving h l p fs) c s st fs (move l.video_disk p.video p.dest fs) l.made refl refl
        d1 d2 there (move-IsMoved p.video p.dest body other fs l.video_disk apart o1 o2 there)
