-- ===== src/Service/Finalize/Fate.antt =====
-- internal/service/service.go, `finalize`: what becomes of the frames, and what is counted.
use bambu_timelapse.Prelude.{
  ℕ, ◌+◌, Bool, true, false, ◌≡◌, refl, ◌⊎◌, inl, inr, Option, none, some, arith, if◌then◌else◌,
  pos, ltb_ℤ, Bool-cases,
}
use bambu_timelapse.Go.Text.{Text, text}
use bambu_timelapse.Session.{Session, staged}
use bambu_timelapse.Session.Store.{Store, dir_at, discard, park}
use bambu_timelapse.Session.Store.Parking.{park_lem, gone}
use bambu_timelapse.Service.Metrics.{Counters}
use bambu_timelapse.Service.Finalize.{
  Settings, Host, Outcome, too_few, encode_failed, output_unwritable, recorded, uploaded,
  upload_failed, Result, upload, encode, deliver_locally, deliver_remotely, finalize,
}

-- The reason under which a job is parked. The other outcomes delete it.
abbrev pub reason : Outcome → Option Text
reason encode_failed = some (text "encode-failed")
reason output_unwritable = some (text "output-unwritable")
reason upload_failed = some (text "upload-failed")
reason _ = none

parked_or_lost : {ok : Bool} {N P Q R : Type 0} → (ok ≡ true) × N × P × Q ⊎ (ok ≡ false) × Q × R → Q
parked_or_lost (inl p) = p.3
parked_or_lost (inr p) = p.1

-- The upload counters, all results together.
abbrev pub counted : Counters → ℕ
counted c = c.uploads_ok + c.uploads_failed + c.uploads_skipped + c.uploads_local

abbrev pub is_unwritable : Outcome → Bool
is_unwritable output_unwritable = true
is_unwritable _ = false

module _ {A : Type 0} where
  abbrev pub Deleted : Session A → Store A → Result A → Type 0
  Deleted s st r = (r.store ≡ discard s st) × (r.session ≡ s)

  abbrev pub ParkedFor : Host → Session A → Store A → Text → Result A → Type 0
  ParkedFor h s st why r =
      (r.store ≡ (park h.renamed s why st).0) × (r.session ≡ (park h.renamed s why st).1.0)

  abbrev pub Fate : Option Text → Host → Session A → Store A → Result A → Type 0
  Fate none h s st r = Deleted s st r
  Fate (some why) h s st r = ParkedFor h s st why r

  -- How each outcome comes about.
  abbrev pub Why : Outcome → Settings → Host → Session A → Type 0
  Why too_few cfg h s = ltb_ℤ (pos s.frames) cfg.min_frames ≡ true
  Why encode_failed cfg h s = encode cfg h ≡ false
  Why output_unwritable cfg h s =
      (cfg.has_api ≡ false) × ((h.output_made ≡ false) ⊎ (h.moved ≡ false))
  Why recorded cfg h s =
      (encode cfg h ≡ true) × (cfg.has_api ≡ false) × (h.output_made ≡ true) × (h.moved ≡ true)
  Why uploaded cfg h s = (encode cfg h ≡ true) × (cfg.has_api ≡ true) × ((upload h).sent ≡ true)
  Why upload_failed cfg h s = (cfg.has_api ≡ true) × ((upload h).sent ≡ false)

  -- What `finalize` did, why, and what it left.
  abbrev pub Ended : Settings → Host → Session A → Store A → Result A → Type 0
  Ended cfg h s st r = Why r.outcome cfg h s × Fate (reason r.outcome) h s st r

  deliver_locally-Ended :
      (cfg : Settings) (h : Host) (c : Counters) (s : Session A) (st : Store A)
      → encode cfg h ≡ true
      → cfg.has_api ≡ false
      → Ended cfg h s st (deliver_locally cfg h c s st)
  unfolding deliver_locally
  deliver_locally-Ended cfg h c s st video local = elim (Bool-cases h.output_made) [
    | inr unmade ↦ simp unmade ((local, inl refl), (refl, refl))
    | inl made ↦ elim (Bool-cases h.moved) [
      | inr unmoved ↦ simp (made, unmoved) ((local, inr refl), (refl, refl))
      | inl moved' ↦ simp (made, moved') ((video, local, refl, refl), (refl, refl))
    ]
  ]

  deliver_remotely-Ended :
      (cfg : Settings) (h : Host) (c : Counters) (s : Session A) (st : Store A)
      → encode cfg h ≡ true
      → cfg.has_api ≡ true
      → Ended cfg h s st (deliver_remotely h c s st)
  unfolding deliver_remotely
  deliver_remotely-Ended cfg h c s st video remote = elim (Bool-cases (upload h).sent) [
    | inl sent' ↦ rw sent' ((video, remote, sent'), (refl, refl))
    | inr unsent ↦ rw unsent ((remote, unsent), (refl, refl))
  ]

  -- Every finalisation has one of six outcomes, each for its own reason: too few frames, no video,
  -- no place to save it, saved, posted, or not posted. The job is deleted after the first, the
  -- fourth and the fifth, and parked after the other three.
  pub finalize-Ended :
      (cfg : Settings) (h : Host) (c : Counters) (s : Session A) (st : Store A)
      → Ended cfg h s st (finalize cfg h c s st)
  unfolding finalize
  finalize-Ended cfg h c s st = elim (Bool-cases (ltb_ℤ (pos s.frames) cfg.min_frames)) [
    | inl few ↦ simp few (refl, (refl, refl))
    | inr enough ↦ elim (Bool-cases (encode cfg h)) [
      | inr no_video ↦ simp (enough, no_video) (refl, (refl, refl))
      | inl video ↦ elim (Bool-cases cfg.has_api) [
        | inr local ↦ simp (enough, video, local) (deliver_locally-Ended cfg h c s st video local)
        | inl remote ↦
            simp (enough, video, remote) (deliver_remotely-Ended cfg h c s st video remote)
      ]
    ]
  ]

  Fate-clears :
      (o : Option Text) (h : Host) (job : Text) (s : Session A) (st : Store A) (r : Result A)
      → s.dir ≡ staged job
      → Fate o h s st r
      → dir_at s.dir r.store ≡ none
  unfolding discard
  Fate-clears none h job s st r at fate = rw (fate.0, at) (gone job st)
  Fate-clears (some why) h job s st r at fate =
      rw fate.0 (parked_or_lost (park_lem h.renamed job s why st at))

  -- After its finalisation, whatever the outcome, a job of the staging directory is gone from
  -- there.
  pub finalize_clears :
      (cfg : Settings) (h : Host) (c : Counters) (job : Text) (s : Session A) (st : Store A)
      → s.dir ≡ staged job
      → dir_at s.dir (finalize cfg h c s st).store ≡ none
  finalize_clears cfg h c job s st at =
      let r = finalize cfg h c s st in
      Fate-clears (reason r.outcome) h job s st r at (finalize-Ended cfg h c s st).1

  -- Every finalisation counts once under a result of its own, but one that cannot write its output
  -- counts under none.
  pub finalize_counts :
      (cfg : Settings) (h : Host) (c : Counters) (s : Session A) (st : Store A)
      → let r = finalize cfg h c s st in
        counted r.counters ≡ counted c + (if is_unwritable r.outcome then 0 else 1)
  unfolding finalize
  finalize_counts cfg h c s st = ground arith
