-- ===== src/Session/Store/Resume.antt =====
-- internal/session/session.go: a session survives a restart.
use bambu_timelapse.Prelude.{
  ℕ, ◌≡◌, refl, ap, ◌∙◌, ℤ, Bool, true, false, Option, none, some, [], inl, inr, ◌⊎◌,
}
use bambu_timelapse.Go.Text.{Text, text_eq_refl}
use bambu_timelapse.Go.Float.{Float}
use bambu_timelapse.Session.{Session, Place, staged, parked}
use bambu_timelapse.Session.Dirs.{get-put}
use bambu_timelapse.Session.Store.{
  JobDir, Store, Created, created, dir_at, put_dir, load, save, mkdir, job_dir, new_session, create,
  create_or_open, at_place, state_of, save_into, create_saved, create_new, empty_dir,
}

module _ {A : Type 0} where
  pub dir_at-put_dir :
      (p : Place) (d : JobDir A) (st : Store A) → dir_at p (put_dir p d st) ≡ some d
  dir_at-put_dir (staged name) d st = get-put name name d st.jobs ∙ rw (text_eq_refl name) refl
  dir_at-put_dir (parked name) d st = get-put name name d st.failed ∙ rw (text_eq_refl name) refl

  save_into-stills :
      (saved : Bool) (s : Session A) (d : JobDir A) (o : Option (JobDir A)) (st : Store A)
      → o ≡ some d
      → dir_at s.dir st ≡ some d
      → (d' : JobDir A) × (dir_at s.dir (save_into saved s o st).0 ≡ some d')
        × (d'.stills ≡ d.stills)
  save_into-stills saved s d none st e h = (d, h, refl)
  save_into-stills true s d (some x) st e h =
      (record x { state = some s }, dir_at-put_dir s.dir (record x { state = some s }) st, cc)
  save_into-stills false s d (some x) st e h = (d, h, refl)

  -- A save leaves the frames in the directory.
  pub save-stills :
      (saved : Bool) (s : Session A) (d : JobDir A) (st : Store A)
      → dir_at s.dir st ≡ some d
      → (d' : JobDir A) × (dir_at s.dir (save saved s st).0 ≡ some d') × (d'.stills ≡ d.stills)
  unfolding save
  save-stills saved s d st h = save_into-stills saved s d (dir_at s.dir st) st h h

  load-save_into :
      (written : Bool) (s : Session A) (o : Option (JobDir A)) (st : Store A)
      → ((save_into written s o st).1 ≡ true) × (load s.dir (save_into written s o st).0 ≡ some s)
        ⊎ ((save_into written s o st).1 ≡ false) × ((save_into written s o st).0 ≡ st)
  unfolding load
  load-save_into written s none st = inr (refl, refl)
  load-save_into false s (some d) st = inr (refl, refl)
  load-save_into true s (some d) st = inl (
    refl,
    ap (λ o. at_place s.dir (state_of o)) (dir_at-put_dir s.dir (record d { state = some s }) st),
  )

  -- A save that succeeds is read back whole by the next process; one that fails has left the state
  -- file as it was.
  pub load-save :
      (written : Bool) (s : Session A) (st : Store A)
      → ((save written s st).1 ≡ true) × (load s.dir (save written s st).0 ≡ some s)
        ⊎ ((save written s st).1 ≡ false) × ((save written s st).0 ≡ st)
  unfolding save
  load-save written s st = load-save_into written s (dir_at s.dir st) st

  created_loads :
      (s : Session A) (st : Store A) (r : Store A × Bool) {t : Session A} {again : Bool}
      → (r.1 ≡ true) × (load s.dir r.0 ≡ some s) ⊎ (r.1 ≡ false) × (r.0 ≡ st)
      → (create_saved s r).1 ≡ created t again
      → load s.dir (create_saved s r).0 ≡ some t
  created_loads s st (st', true) (inl h) e = cc
  created_loads s st (st', true) (inr h) e = cc
  created_loads s st (st', false) h e = cc

module _ {A : Type 0} ⦃f : Float A⦄ where
  create_new_loads :
      (made written : Bool) (s : Session A) (now : ℕ) (st : Store A) {t : Session A} {again : Bool}
      → (create_new made written s now st).1 ≡ created t again
      → load s.dir (create_new made written s now st).0 ≡ some t
  create_new_loads false written s now st h = cc
  create_new_loads true written s now st h =
      created_loads s (mkdir now s.dir st) (save written s (mkdir now s.dir st))
        (load-save written s (mkdir now s.dir st)) h

  created_or_loaded :
      (dir : Place) (o : Option (Session A)) (fresh : Store A × Created A) (st : Store A)
      {s : Session A} {again : Bool}
      → load dir st ≡ o
      → (fresh.1 ≡ created s again → load dir fresh.0 ≡ some s)
      → (create_or_open o fresh st).1 ≡ created s again
      → load dir (create_or_open o fresh st).0 ≡ some s
  created_or_loaded dir none fresh st e new h = new h
  created_or_loaded dir (some existing) fresh st e new h = cc

  -- Whatever `Create` returned is what the state file of the task's directory holds.
  load-create :
      (made written : Bool) (now : ℕ) (task job : Text) (total layer : ℤ) (st : Store A)
      {s : Session A} {again : Bool}
      → (create made written now task job total layer st).1 ≡ created s again
      → load (job_dir task) (create made written now task job total layer st).0 ≡ some s
  unfolding create new_session
  load-create made written now task job total layer st h =
      created_or_loaded (job_dir task) (load (job_dir task) st)
        (create_new made written (new_session now task job total layer) now st) st refl
        (create_new_loads made written (new_session now task job total layer) now st) h

  reopen :
      (made written : Bool) (now : ℕ) (task job : Text) (total layer : ℤ) (st : Store A)
      {s : Session A}
      → load (job_dir task) st ≡ some s
      → create made written now task job total layer st ≡ (st, created s true)
  unfolding create
  reopen made written now task job total layer st h = rw h refl

  -- Once `Create` has returned a session, every later call for the task reopens that session and
  -- changes nothing, whatever the clock, the title or the layers then are, and also if the disk can
  -- no longer be written.
  pub create_resumes :
      (made written : Bool) (now : ℕ) (task job : Text) (total layer : ℤ) (st : Store A)
      {s : Session A} {again : Bool}
      → (create made written now task job total layer st).1 ≡ created s again
      → (made' written' : Bool) (now' : ℕ) (job' : Text) (total' layer' : ℤ)
      → let st' = (create made written now task job total layer st).0 in
        create made' written' now' task job' total' layer' st' ≡ (st', created s true)
  create_resumes made written now task job total layer st h made' written' now' job' total' layer' =
      reopen made' written' now' task job' total' layer'
        (create made written now task job total layer st).0
        (load-create made written now task job total layer st h)

module _ {A : Type 0} ⦃f : Float A⦄ where
  -- A job without a directory gets one, with no frames in it.
  pub create-fresh :
      (now : ℕ) (task job : Text) (total layer : ℤ) (st : Store A)
      → dir_at (job_dir task) st ≡ none
      → (st' : Store A) × (d : JobDir A) × (create true true now task job total layer st
          ≡ (st', created (new_session now task job total layer) false))
        × (dir_at (job_dir task) st' ≡ some d)
        × (d.stills ≡ [])
  unfolding create load mkdir save new_session
  create-fresh now task job total layer st h =
      let dir = job_dir task in
      let s = new_session now task job total layer in
      let made = put_dir dir (empty_dir now) st in
      let d = record (empty_dir now) { state = some s } in
      (
        put_dir dir d made,
        d,
        rw (h, dir_at-put_dir dir (empty_dir now) st) refl,
        dir_at-put_dir dir d made,
        refl,
      )
