-- ===== src/Session/Store/Loaded.antt =====
-- internal/session/session.go: a property of sessions that does not depend on where they are holds
-- of what is created, listed and parked, if it holds of what is on disk.
use bambu_timelapse.Prelude.{
  ℕ, ℤ, Bool, true, false, ◌&&◌, Option, none, some, List, [], ◌∷◌, ◌++◌, leb, Bool-cases, inl, inr,
}
use bambu_timelapse.Go.Text.{Text, text, has_prefix}
use bambu_timelapse.Go.Float.{Float}
use bambu_timelapse.Session.{Session, Place, staged, parked}
use bambu_timelapse.Session.Dirs.{get}
use bambu_timelapse.Session.Store.{
  JobDir, Store, Created, dir_at, at_place, state_of, load, save, mkdir, park, park_dir, is_free,
  base, loaded, insert_newest, add_session, list_entries, list, job_dir, new_session, create,
  create_saved, create_new, create_or_open,
}
use bambu_timelapse.Session.Store.Content.{
  OfState, OfDir, OfDirs, OfStore, OfList, OfCreated, OfDir-dir_at, OfStore-save, OfStore-mkdir,
}

module _ {A : Type 0} (P : Session A → Type 0)
    (moved : (s : Session A) (p : Place) → P s → P (record s { dir = p })) where
  OfState-at_place : (p : Place) (o : Option (Session A)) → OfState P o → OfState P (at_place p o)
  OfState-at_place p none h = tt
  OfState-at_place p (some s) h = moved s p h

  OfState-state_of : (o : Option (JobDir A)) → OfDir P o → OfState P (state_of o)
  OfState-state_of none h = tt
  OfState-state_of (some d) h = h

  OfState-load : (p : Place) (st : Store A) → OfStore P st → OfState P (load p st)
  unfolding load
  OfState-load p st h =
      OfState-at_place p (state_of (dir_at p st))
        (OfState-state_of (dir_at p st) (OfDir-dir_at P p st h))

  OfList-insert :
      (s : Session A) (ss : List (Session A)) → P s → OfList P ss → OfList P (insert_newest s ss)
  OfList-insert s [] new h = (new, tt)
  OfList-insert s (t ∷ ts) new h = elim (Bool-cases (leb t.started_at s.started_at)) [
    | inl newer ↦ rw newer (new, h)
    | inr older ↦ rw older (h.0, OfList-insert s ts new h.1)
  ]

  OfList-add :
      (o : Option (Session A)) (ss : List (Session A))
      → OfState P o
      → OfList P ss
      → OfList P (add_session o ss)
  OfList-add none ss new h = h
  OfList-add (some s) ss new h = OfList-insert s ss new h

  OfState-loaded : (name : Text) (d : JobDir A) → OfState P d.state → OfState P (loaded name d)
  OfState-loaded name d h = elim (Bool-cases (has_prefix name (text "job-"))) [
    | inl job ↦ rw job (OfState-at_place (staged name) d.state h)
    | inr other ↦ rw other tt
  ]

  OfList-list_entries : (es : List (Text × JobDir A)) → OfDirs P es → OfList P (list_entries es)
  unfolding list_entries
  OfList-list_entries [] h = tt
  OfList-list_entries ((name, d) ∷ rest) h =
      OfList-add (loaded name d) (list_entries rest) (OfState-loaded name d h.0)
        (OfList-list_entries rest h.1)

  pub OfList-list : (st : Store A) → OfStore P st → OfList P (list st)
  unfolding list
  OfList-list st h = OfList-list_entries st.jobs h.0

  OfCreated-saved :
      (s : Session A) (r : Store A × Bool)
      → P s
      → OfStore P r.0
      → OfStore P (create_saved s r).0 × OfCreated P (create_saved s r).1
  OfCreated-saved s (st, true) new h = (h, new)
  OfCreated-saved s (st, false) new h = (h, tt)

  OfCreated-new :
      (made written : Bool) (s : Session A) (now : ℕ) (st : Store A)
      → P s
      → OfStore P st
      → let r = create_new made written s now st in OfStore P r.0 × OfCreated P r.1
  OfCreated-new false written s now st new h = (h, tt)
  OfCreated-new true written s now st new h =
      OfCreated-saved s (save written s (mkdir now s.dir st)) new
        (OfStore-save P written s (mkdir now s.dir st) new (OfStore-mkdir P now s.dir st h))

  OfCreated-or_open :
      (o : Option (Session A)) (r : Store A × Created A) (st : Store A)
      → OfState P o
      → OfStore P st
      → OfStore P r.0 × OfCreated P r.1
      → let t = create_or_open o r st in OfStore P t.0 × OfCreated P t.1
  OfCreated-or_open none r st old h new = new
  OfCreated-or_open (some s) r st old h new = (h, old)

  pub OfCreated-create :
      ⦃f : Float A⦄ (made written : Bool) (now : ℕ) (task job : Text) (total layer : ℤ)
      (st : Store A)
      → P (new_session now task job total layer)
      → OfStore P st
      → let r = create made written now task job total layer st in OfStore P r.0 × OfCreated P r.1
  unfolding create
  OfCreated-create ⦃f⦄ made written now task job total layer st new h =
      OfCreated-or_open (load (job_dir task) st)
        (create_new made written (new_session now task job total layer) now st) st
        (OfState-load (job_dir task) st h) h
        (OfCreated-new made written (new_session now task job total layer) now st new h)

  park_dir_moved :
      (name : Text) (s : Session A) (o : Option (JobDir A)) (free : Bool) (st : Store A)
      → P s
      → P (park_dir name s o free st).1.0
  park_dir_moved name s none free st h = h
  park_dir_moved name s (some d) false st h = h
  park_dir_moved name s (some d) true st h = moved s (parked name) h

  pub park_moved :
      (renamed : Bool) (s : Session A) (why : Text) (st : Store A)
      → P s
      → P (park renamed s why st).1.0
  unfolding park
  park_moved renamed s why st h =
      let name = why ++ (text "-" ++ base s.dir) in
      park_dir_moved name s (dir_at s.dir st) (renamed && is_free (get name st.failed)) st h
