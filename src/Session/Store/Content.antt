-- ===== src/Session/Store/Content.antt =====
-- internal/session/session.go: a property of sessions that every operation on the store keeps.
use bambu_timelapse.Prelude.{
  ℕ, Bool, true, false, ◌&&◌, Option, none, some, List, [], ◌∷◌, ◌++◌, Bool-cases, inl, inr,
}
use bambu_timelapse.Go.Text.{Text, text, text_eq}
use bambu_timelapse.Session.{Session, Place, staged, parked}
use bambu_timelapse.Session.Dirs.{get, put, remove}
use bambu_timelapse.Session.Store.{
  JobDir, Store, Created, created, cannot_create, dir_at, put_dir, remove_dir, save, save_into,
  mkdir, or_empty, discard, park, park_dir, is_free, base, is_expired, sweep, sweep_failed,
}

-- A property of sessions that does not speak of where they are.
module _ {A : Type 0} (P : Session A → Type 0) where
  abbrev pub OfState : Option (Session A) → Type 0
  OfState none = Unit
  OfState (some s) = P s

  abbrev pub OfDir : Option (JobDir A) → Type 0
  OfDir none = Unit
  OfDir (some d) = OfState d.state

  abbrev pub OfDirs : List (Text × JobDir A) → Type 0
  OfDirs [] = Unit
  OfDirs ((name, d) ∷ rest) = OfState d.state × OfDirs rest

  -- Every session on disk has the property.
  abbrev pub OfStore : Store A → Type 0
  OfStore st = OfDirs st.jobs × OfDirs st.failed

  abbrev pub OfList : List (Session A) → Type 0
  OfList [] = Unit
  OfList (s ∷ ss) = P s × OfList ss

  abbrev pub OfCreated : Created A → Type 0
  OfCreated cannot_create = Unit
  OfCreated (created s again) = P s

  OfDir-get : (k : Text) (m : List (Text × JobDir A)) → OfDirs m → OfDir (get k m)
  unfolding get
  OfDir-get k [] h = tt
  OfDir-get k ((j, d) ∷ rest) h = elim (Bool-cases (text_eq j k)) [
    | inl here ↦ rw here h.0
    | inr away ↦ rw away (OfDir-get k rest h.1)
  ]

  OfDirs-put :
      (k : Text) (d : JobDir A) (m : List (Text × JobDir A))
      → OfState d.state
      → OfDirs m
      → OfDirs (put k d m)
  unfolding put
  OfDirs-put k d [] new h = (new, tt)
  OfDirs-put k d ((j, e) ∷ rest) new h = elim (Bool-cases (text_eq j k)) [
    | inl here ↦ rw here (new, h.1)
    | inr away ↦ rw away (h.0, OfDirs-put k d rest new h.1)
  ]

  OfDirs-sweep :
      (now ttl : ℕ) (removable : Text → Bool) (m : List (Text × JobDir A))
      → OfDirs m
      → OfDirs (sweep now ttl removable m).0
  unfolding sweep
  OfDirs-sweep now ttl removable [] h = tt
  OfDirs-sweep now ttl removable ((name, d) ∷ rest) h =
      elim (Bool-cases (is_expired now ttl d && removable name)) [
        | inl gone ↦ rw gone (OfDirs-sweep now ttl removable rest h.1)
        | inr kept ↦ rw kept (h.0, OfDirs-sweep now ttl removable rest h.1)
      ]

  pub OfStore-sweep_failed :
      (now ttl : ℕ) (removable : Text → Bool) (st : Store A)
      → OfStore st
      → OfStore (sweep_failed now ttl removable st).0
  unfolding sweep_failed
  OfStore-sweep_failed now ttl removable st h = (h.0, OfDirs-sweep now ttl removable st.failed h.1)

  OfDirs-remove : (k : Text) (m : List (Text × JobDir A)) → OfDirs m → OfDirs (remove k m)
  unfolding remove
  OfDirs-remove k [] h = tt
  OfDirs-remove k ((j, e) ∷ rest) h = elim (Bool-cases (text_eq j k)) [
    | inl here ↦ rw here (OfDirs-remove k rest h.1)
    | inr away ↦ rw away (h.0, OfDirs-remove k rest h.1)
  ]

  pub OfDir-dir_at : (p : Place) (st : Store A) → OfStore st → OfDir (dir_at p st)
  OfDir-dir_at (staged name) st h = OfDir-get name st.jobs h.0
  OfDir-dir_at (parked name) st h = OfDir-get name st.failed h.1

  pub OfStore-put_dir :
      (p : Place) (d : JobDir A) (st : Store A)
      → OfState d.state
      → OfStore st
      → OfStore (put_dir p d st)
  OfStore-put_dir (staged name) d st new h = (OfDirs-put name d st.jobs new h.0, h.1)
  OfStore-put_dir (parked name) d st new h = (h.0, OfDirs-put name d st.failed new h.1)

  OfStore-remove_dir : (p : Place) (st : Store A) → OfStore st → OfStore (remove_dir p st)
  OfStore-remove_dir (staged name) st h = (OfDirs-remove name st.jobs h.0, h.1)
  OfStore-remove_dir (parked name) st h = (h.0, OfDirs-remove name st.failed h.1)

  OfStore-save_into :
      (written : Bool) (s : Session A) (o : Option (JobDir A)) (st : Store A)
      → P s
      → OfStore st
      → OfStore (save_into written s o st).0
  OfStore-save_into written s none st new h = h
  OfStore-save_into true s (some d) st new h =
      OfStore-put_dir s.dir (record d { state = some s }) st new h
  OfStore-save_into false s (some d) st new h = h

  pub OfStore-save :
      (written : Bool) (s : Session A) (st : Store A)
      → P s
      → OfStore st
      → OfStore (save written s st).0
  unfolding save
  OfStore-save written s st new h = OfStore-save_into written s (dir_at s.dir st) st new h

  OfState-or_empty : (now : ℕ) (o : Option (JobDir A)) → OfDir o → OfState (or_empty now o).state
  OfState-or_empty now none h = tt
  OfState-or_empty now (some d) h = h

  pub OfStore-mkdir : (now : ℕ) (p : Place) (st : Store A) → OfStore st → OfStore (mkdir now p st)
  unfolding mkdir
  OfStore-mkdir now p st h =
      OfStore-put_dir p (or_empty now (dir_at p st)) st
        (OfState-or_empty now (dir_at p st) (OfDir-dir_at p st h)) h

  pub OfStore-discard : (s : Session A) (st : Store A) → OfStore st → OfStore (discard s st)
  unfolding discard
  OfStore-discard s st h = OfStore-remove_dir s.dir st h

  OfStore-park_dir :
      (name : Text) (s : Session A) (o : Option (JobDir A)) (free : Bool) (st : Store A)
      → OfDir o
      → OfStore st
      → OfStore (park_dir name s o free st).0
  OfStore-park_dir name s none free st o h = OfStore-remove_dir s.dir st h
  OfStore-park_dir name s (some d) false st o h = OfStore-remove_dir s.dir st h
  OfStore-park_dir name s (some d) true st o h =
      OfStore-put_dir (parked name) d (remove_dir s.dir st) o (OfStore-remove_dir s.dir st h)

  pub OfStore-park :
      (renamed : Bool) (s : Session A) (why : Text) (st : Store A)
      → OfStore st
      → OfStore (park renamed s why st).0
  unfolding park
  OfStore-park renamed s why st h =
      let name = why ++ (text "-" ++ base s.dir) in
      OfStore-park_dir name s (dir_at s.dir st) (renamed && is_free (get name st.failed)) st
        (OfDir-dir_at s.dir st h) h
