-- ===== src/Session/Store/Listing.antt =====
-- internal/session/session.go, `List`: every session on disk, newest first.
use mathlib.Core.List.{Perm}
use mathlib.Core.List.Perm
use bambu_timelapse.Prelude.{
  ℕ, ◌≤◌, Option, none, some, List, [], ◌∷◌, leb, arith, Bool-cases, inl, inr,
}
use bambu_timelapse.Go.Text.{Text}
use bambu_timelapse.Session.{Session}
use bambu_timelapse.Session.Store.{
  JobDir, Store, list, list_entries, loaded, insert_newest, add_session,
}

module _ {A : Type 0} where
  -- Each session started no later than the one before it.
  abbrev pub NotNewer : ℕ → List (Session A) → Type 0
  NotNewer t [] = Unit
  NotNewer t (s ∷ ss) = (s.started_at ≤ t) × NotNewer t ss

  abbrev pub NewestFirst : List (Session A) → Type 0
  NewestFirst [] = Unit
  NewestFirst (s ∷ ss) = NotNewer s.started_at ss × NewestFirst ss

  abbrev pub cons_some : Option (Session A) → List (Session A) → List (Session A)
  cons_some none ss = ss
  cons_some (some s) ss = s ∷ ss

  -- The sessions whose state file parses, in the order of the directory.
  abbrev pub readable : List (Text × JobDir A) → List (Session A)
  readable [] = []
  readable ((name, d) ∷ rest) = cons_some (loaded name d) (readable rest)

  insert_newest-perm : (s : Session A) (ts : List (Session A)) → Perm (insert_newest s ts) (s ∷ ts)
  insert_newest-perm s [] = Perm.refl (s ∷ [])
  insert_newest-perm s (t ∷ ts) = elim (Bool-cases (leb t.started_at s.started_at)) [
    | inl newer ↦ rw newer (Perm.refl (s ∷ t ∷ ts))
    | inr older ↦ rw older (Perm.trans (Perm.cons t (insert_newest-perm s ts)) (Perm.swap s t ts))
  ]

  add_session-perm :
      (o : Option (Session A)) {ss ts : List (Session A)}
      → Perm ss ts
      → Perm (add_session o ss) (cons_some o ts)
  add_session-perm none p = p
  add_session-perm (some s) {ss = ss} p = Perm.trans (insert_newest-perm s ss) (Perm.cons s p)

  list_entries-perm : (es : List (Text × JobDir A)) → Perm (list_entries es) (readable es)
  unfolding list_entries
  list_entries-perm [] = Perm.refl []
  list_entries-perm ((name, d) ∷ rest) = add_session-perm (loaded name d) (list_entries-perm rest)

  NotNewer-insert :
      (t : ℕ) (s : Session A) (ss : List (Session A))
      → s.started_at ≤ t
      → NotNewer t ss
      → NotNewer t (insert_newest s ss)
  NotNewer-insert t s [] h k = (h, tt)
  NotNewer-insert t s (u ∷ us) h k = elim (Bool-cases (leb u.started_at s.started_at)) [
    | inl newer ↦ rw newer (h, k)
    | inr older ↦ rw older (k.0, NotNewer-insert t s us h k.1)
  ]

  NotNewer-mono : (t u : ℕ) (ss : List (Session A)) → u ≤ t → NotNewer u ss → NotNewer t ss
  NotNewer-mono t u [] h k = tt
  NotNewer-mono t u (s ∷ ss) h k = (omega (arith, k.0), NotNewer-mono t u ss h k.1)

  NewestFirst-insert :
      (s : Session A) (ss : List (Session A)) → NewestFirst ss → NewestFirst (insert_newest s ss)
  NewestFirst-insert s [] h = (tt, tt)
  NewestFirst-insert s (u ∷ us) h = elim (Bool-cases (leb u.started_at s.started_at)) [
    | inl newer ↦
        rw newer ((ground arith, NotNewer-mono s.started_at u.started_at us (ground arith) h.0), h)
    | inr older ↦
        rw older (NotNewer-insert u.started_at s us (ground arith) h.0, NewestFirst-insert s us h.1)
  ]

  add_session-NewestFirst :
      (o : Option (Session A)) (ss : List (Session A))
      → NewestFirst ss
      → NewestFirst (add_session o ss)
  add_session-NewestFirst none ss h = h
  add_session-NewestFirst (some s) ss h = NewestFirst-insert s ss h

  list_entries-NewestFirst : (es : List (Text × JobDir A)) → NewestFirst (list_entries es)
  unfolding list_entries
  list_entries-NewestFirst [] = tt
  list_entries-NewestFirst ((name, d) ∷ rest) =
      add_session-NewestFirst (loaded name d) (list_entries rest) (list_entries-NewestFirst rest)

  -- The list holds each session whose directory is named `job-…` and whose state file parses, once,
  -- and no session in it started later than one before it.
  pub list_lem : (st : Store A) → Perm (list st) (readable st.jobs) × NewestFirst (list st)
  unfolding list
  list_lem st = (list_entries-perm st.jobs, list_entries-NewestFirst st.jobs)
