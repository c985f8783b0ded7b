-- ===== src/Session/Store/Parking.antt =====
-- internal/session/session.go, `Park` and `SweepFailed`: jobs kept aside, and for how long.
use bambu_timelapse.Prelude.{
  ℕ, ◌+◌, ◌≡◌, refl, ap, sym, ◌∙◌, Bool, true, false, ◌&&◌, Option, none, some, List, [], ◌∷◌, ◌++◌,
  arith, inl, inr, ◌⊎◌, ◌↔◌, ◌<◌, Bool-cases, IsIn, dropped, IsIn-dropped, length,
}
use bambu_timelapse.Go.Text.{Text, text, text_eq_refl}
use bambu_timelapse.Session.{Session, staged, parked}
use bambu_timelapse.Session.Dirs.{get, put, get-put, get-remove}
use bambu_timelapse.Session.Store.{
  JobDir, Store, dir_at, park, park_dir, remove_dir, base, is_free, is_expired, sweep, sweep_failed,
}

and_false : (b : Bool) → (b && false) ≡ false
and_false true = refl
and_false false = refl

module _ {A : Type 0} where
  pub gone :
      (name : Text) (st : Store A) → dir_at (staged name) (remove_dir (staged name) st) ≡ none
  gone name st = get-remove name name st.jobs ∙ rw (text_eq_refl name) refl

  park_dir_lem :
      (name want job : Text) (s : Session A) (o held : Option (JobDir A)) (free : Bool)
      (st : Store A)
      → s.dir ≡ staged job
      → name ≡ want
      → o ≡ held
      → let r = park_dir name s o free st in
        (r.1.1 ≡ true)
          × (r.1.0.dir ≡ parked want)
          × (get want r.0.failed ≡ held)
          × (dir_at s.dir r.0 ≡ none)
        ⊎ (r.1.1 ≡ false) × (dir_at s.dir r.0 ≡ none) × (r.0.failed ≡ st.failed)
  park_dir_lem name want job s none held free st at e same =
      inr (refl, rw at (gone job st), rw at refl)
  park_dir_lem name want job s (some d) held false st at e same =
      inr (refl, rw at (gone job st), rw at refl)
  park_dir_lem name want job s (some d) held true st at e same = inl (
    refl,
    ap parked e,
    ap (λ n. get n (put name d (remove_dir s.dir st).failed)) (sym e)
        ∙ (get-put name name d (remove_dir s.dir st).failed ∙ rw (text_eq_refl name) same),
    rw at (gone job st),
  )

  pub park_lem :
      (renamed : Bool) (job : Text) (s : Session A) (reason : Text) (st : Store A)
      → s.dir ≡ staged job
      → let r = park renamed s reason st in
        (r.1.1 ≡ true)
          × (r.1.0.dir ≡ parked (reason ++ (text "-" ++ job)))
          × (get (reason ++ (text "-" ++ job)) r.0.failed ≡ get job st.jobs)
          × (dir_at s.dir r.0 ≡ none)
        ⊎ (r.1.1 ≡ false) × (dir_at s.dir r.0 ≡ none) × (r.0.failed ≡ st.failed)
  unfolding park
  park_lem renamed job s reason st at =
      park_dir_lem (reason ++ (text "-" ++ base s.dir)) (reason ++ (text "-" ++ job)) job s
        (dir_at s.dir st) (get job st.jobs)
        (renamed && is_free (get (reason ++ (text "-" ++ base s.dir)) st.failed)) st at (rw at refl)
        (rw at refl)

  park_dir_shut :
      (name job : Text) (s : Session A) (o : Option (JobDir A)) (free : Bool) (st : Store A)
      → s.dir ≡ staged job
      → free ≡ false
      → let r = park_dir name s o free st in
        (r.1.1 ≡ false) × (dir_at s.dir r.0 ≡ none) × (r.0.failed ≡ st.failed)
  park_dir_shut name job s none free st at shut = (refl, rw at (gone job st), rw at refl)
  park_dir_shut name job s (some d) false st at shut = (refl, rw at (gone job st), rw at refl)
  park_dir_shut name job s (some d) true st at shut = cc

  -- A staged job that is parked while a failed job of its name is kept is deleted, also where the
  -- file system lets the directory be renamed, and the failed jobs are as they were.
  pub park_taken :
      (renamed : Bool) (job : Text) (s : Session A) (reason : Text) (st : Store A) {d : JobDir A}
      → s.dir ≡ staged job
      → get (reason ++ (text "-" ++ job)) st.failed ≡ some d
      → let r = park renamed s reason st in
        (r.1.1 ≡ false) × (dir_at s.dir r.0 ≡ none) × (r.0.failed ≡ st.failed)
  unfolding park
  park_taken renamed job s reason st at taken =
      park_dir_shut (reason ++ (text "-" ++ base s.dir)) job s (dir_at s.dir st)
        (renamed && is_free (get (reason ++ (text "-" ++ base s.dir)) st.failed)) st at
        (rw (at, taken) (and_false renamed))

  sweep-dropped :
      (now ttl : ℕ) (removable : Text → Bool) (es : List (Text × JobDir A))
      → (sweep now ttl removable es).0 ≡ dropped (λ x. is_expired now ttl x.1 && removable x.0) es
  unfolding sweep
  sweep-dropped now ttl removable [] = refl
  sweep-dropped now ttl removable ((j, e) ∷ rest) =
      elim (Bool-cases (is_expired now ttl e && removable j)) [
        | inl goes ↦ rw goes (sweep-dropped now ttl removable rest)
        | inr stays ↦ rw stays (ap (λ l. (j, e) ∷ l) (sweep-dropped now ttl removable rest))
      ]

  -- The job is younger than the TTL, or the system does not let it be removed.
  stays_iff :
      (now ttl : ℕ) (removable : Text → Bool) (name : Text) (d : JobDir A)
      → ((is_expired now ttl d && removable name) ≡ false)
        ↔ ((now < d.mod_time + ttl) ⊎ (removable name ≡ false))
  stays_iff now ttl removable name d = ground arith

  length-sweep :
      (now ttl : ℕ) (removable : Text → Bool) (es : List (Text × JobDir A))
      → let r = sweep now ttl removable es in length r.0 + r.1 ≡ length es
  unfolding sweep
  length-sweep now ttl removable [] = omega arith
  length-sweep now ttl removable ((j, e) ∷ rest) =
      ground (arith, length-sweep now ttl removable rest)

  -- After a sweep exactly those jobs are still parked that were, and that are younger than the TTL
  -- or cannot be removed. Those that went are counted, and no staged job is touched.
  pub sweep_failed_lem :
      (now ttl : ℕ) (removable : Text → Bool) (st : Store A) (name : Text) (d : JobDir A)
      → let r = sweep_failed now ttl removable st in
        (IsIn (name, d) r.0.failed
          ↔ IsIn (name, d) st.failed × ((now < d.mod_time + ttl) ⊎ (removable name ≡ false)))
        × (length r.0.failed + r.1 ≡ length st.failed)
        × (r.0.jobs ≡ st.jobs)
  unfolding sweep_failed
  sweep_failed_lem now ttl removable st name d =
      let (out, into) =
        IsIn-dropped (λ x. is_expired now ttl x.1 && removable x.0) (name, d) st.failed in
      let (s1, s2) = stays_iff now ttl removable name d in
      (
        rw (sweep-dropped now ttl removable st.failed)
            (λ h. ((out h).0, s1 (out h).1), λ h. into (h.0, s2 h.1)),
        length-sweep now ttl removable st.failed,
        refl,
      )
