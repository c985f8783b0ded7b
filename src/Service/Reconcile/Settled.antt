-- ===== src/Service/Reconcile/Settled.antt =====
-- internal/service/service.go, `reconcile`: which of the sessions left on disk go on, and which end.
use bambu_timelapse.Prelude.{
  ℕ, ◌+◌, ◌<◌, ◌≡◌, refl, ◌∙◌, Bool, true, false, ◌&&◌, ◌||◌, some, List, [], ◌∷◌, arith,
  Bool-cases, inl, inr,
}
use bambu_timelapse.Go.Text.{Text, text_eq, text_eq_iff}
use bambu_timelapse.Go.Float.{Float}
use bambu_timelapse.Telemetry.{state_finish, task_id, gcode_state}
use bambu_timelapse.Session.{Session}
use bambu_timelapse.Session.Store.{list}
use bambu_timelapse.Service.{Service, Ending, store_at}
use bambu_timelapse.Service.Lifecycle.{start_finalize}
use bambu_timelapse.Service.Reconcile.{is_live, settle, settle_all, reconcile}

module _ {A : Type 0} where
  abbrev pub continues : Bool → Text → Session A → Bool
  continues is_running live sess = is_running && text_eq sess.task_id live

  -- None of the sessions is the job that the printer is on.
  abbrev pub NoneContinues : Bool → Text → List (Session A) → Type 0
  NoneContinues is_running live [] = Unit
  NoneContinues is_running live (sess ∷ rest) =
      (continues is_running live sess ≡ false) × NoneContinues is_running live rest

  -- One of them is.
  abbrev pub some_continues : Bool → Text → List (Session A) → Bool
  some_continues is_running live [] = false
  some_continues is_running live (sess ∷ rest) =
      continues is_running live sess || some_continues is_running live rest

  -- The finalisations of these new sessions, the last one first: as finished, without a closing shot.
  abbrev pub ended_from : ℕ → List (Session A) → List Ending → List Ending
  ended_from n [] es = es
  ended_from n (sess ∷ rest) es =
      ended_from (n + 1) rest
        (record { who = n; end_state = state_finish; skip_delay = true; finished = false } ∷ es)

  -- From the number `n` on, the session objects are these.
  abbrev pub AreStored : (ℕ → Session A) → ℕ → List (Session A) → Type 0
  AreStored m n [] = Unit
  AreStored m n (sess ∷ rest) = (m n ≡ sess) × AreStored m (n + 1) rest

  -- The current session is one of the job `live`.
  abbrev pub IsAdopted : Text → Service A → Type 0
  IsAdopted live s = (p : ℕ) × (s.current ≡ some p) × (p < s.next) × ((s.sessions p).task_id ≡ live)

  passed_over : Session A → Service A → Service A
  passed_over sess s =
      start_finalize s.next state_finish true
        (record s { sessions = store_at s.next sess s.sessions; next = s.next + 1 })

module _ {A : Type 0} ⦃f : Float A⦄ where
  settle_adopts :
      (live : Text) (sess : Session A) (s : Service A)
      → text_eq sess.task_id live ≡ true
      → IsAdopted live (settle true live sess s)
  unfolding settle
  settle_adopts live sess s mine =
      rw mine (s.next, refl, omega arith, ground (arith, text_eq_iff sess.task_id live))

  settle_keeps :
      (is_running : Bool) (live : Text) (sess : Session A) (s : Service A)
      → IsAdopted live s
      → IsAdopted live (settle is_running live sess s)
  unfolding settle start_finalize
  settle_keeps is_running live sess s (p, at, lt, id) =
      elim (Bool-cases (is_running && text_eq sess.task_id live)) [
        | inl mine ↦
            rw mine (s.next, refl, omega arith, ground (arith, text_eq_iff sess.task_id live))
        | inr other ↦ rw other (p, at, omega arith, ground arith)
      ]

  settle_passes :
      (is_running : Bool) (live : Text) (sess : Session A) (s : Service A)
      → continues is_running live sess ≡ false
      → settle is_running live sess s ≡ passed_over sess s
  unfolding settle passed_over
  settle_passes is_running live sess s h = rw h refl

  passed_all :
      (is_running : Bool) (live : Text) (sess : Session A) (rest : List (Session A)) (s : Service A)
      → let t = settle_all is_running live rest (passed_over sess s) in
        (t.current ≡ (passed_over sess s).current)
          × (t.endings ≡ ended_from (passed_over sess s).next rest (passed_over sess s).endings)
        → let t = settle_all is_running live rest (passed_over sess s) in
          (t.current ≡ s.current) × (t.endings ≡ ended_from s.next (sess ∷ rest) s.endings)
  unfolding passed_over start_finalize
  passed_all is_running live sess rest s h = h

  settle_all_ends :
      (is_running : Bool) (live : Text) (found : List (Session A)) (s : Service A)
      → NoneContinues is_running live found
      → let t = settle_all is_running live found s in
        (t.current ≡ s.current) × (t.endings ≡ ended_from s.next found s.endings)
  unfolding settle_all
  settle_all_ends is_running live [] s h = (refl, refl)
  settle_all_ends is_running live (sess ∷ rest) s h =
      rw (settle_passes is_running live sess s h.0, settle_all)
        (passed_all is_running live sess rest s
          (settle_all_ends is_running live rest (passed_over sess s) h.1))

  keeps_IsAdopted :
      (is_running : Bool) (live : Text) (found : List (Session A)) (s : Service A)
      → IsAdopted live s
      → IsAdopted live (settle_all is_running live found s)
  unfolding settle_all
  keeps_IsAdopted is_running live [] s h = h
  keeps_IsAdopted is_running live (sess ∷ rest) s h =
      keeps_IsAdopted is_running live rest (settle is_running live sess s)
        (settle_keeps is_running live sess s h)

  adopts :
      (live : Text) (found : List (Session A)) (s : Service A)
      → some_continues true live found ≡ true
      → IsAdopted live (settle_all true live found s)
  unfolding settle_all
  adopts live [] s h = cc
  adopts live (sess ∷ rest) s h = elim (Bool-cases (text_eq sess.task_id live)) [
    | inl mine ↦
        keeps_IsAdopted true live rest (settle true live sess s) (settle_adopts live sess s mine)
    | inr other ↦ adopts live rest (settle true live sess s) (rw other at h)
  ]

  settle_old :
      (is_running : Bool) (live : Text) (sess : Session A) (s : Service A) (q : ℕ)
      → q < s.next
      → ((settle is_running live sess s).sessions q ≡ s.sessions q)
        × (q < (settle is_running live sess s).next)
  unfolding settle start_finalize
  settle_old is_running live sess s q lt =
      elim (Bool-cases (is_running && text_eq sess.task_id live)) [
        | inl mine ↦ rw mine (ground arith, omega arith)
        | inr other ↦ rw other (ground arith, omega arith)
      ]

  settle_all_old :
      (is_running : Bool) (live : Text) (found : List (Session A)) (s : Service A) (q : ℕ)
      → q < s.next
      → (settle_all is_running live found s).sessions q ≡ s.sessions q
  unfolding settle_all
  settle_all_old is_running live [] s q lt = refl
  settle_all_old is_running live (sess ∷ rest) s q lt =
      let (same, lt') = settle_old is_running live sess s q lt in
      settle_all_old is_running live rest (settle is_running live sess s) q lt' ∙ same

  settle_new :
      (is_running : Bool) (live : Text) (sess : Session A) (s : Service A)
      → ((settle is_running live sess s).sessions s.next ≡ sess)
        × ((settle is_running live sess s).next ≡ s.next + 1)
  unfolding settle start_finalize
  settle_new is_running live sess s = elim (Bool-cases (is_running && text_eq sess.task_id live)) [
    | inl mine ↦ rw mine (ground arith, refl)
    | inr other ↦ rw other (ground arith, refl)
  ]

  settle_all-AreStored :
      (is_running : Bool) (live : Text) (found : List (Session A)) (s : Service A)
      → AreStored (settle_all is_running live found s).sessions s.next found
  unfolding settle_all settle
  settle_all-AreStored is_running live [] s = tt
  settle_all-AreStored is_running live (sess ∷ rest) s =
      let t = settle is_running live sess s in
      let (new, next) = settle_new is_running live sess s in
      let later = settle_all-AreStored is_running live rest (settle is_running live sess s) in
      (settle_all_old is_running live rest t s.next (omega arith) ∙ new, rw next at later)

  -- Where the staging directory can be listed and the printer is on none of the jobs in it, each of
  -- its sessions becomes an object, and each of these is handed to a finalisation, as finished and
  -- without the wait for a closing shot. The current session stays as it was.
  pub reconcile_ends_all :
      (s : Service A)
      → NoneContinues (is_live (gcode_state s.view)) (task_id s.view) (list s.store)
      → let t = reconcile true s in
        (t.current ≡ s.current)
        × (t.endings ≡ ended_from s.next (list s.store) s.endings)
        × AreStored t.sessions s.next (list s.store)
  unfolding reconcile
  reconcile_ends_all s h =
      let live = is_live (gcode_state s.view) in
      let (same, ends) = settle_all_ends live (task_id s.view) (list s.store) s h in
      (same, ends, settle_all-AreStored live (task_id s.view) (list s.store) s)

  -- Where the staging directory can be listed and a session in it has the task id of the job that
  -- the printer is printing or has paused, the current session after the reconciliation exists and
  -- is of that job.
  pub reconcile_adopts :
      (s : Service A)
      → is_live (gcode_state s.view) ≡ true
      → some_continues true (task_id s.view) (list s.store) ≡ true
      → IsAdopted (task_id s.view) (reconcile true s)
  unfolding reconcile
  reconcile_adopts s live known = rw live (adopts (task_id s.view) (list s.store) s known)
