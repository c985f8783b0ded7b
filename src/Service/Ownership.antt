-- ===== src/Service/Ownership.antt =====
-- internal/service/service.go: which goroutine owns which session. `current` and the finalisations
-- never hold the same session, and a session is finalised once.
pub mod Reports
pub mod Runs
use bambu_timelapse.Prelude.{
  ℕ, ◌≤◌, ◌<◌, ◌≡◌, refl, ◌∙◌, ℤ, Bool, false, ◌||◌, Option, none, some, List, [], ◌∷◌, ◌==◌, arith,
  Bool-cases, inl, inr,
}
use bambu_timelapse.Go.Text.{Text}
use bambu_timelapse.Service.{Service, Options, Ending, Grab, World}
use bambu_timelapse.Service.Lifecycle.{start_finalize, note_idle, capture}
use bambu_timelapse.Service.Events.{finish}

-- Is a finalisation of the session among these?
abbrev pub who_mem : ℕ → List Ending → Bool
who_mem p [] = false
who_mem p (e ∷ es) = (e.who == p) || who_mem p es

-- The current session exists, and is not being finalised, nor was it ever.
abbrev pub Free : Option ℕ → ℕ → List Ending → Type 0
Free none n es = Unit
Free (some p) n es = (p < n) × (who_mem p es ≡ false)

abbrev pub GrabExists : Option Grab → ℕ → Type 0
GrabExists none n = Unit
GrabExists (some g) n = g.target < n

-- Each finalisation is of a session that exists, and no two are of the same.
abbrev pub Once : ℕ → List Ending → Type 0
Once n [] = Unit
Once n (e ∷ es) = (e.who < n) × (who_mem e.who es ≡ false) × Once n es

pub record IsOwned {A : Type 0} (s : Service A) : Type 0 where
  pub free : Free s.current s.next s.endings
  pub grabbing : GrabExists s.grab s.next
  pub once : Once s.next s.endings

-- The session that is handed on is the current one.
abbrev pub Holds : {A : Type 0} → Service A × Option ℕ → Type 0
Holds r = r.0.current ≡ r.1

pub Once-mono : (n m : ℕ) (es : List Ending) → n ≤ m → Once n es → Once m es
Once-mono n m [] le h = tt
Once-mono n m (e ∷ es) le h = (omega (arith, h.0), h.1, Once-mono n m es le h.2)

pub GrabExists-mono : (o : Option Grab) (n m : ℕ) → n ≤ m → GrabExists o n → GrabExists o m
GrabExists-mono none n m le h = tt
GrabExists-mono (some g) n m le h = omega arith

pub fresh : (n p : ℕ) (es : List Ending) → Once n es → n ≤ p → who_mem p es ≡ false
fresh n p [] h le = refl
fresh n p (e ∷ es) h le = ground (arith, h.0, fresh n p es h.2 le)

who_mem-finish : (p q : ℕ) (es : List Ending) → who_mem q (finish p es) ≡ who_mem q es
unfolding finish
who_mem-finish p q [] = refl
who_mem-finish p q (e ∷ es) = ground (arith, who_mem-finish p q es)

pub Once-finish : (n p : ℕ) (es : List Ending) → Once n es → Once n (finish p es)
unfolding finish
Once-finish n p [] h = tt
Once-finish n p (e ∷ es) h =
    let new = who_mem-finish p e.who es ∙ h.1 in
    elim (Bool-cases (e.who == p)) [
      | inl here ↦ rw here (h.0, new, Once-finish n p es h.2)
      | inr away ↦ rw away (h.0, new, Once-finish n p es h.2)
    ]

pub Free-finish : (o : Option ℕ) (n p : ℕ) (es : List Ending) → Free o n es → Free o n (finish p es)
Free-finish none n p es h = tt
Free-finish (some q) n p es h = (h.0, who_mem-finish p q es ∙ h.1)

module _ {A : Type 0} where
  -- A session that is not current is handed to a finalisation.
  pub start_finalize-IsOwned :
      (p : ℕ) (st : Text) (skip : Bool) (s : Service A)
      → s.current ≡ none
      → p < s.next
      → who_mem p s.endings ≡ false
      → IsOwned s
      → IsOwned (start_finalize p st skip s)
  unfolding start_finalize
  start_finalize-IsOwned p st skip s idle lt new h = record {
    free = rw idle tt;
    grabbing = h.grabbing;
    once = (lt, new, h.once);
  }

  -- The current session is handed to a finalisation.
  pub handed_over :
      (p : ℕ) (st : Text) (skip : Bool) (s : Service A)
      → s.current ≡ some p
      → IsOwned s
      → IsOwned (start_finalize p st skip (record s { current = none }))
  handed_over p st skip s at h =
      let mine : Free (some p) s.next s.endings = rw at at h.free in
      start_finalize-IsOwned p st skip (record s { current = none }) refl mine.0 mine.1
        (record { free = tt; grabbing = h.grabbing; once = h.once })

  pub note_idle-IsOwned :
      (now : ℕ) (st : Text) (s : Service A) → IsOwned s → IsOwned (note_idle now st s)
  unfolding note_idle
  note_idle-IsOwned now st s h = ground arith

  pub capture-IsOwned :
      (cfg : Options) (w : World) (p : ℕ) (l : ℤ) (s : Service A)
      → p < s.next
      → IsOwned s
      → IsOwned (capture cfg w p l s)
  unfolding capture
  capture-IsOwned cfg w p l s lt h = ground arith
