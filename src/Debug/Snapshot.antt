-- ===== src/Debug/Snapshot.antt =====
-- `snapshot` of internal/debug/debug.go: the loop that waits for two reports, beside the callback
-- that merges them. The channel holds one token.
use bambu_timelapse.Prelude.{
  ℕ, ◌+◌, ◌≤◌, Bool, true, false, ◌||◌, List, [], ◌∷◌, ◌++◌, leb, ◌==◌, if◌then◌else◌, ◌≡◌, refl,
  ap, arith, Bool-cases, inl, inr,
}
use bambu_timelapse.Go.Text.{Text, text}
use bambu_timelapse.Go.Float.{Float}
use bambu_timelapse.Telemetry.{State, Decoder, merge, new_state}
use bambu_timelapse.Probe.{Handshake, silent, accepted, refused}

-- A message came, the loop took the token, the time was up, or the context was done.
pub data SnapEvent : Type 0 where
  came : Text → SnapEvent
  woken deadline cancelled : SnapEvent

pub record Snap (A : Type 0) : Type 0 where
  pub view : State A
  pub token : Bool
  pub seen : ℕ

pub data SnapEnd (A : Type 0) : Type 0 where
  snap : State A → SnapEnd A
  no_snap : Text → SnapEnd A
  listening : SnapEnd A

module _ {A : Type 0} ⦃f : Float A⦄ (d : Decoder A) (wait_text done_text : Text) where
  abbrev pub merged : Text → Snap A → Snap A
  merged payload s =
      let r = merge d s.view payload in record s { view = r.0; token = s.token || r.1 }

  abbrev pub woke : Snap A → Snap A
  woke s = record s { token = false; seen = s.seen + 1 }

  abbrev pub timed_out : Snap A → SnapEnd A
  timed_out s = if s.seen == 0 then no_snap (text "no report within " ++ wait_text) else snap s.view

  -- The loop of `snapshot`; it cannot wake without a token.
  unfoldable pub snap_loop : List SnapEvent → Snap A → SnapEnd A
  snap_loop [] s = listening
  snap_loop (came payload ∷ es) s = snap_loop es (merged payload s)
  snap_loop (woken ∷ es) s =
      let next = snap_loop es (woke s) in
      let same = snap_loop es s in
      if s.token then (if leb 2 (s.seen + 1) then snap s.view else next) else same
  snap_loop (deadline ∷ es) s = timed_out s
  snap_loop (cancelled ∷ es) s = no_snap done_text

  abbrev pub listened : Text → Handshake → List SnapEvent → SnapEnd A
  listened host silent es =
      no_snap (text "mqtt connect: no answer from " ++ (host ++ text " within 15s"))
  listened host (refused why) es = no_snap (text "mqtt connect: " ++ why)
  listened host accepted es = snap_loop es (record { view = new_state; token = false; seen = 0 })

  -- `snapshot`
  unfoldable pub snapshot : Text → Handshake → List SnapEvent → SnapEnd A
  unfolding snap_loop new_state
  snapshot host h es = listened host h es

  -- The view that the messages of these events make, and how many of them are reports.
  abbrev pub merged_all : State A → List SnapEvent → State A
  merged_all v [] = v
  merged_all v (came payload ∷ es) = merged_all (merge d v payload).0 es
  merged_all v (woken ∷ es) = merged_all v es
  merged_all v (deadline ∷ es) = merged_all v es
  merged_all v (cancelled ∷ es) = merged_all v es

  abbrev pub reports : State A → List SnapEvent → ℕ
  reports v [] = 0
  reports v (came payload ∷ es) =
      let r = merge d v payload in (if r.1 then 1 else 0) + reports r.0 es
  reports v (woken ∷ es) = reports v es
  reports v (deadline ∷ es) = reports v es
  reports v (cancelled ∷ es) = reports v es

  -- What was merged up to some point, of which one message at least was a report.
  abbrev pub Heard : ℕ → State A → List SnapEvent → SnapEnd A → Type 0
  Heard before v es (snap w) =
      (pre : List SnapEvent) × (rest : List SnapEvent) × (es ≡ pre ++ rest)
      × (w ≡ merged_all v pre)
      × (1 ≤ before + reports v pre)
  Heard before v es (no_snap why) = Unit
  Heard before v es listening = Unit

  abbrev tokens : Bool → ℕ
  tokens b = if b then 1 else 0

  Heard-came :
      (payload : Text) (before : ℕ) (v : State A) (es : List SnapEvent) (r : SnapEnd A)
      → Heard (before + tokens (merge d v payload).1) (merge d v payload).0 es r
      → Heard before v (came payload ∷ es) r
  Heard-came payload before v es (snap w) (pre, rest, e, same, k) =
      (came payload ∷ pre, rest, ap (◌∷◌ (came payload)) e, same, omega (arith, k))
  Heard-came payload before v es (no_snap why) h = tt
  Heard-came payload before v es listening h = tt

  Heard-woken :
      (before : ℕ) (v : State A) (es : List SnapEvent) (r : SnapEnd A)
      → Heard before v es r
      → Heard before v (woken ∷ es) r
  Heard-woken before v es (snap w) (pre, rest, e, same, k) =
      (woken ∷ pre, rest, ap (◌∷◌ woken) e, same, k)
  Heard-woken before v es (no_snap why) h = tt
  Heard-woken before v es listening h = tt

  tokens-or : (a b : Bool) → tokens (a || b) ≤ tokens a + tokens b
  tokens-or true b = omega arith
  tokens-or false b = omega arith

  spent : (seen before : ℕ) → seen + 1 ≤ before → seen + 1 + 0 ≤ before
  spent seen before h = omega arith

  snap_loop-Heard :
      (es : List SnapEvent) (s : Snap A) (before : ℕ)
      → s.seen + tokens s.token ≤ before
      → Heard before s.view es (snap_loop es s)
  unfolding snap_loop
  snap_loop-Heard [] s before h = tt
  snap_loop-Heard (came payload ∷ es) s before h =
      let r = merge d s.view payload in
      Heard-came payload before s.view es (snap_loop es (merged payload s)) (
        snap_loop-Heard es (merged payload s) (before + tokens r.1)
          (omega (arith, h, tokens-or s.token r.1)))
  snap_loop-Heard (woken ∷ es) s before h = elim (Bool-cases s.token) [
    | inl there ↦ rw there (elim (Bool-cases (leb 2 (s.seen + 1))) [
      | inl enough ↦ rw enough ([], woken ∷ es, refl, refl, ground arith)
      | inr more ↦ rw more (
          Heard-woken before s.view es (snap_loop es (woke s))
            (snap_loop-Heard es (woke s) before (spent s.seen before (rw there at h))))
    ])
    | inr nothing ↦
        simp nothing (Heard-woken before s.view es (snap_loop es s) (snap_loop-Heard es s before h))
  ]
  snap_loop-Heard (deadline ∷ es) s before h = elim (Bool-cases (s.seen == 0)) [
    | inl unseen ↦ rw unseen tt
    | inr some_seen ↦ rw some_seen ([], deadline ∷ es, refl, refl, ground arith)
  ]
  snap_loop-Heard (cancelled ∷ es) s before h = tt

  -- A snapshot that is returned is what the messages up to some point merge to, at least one of
  -- which was a report.
  pub snapshot-Heard :
      (host : Text) (h : Handshake) (es : List SnapEvent)
      → Heard 0 new_state es (snapshot host h es)
  unfolding snapshot
  snapshot-Heard host silent es = tt
  snapshot-Heard host (refused why) es = tt
  snapshot-Heard host accepted es =
      snap_loop-Heard es (record { view = new_state; token = false; seen = 0 }) 0 (omega arith)
