-- ===== src/Service/Alignment.antt =====
-- internal/service/service.go: each captured frame has its layer. A session that the daemon holds or
-- finds on disk lists one layer for each frame, all of them above zero, whatever happens.
pub mod Runs
pub mod Events
use bambu_timelapse.Prelude.{
  ℕ, ◌+◌, ◌≡◌, ℤ, pos, true, Option, none, some, List, [], ◌∷◌, ◌==◌, arith, Bool-cases, inl, inr,
}
use bambu_timelapse.Prelude.{ltb_ℤ, length, length-append, ◌++◌}
use bambu_timelapse.Go.Text.{Text}
use bambu_timelapse.Telemetry.{layer}
use bambu_timelapse.Session.{Session}
use bambu_timelapse.Session.Store.{Store}
use bambu_timelapse.Service.{Service, Ending, Grab}
use bambu_timelapse.Service.Finalize.{Settings, Host}
use bambu_timelapse.Service.Events.{finalized}
use bambu_timelapse.Service.Finalize.{Result, finalize}
use bambu_timelapse.Service.Finalize.Fate.{Fate, reason, finalize-Ended}
use bambu_timelapse.Service.{store_at}
use bambu_timelapse.Session.{Place}
use bambu_timelapse.Session.Store.Content.{OfStore, OfStore-discard, OfStore-park}
use bambu_timelapse.Session.Store.Loaded.{park_moved}

abbrev pub AllPositive : List ℤ → Type 0
AllPositive [] = Unit
AllPositive (l ∷ ls) = (ltb_ℤ (pos 0) l ≡ true) × AllPositive ls

-- One layer for each frame, and no layer 0.
abbrev pub HasLayers : {A : Type 0} → Session A → Type 0
HasLayers s = (length s.layers ≡ s.frames) × AllPositive s.layers

abbrev pub GrabsLayer : Option Grab → Type 0
GrabsLayer none = Unit
GrabsLayer (some g) = ltb_ℤ (pos 0) g.layer ≡ true

pub record IsAligned {A : Type 0} (s : Service A) : Type 0 where
  pub held : (p : ℕ) → HasLayers (s.sessions p)
  pub on_disk : OfStore HasLayers s.store
  pub grabbing : GrabsLayer s.grab

AllPositive-snoc :
    (ls : List ℤ) (l : ℤ) → AllPositive ls → ltb_ℤ (pos 0) l ≡ true → AllPositive (ls ++ l ∷ [])
AllPositive-snoc [] l h new = (new, tt)
AllPositive-snoc (k ∷ ks) l h new = (h.0, AllPositive-snoc ks l h.1 new)

module _ {A : Type 0} where
  pub HasLayers-moved : (s : Session A) (p : Place) → HasLayers s → HasLayers (record s { dir = p })
  HasLayers-moved s p h = h

  pub held_at :
      (p : ℕ) (t : Session A) (m : ℕ → Session A)
      → HasLayers t
      → ((q : ℕ) → HasLayers (m q))
      → (q : ℕ) → HasLayers (store_at p t m q)
  held_at p t m new h q = elim (Bool-cases (q == p)) [
    | inl here ↦ rw here new
    | inr away ↦ rw away (h q)
  ]

  -- One more frame, of one more layer.
  pub HasLayers-grabbed :
      (s : Session A) (l : ℤ)
      → HasLayers s
      → ltb_ℤ (pos 0) l ≡ true
      → HasLayers (record s { frames = s.frames + 1; layers = s.layers ++ l ∷ [] })
  HasLayers-grabbed s l h new =
      (omega (arith, h.0, length-append s.layers (l ∷ [])), AllPositive-snoc s.layers l h.1 new)

  Fate-aligned :
      (o : Option Text) (h : Host) (s : Session A) (st : Store A) (r : Result A)
      → Fate o h s st r
      → HasLayers s
      → OfStore HasLayers st
      → OfStore HasLayers r.store × HasLayers r.session
  Fate-aligned none h s st r fate held disk =
      rw (fate.0, fate.1) (OfStore-discard HasLayers s st disk, held)
  Fate-aligned (some why) h s st r fate held disk =
      rw (fate.0, fate.1)
        (
          OfStore-park HasLayers h.renamed s why st disk,
          park_moved HasLayers HasLayers-moved h.renamed s why st held,
        )

  pub finalized-IsAligned :
      (cfg : Settings) (h : Host) (o : Option Ending) (s : Service A)
      → IsAligned s
      → IsAligned (finalized cfg h o s)
  finalized-IsAligned cfg h none s al = al
  finalized-IsAligned cfg h (some e) s al =
      let r = finalize cfg h s.counters (s.sessions e.who) s.store in
      let (disk, held) =
        Fate-aligned (reason r.outcome) h (s.sessions e.who) s.store r
          (finalize-Ended cfg h s.counters (s.sessions e.who) s.store).1 (al.held e.who)
          al.on_disk in
      record {
        held = held_at e.who r.session s.sessions held al.held;
        on_disk = disk;
        grabbing = al.grabbing;
      }
