-- ===== src/Service/Timed/Ends.antt =====
-- `RunTimed` of internal/service/service.go: when the loop ends, and the frames that it numbers.
use bambu_timelapse.Prelude.{
  ℕ, zero, suc, ◌+◌, ◌<◌, ◌≤◌, pos, Bool, true, false, Option, none, some, List, [], ◌∷◌,
  if◌then◌else◌, ◌≡◌, refl, ap, ◌∙◌, arith, Bool-cases, inl, inr, ◌⊎◌,
}
use bambu_timelapse.Session.Store.{JobDir, dir_at, put_dir}
use bambu_timelapse.Session.Store.Resume.{dir_at-put_dir, save-stills}
use bambu_timelapse.Service.Events.{add_still}
use bambu_timelapse.Service.Timed.{
  Turn, done, ticked, Timed, wants_more, refused, kept, framed, turn, capture_loop,
}

-- The numbers from `n` down to 1.
abbrev pub down_from : ℕ → List ℕ
down_from zero = []
down_from (suc n) = suc n ∷ down_from n

-- The directory is there, and its frames are numbered from 1 on without a gap, as ffmpeg reads them.
abbrev pub IsNumbered : {A : Type 0} → Timed A → Type 0
IsNumbered {A} t =
    (d : JobDir A) × (dir_at t.session.dir t.store ≡ some d)
    × (d.stills ≡ down_from t.session.frames)

plus_one : (n : ℕ) → n + 1 ≡ suc n
plus_one n = omega arith

-- Was the context done?
abbrev pub HasDone : List Turn → Type 0
HasDone [] = ⊥
HasDone (done ∷ es) = Unit
HasDone (ticked came saved ∷ es) = HasDone es

-- How many grabs gave a frame.
abbrev pub came_count : List Turn → ℕ
came_count [] = 0
came_count (done ∷ es) = came_count es
came_count (ticked came saved ∷ es) = (if came then 1 else 0) + came_count es

-- Left, with at most `n` frames, and with `n` of them unless the context was done.
abbrev pub Ended : {A : Type 0} → ℕ → List Turn → Timed A × Bool → Type 0
Ended n es (t, left) =
    (left ≡ true) × (t.session.frames ≤ n) × (HasDone es ⊎ (t.session.frames ≡ n)) × IsNumbered t

-- The loop is over at the limit.
at_limit : (n frames : ℕ) → 0 < n → frames ≤ n → wants_more (pos n) frames ≡ false → frames ≡ n
at_limit n frames h k e = ground arith

pub still_due : (D : Type 0) (n a b : ℕ) → D ⊎ (n ≤ a) → a ≤ b → D ⊎ (n ≤ b)
still_due D n a b (inl d) k = inl d
still_due D n a b (inr h) k = inr (omega arith)

module _ {A : Type 0} where
  next_still :
      (n : ℕ) (d : JobDir A)
      → d.stills ≡ down_from n
      → (add_still (n + 1) d).stills ≡ down_from (n + 1)
  next_still n d h = rw (plus_one n) (ap (◌∷◌ (suc n)) h)

  kept-IsNumbered :
      (saved : Bool) (d : JobDir A) (t : Timed A)
      → d.stills ≡ down_from t.session.frames
      → IsNumbered (kept saved d t)
  kept-IsNumbered saved d t h =
      let n = t.session.frames + 1 in
      let sess = record t.session { frames = n } in
      let st = put_dir sess.dir (add_still n d) t.store in
      let at = dir_at-put_dir sess.dir (add_still n d) t.store in
      let (d', there, same) = save-stills saved sess (add_still n d) st at in
      (d', there, same ∙ next_still t.session.frames d h)

  -- What a turn does to the session: nothing to its directory, and one frame more or none.
  framed-IsNumbered :
      (saved : Bool) (o : Option (JobDir A)) (t : Timed A)
      → dir_at t.session.dir t.store ≡ o
      → IsNumbered t
      → IsNumbered (framed saved o t)
  framed-IsNumbered saved none t e h = h
  framed-IsNumbered saved (some x) t e (d, there, stills) = kept-IsNumbered saved x t (cc)

  turn-IsNumbered : (e : Turn) (t : Timed A) → IsNumbered t → IsNumbered (turn e t).0
  turn-IsNumbered done t h = h
  turn-IsNumbered (ticked true saved) t h = framed-IsNumbered saved _ t refl h
  turn-IsNumbered (ticked false saved) t h = h

  framed-frames :
      (saved : Bool) (o : Option (JobDir A)) (t : Timed A)
      → dir_at t.session.dir t.store ≡ o
      → IsNumbered t
      → (framed saved o t).session.frames ≡ t.session.frames + 1
  framed-frames saved none t e (d, there, stills) = absurd cc
  framed-frames saved (some x) t e h = refl

  capture_loop-Ended-turn :
      (n : ℕ) (e : Turn) (es : List Turn) (t : Timed A)
      → 0 < n
      → t.session.frames < n
      → IsNumbered t
      → (HasDone (e ∷ es) ⊎ (n ≤ t.session.frames + came_count (e ∷ es)))
      → ((u : Timed A)
          → u.session.frames ≤ n
          → IsNumbered u
          → (HasDone es ⊎ (n ≤ u.session.frames + came_count es))
          → Ended n es (capture_loop (pos n) es u))
      → Ended n
          (e ∷ es)
          (if (turn e t).1 then capture_loop (pos n) es (turn e t).0 else ((turn e t).0, true))
  capture_loop-Ended-turn n done es t pos_n less h en rec = (refl, omega arith, inl tt, h)
  capture_loop-Ended-turn n (ticked true saved) es t pos_n less h en rec =
      let same = framed-frames saved _ t refl h in
      rec (framed saved (dir_at t.session.dir t.store) t) (omega (arith, same))
        (turn-IsNumbered (ticked true saved) t h)
        (still_due (HasDone es) n _ _ en (omega (arith, same)))
  capture_loop-Ended-turn n (ticked false saved) es t pos_n less h en rec =
      rec (refused t) (omega arith) h (still_due (HasDone es) n _ _ en (omega arith))

  -- A timed run with a limit leaves its loop once that many grabs have given a frame, whatever
  -- grabs failed in between, or once its context is done; it then has as many frames as the limit
  -- says, or fewer if it was stopped, and their numbers have no gap.
  pub capture_loop-Ended :
      (n : ℕ) (es : List Turn) (t : Timed A)
      → 0 < n
      → t.session.frames ≤ n
      → IsNumbered t
      → (HasDone es ⊎ (n ≤ t.session.frames + came_count es))
      → Ended n es (capture_loop (pos n) es t)
  unfolding capture_loop
  capture_loop-Ended n [] t k l h (inl e) = elim e [ ]
  capture_loop-Ended n [] t k l h (inr e) = (ground arith, l, inr (omega arith), h)
  capture_loop-Ended n (e ∷ es) t k l h en =
      elim (Bool-cases (wants_more (pos n) t.session.frames)) [
        | inl more ↦ rw more (
            capture_loop-Ended-turn n e es t k (ground arith) h en
              (λ u l' h' en'. capture_loop-Ended n es u k l' h' en'))
        | inr full ↦ rw full (refl, l, inr (at_limit n t.session.frames k l full), h)
      ]
