-- ===== src/Prelude/Lists.antt =====
-- Lists measured and indexed by native numbers, under the library's names.
use Prim.Native.Nat.{ℕ, zero, suc, ◌+◌, ◌-◌, ◌<◌, min}
use mathlib.Core.Path.{◌≡◌, refl, ap, sym, ◌∙◌}
use mathlib.Core.Logic.{◌≢◌, ◌↔◌, ◌⊎◌, inl, inr}
use mathlib.Core.Bool.{Bool, true, false, true≢false}
use mathlib.Core.List.{List, [], ◌∷◌, ◌++◌, map}
use mathlib.Core.Option.{Option, none, some}
use native.Mathlib.Omega.{arith}

module _ {ℓ} {A : Type ℓ} where
  abbrev pub length : List A → ℕ
  length [] = 0
  length (x ∷ xs) = suc (length xs)

  abbrev pub get_elem? : List A → ℕ → Option A
  get_elem? [] i = none
  get_elem? (x ∷ xs) zero = some x
  get_elem? (x ∷ xs) (suc i) = get_elem? xs i

  -- A write out of bounds changes nothing.
  abbrev pub set : List A → ℕ → A → List A
  set [] i v = []
  set (x ∷ xs) zero v = v ∷ xs
  set (x ∷ xs) (suc i) v = x ∷ set xs i v

  pub length-append : (xs ys : List A) → length (xs ++ ys) ≡ length xs + length ys
  length-append [] ys = omega arith
  length-append (x ∷ xs) ys = omega (arith, length-append xs ys)

module _ {ℓ} {A : Type ℓ} where
  pub length-set : (xs : List A) (i : ℕ) (v : A) → length (set xs i v) ≡ length xs
  length-set [] i v = refl
  length-set (x ∷ xs) zero v = refl
  length-set (x ∷ xs) (suc i) v = ap suc (length-set xs i v)

  pub get_elem?-set_self :
      (xs : List A) (i : ℕ) (v : A) → i < length xs → get_elem? (set xs i v) i ≡ some v
  get_elem?-set_self [] i v h = elim h [ ]
  get_elem?-set_self (x ∷ xs) zero v h = refl
  get_elem?-set_self (x ∷ xs) (suc i) v h = get_elem?-set_self xs i v (omega arith)

  pub get_elem?-set_ne :
      (xs : List A) {i j : ℕ} (v : A) → i ≢ j → get_elem? (set xs i v) j ≡ get_elem? xs j
  get_elem?-set_ne [] v h = refl
  get_elem?-set_ne (x ∷ xs) {i = zero} {j = zero} v h = absurd (h refl)
  get_elem?-set_ne (x ∷ xs) {i = zero} {j = suc j} v h = refl
  get_elem?-set_ne (x ∷ xs) {i = suc i} {j = zero} v h = refl
  get_elem?-set_ne (x ∷ xs) {i = suc i} {j = suc j} v h = get_elem?-set_ne xs v (λ e. h (ap suc e))

module _ {A : Type 0} where
  -- Is `a` one of the list?
  abbrev pub IsIn : A → List A → Type 0
  IsIn a [] = ⊥
  IsIn a (x ∷ xs) = (x ≡ a) ⊎ IsIn a xs

  abbrev pick : Bool → A → List A → List A
  pick true x rest = rest
  pick false x rest = x ∷ rest

  -- The list without those that `b` holds of.
  abbrev pub dropped : (A → Bool) → List A → List A
  dropped b [] = []
  dropped b (x ∷ xs) = pick (b x) x (dropped b xs)

  pick_left :
      (t : Bool) (x a : A) (b : A → Bool) (xs rest : List A)
      → b x ≡ t
      → (IsIn a rest → IsIn a xs × (b a ≡ false))
      → IsIn a (pick t x rest)
      → IsIn a (x ∷ xs) × (b a ≡ false)
  pick_left true x a b xs rest e f h = let (i, o) = f h in (inr i, o)
  pick_left false x a b xs rest e f (inl same) = (inl same, ap b (sym same) ∙ e)
  pick_left false x a b xs rest e f (inr h) = let (i, o) = f h in (inr i, o)

  pick_keeps :
      (t : Bool) (x a : A) (b : A → Bool) (xs rest : List A)
      → b x ≡ t
      → b a ≡ false
      → (IsIn a xs → IsIn a rest)
      → IsIn a (x ∷ xs)
      → IsIn a (pick t x rest)
  pick_keeps true x a b xs rest e o f (inl same) = absurd (true≢false (sym e ∙ (ap b same ∙ o)))
  pick_keeps true x a b xs rest e o f (inr h) = f h
  pick_keeps false x a b xs rest e o f (inl same) = inl same
  pick_keeps false x a b xs rest e o f (inr h) = inr (f h)

  dropped_left :
      (b : A → Bool) (a : A) (xs : List A) → IsIn a (dropped b xs) → IsIn a xs × (b a ≡ false)
  dropped_left b a [] h = absurd h
  dropped_left b a (x ∷ xs) h = pick_left (b x) x a b xs (dropped b xs) refl (dropped_left b a xs) h

  dropped_keeps :
      (b : A → Bool) (a : A) (xs : List A) → IsIn a xs → b a ≡ false → IsIn a (dropped b xs)
  dropped_keeps b a [] h o = absurd h
  dropped_keeps b a (x ∷ xs) h o =
      pick_keeps (b x) x a b xs (dropped b xs) refl o (λ i. dropped_keeps b a xs i o) h

  -- What is left are exactly those of which `b` does not hold.
  pub IsIn-dropped :
      (b : A → Bool) (a : A) (xs : List A) → IsIn a (dropped b xs) ↔ IsIn a xs × (b a ≡ false)
  IsIn-dropped b a xs = (dropped_left b a xs, λ h. dropped_keeps b a xs h.0 h.1)

module _ {ℓ} {A : Type ℓ} where
  abbrev pub get_or : List A → ℕ → A → A
  get_or [] i d = d
  get_or (x ∷ xs) zero d = x
  get_or (x ∷ xs) (suc i) d = get_or xs i d

  abbrev pub take : ℕ → List A → List A
  take zero xs = []
  take (suc n) [] = []
  take (suc n) (x ∷ xs) = x ∷ take n xs

  abbrev pub drop : ℕ → List A → List A
  drop zero xs = xs
  drop (suc n) [] = []
  drop (suc n) (x ∷ xs) = drop n xs

  abbrev pub replicate : ℕ → A → List A
  replicate zero a = []
  replicate (suc n) a = a ∷ replicate n a

  pub take-append-drop : (n : ℕ) (xs : List A) → take n xs ++ drop n xs ≡ xs
  take-append-drop zero xs = refl
  take-append-drop (suc n) [] = refl
  take-append-drop (suc n) (x ∷ xs) = rw (take-append-drop n xs)

  pub length-take : (n : ℕ) (xs : List A) → length (take n xs) ≡ min n (length xs)
  length-take zero xs = omega arith
  length-take (suc n) [] = omega arith
  length-take (suc n) (x ∷ xs) = omega (arith, length-take n xs)

  pub length-drop : (n : ℕ) (xs : List A) → length (drop n xs) ≡ length xs - n
  length-drop zero xs = omega arith
  length-drop (suc n) [] = omega arith
  length-drop (suc n) (x ∷ xs) = omega (arith, length-drop n xs)

  pub length-replicate : (n : ℕ) (a : A) → length (replicate n a) ≡ n
  length-replicate zero a = refl
  length-replicate (suc n) a = ap suc (length-replicate n a)

  pub length-map {κ} : {B : Type κ} (xs : List A) (f : A → B) → length (map f xs) ≡ length xs
  length-map [] f = refl
  length-map (x ∷ xs) f = ap suc (length-map xs f)
