-- ===== src/Session/Temperature.antt =====
-- internal/session/session.go, `Temps`: a running mean and peak.
use bambu_timelapse.Prelude.{ℕ, ◌+◌, ◌≡◌, pos, List, [], ◌∷◌, arith, ◌==◌, if◌then◌else◌, length}
use bambu_timelapse.Go.Float.{Float}

pub record Temps (A : Type 0) : Type 0 where
  pub sum : A
  pub count : ℕ
  pub peak : A

module _ {A : Type 0} ⦃f : Float A⦄ where
  unfoldable pub no_temps : Temps A
  no_temps = record { sum = f.zero; count = 0; peak = f.zero }

  -- `Add`
  unfoldable pub add_sample : Temps A → A → Temps A
  add_sample t v = if f.le v f.zero then t else record {
    sum = f.add t.sum v;
    count = t.count + 1;
    peak = if f.lt t.peak v then v else t.peak;
  }

  -- `Avg`
  unfoldable pub avg : Temps A → A
  avg t = if t.count == 0 then f.zero else f.div t.sum (f.of_int (pos t.count))

  -- The samples that count: a printer reports zero while it is idle.
  abbrev pub positive : List A → List A
  positive [] = []
  positive (v ∷ vs) = let rest = positive vs in if f.le v f.zero then rest else v ∷ rest

  abbrev pub sum_from : A → List A → A
  sum_from acc [] = acc
  sum_from acc (v ∷ vs) = sum_from (f.add acc v) vs

  abbrev pub max_from : A → List A → A
  max_from acc [] = acc
  max_from acc (v ∷ vs) = max_from (if f.lt acc v then v else acc) vs

  unfoldable pub add_samples : Temps A → List A → Temps A
  add_samples t [] = t
  add_samples t (v ∷ vs) = add_samples (add_sample t v) vs

  -- What is kept of a run of samples is their sum, number and maximum, those at or below zero left
  -- out.
  pub add_samples_lem :
      (t : Temps A) (vs : List A)
      → add_samples t vs ≡ record {
        sum = sum_from t.sum (positive vs);
        count = t.count + length (positive vs);
        peak = max_from t.peak (positive vs);
      }
  unfolding add_samples add_sample
  add_samples_lem t [] = ground arith
  add_samples_lem t (v ∷ vs) = ground (arith, add_samples_lem (add_sample t v) vs)
