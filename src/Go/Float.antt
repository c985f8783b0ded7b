-- ===== src/Go/Float.antt =====
-- float64, as an interface. The program adds, divides, compares, converts and prints floats, and
-- no theorem needs more of them than it states as a hypothesis.
use bambu_timelapse.Prelude.{
  ℕ, zero, suc, ℤ, pos, negsuc, Bool, Option, ltb_ℤ, ◌-◌, ◌+◌, ◌/◌, if◌then◌else◌, ltb, not,
}
use bambu_timelapse.Go.Text.{Text}
use bambu_timelapse.Go.Number.{itoa, atoi}

pub record Float (A : Type 0) : Type 0 where
  pub zero : A
  pub add : A → A → A
  pub sub : A → A → A
  pub div : A → A → A
  -- float64(n), for an int n
  pub of_int : ℤ → A
  -- int(v)
  pub trunc : A → ℤ
  pub lt : A → A → Bool
  pub le : A → A → Bool
  -- strconv.FormatFloat(v, 'f', -1, 64)
  pub shortest : A → Text
  -- strconv.FormatFloat(v, 'f', prec, 64)
  pub fixed : ℕ → A → Text
  -- the constant 0.25
  pub quarter : A
  -- %.0f
  pub rounded : A → Text
  -- strconv.ParseFloat(s, 64)
  pub parse : Text → Option A

abbrev add_int : ℤ → ℤ → ℤ
add_int (pos a) (pos b) = pos (a + b)
add_int (negsuc a) (negsuc b) = negsuc (a + b + 1)
add_int (pos a) (negsuc b) = if ltb b a then pos (a - b - 1) else negsuc (b - a)
add_int (negsuc a) (pos b) = if ltb a b then pos (b - a - 1) else negsuc (a - b)

abbrev negate : ℤ → ℤ
negate (pos zero) = pos 0
negate (pos (suc n)) = negsuc n
negate (negsuc n) = pos (n + 1)

abbrev sub_int : ℤ → ℤ → ℤ
sub_int a b = add_int a (negate b)

abbrev div_int : ℤ → ℤ → ℤ
div_int (pos a) (pos b) = pos (a / b)
div_int (negsuc a) (pos b) = negsuc (a / b)
div_int a _ = a

-- Whole numbers with a division that rounds: floats enough for the witnesses.
instance unfoldable pub whole : Float ℤ
unfolding itoa atoi
whole = record {
  zero = pos 0;
  add = add_int;
  sub = sub_int;
  div = div_int;
  of_int = λ n. n;
  trunc = λ v. v;
  lt = ltb_ℤ;
  le = λ a b. not (ltb_ℤ b a);
  shortest = itoa;
  fixed = λ prec v. itoa v;
  quarter = pos 0;
  rounded = itoa;
  parse = atoi;
}
