-- ===== src/Base/Float.antt =====
-- Python's `float` and the functions of `math` that the neck controller calls, as an interface.
-- `none` is an exception: OverflowError of `float(int)` and `exp`, ZeroDivisionError of `/`.
use mathlib.Core.Path.{◌≡◌}
use mathlib.Core.Bool.{Bool, true, false}
use mathlib.Core.Option.{Option}
use mathlib.Core.List.{List}
use valera_control_tower.Base.Int.{ℤ}
use valera_control_tower.Base.Tests.{if◌then◌else◌}

pub record FloatOps : Type 1 where
  pub F : Type 0
  -- 0.0, 1.0, 1e-12 and 1_000_000_000.0
  pub zero_f : F
  pub one_f : F
  pub tiny : F
  pub nanos : F
  pub add : F → F → F
  pub sub : F → F → F
  pub mul : F → F → F
  pub neg : F → F
  pub div : F → F → Option F
  pub ltf : F → F → Bool
  pub lef : F → F → Bool
  pub eqf : F → F → Bool
  pub isfinite : F → Bool
  pub of_int : ℤ → Option F
  pub exp : F → Option F
  pub atan2 : F → F → F
  pub degrees : F → F
  pub hypot : List F → F

-- What IEEE 754 says of the comparisons and of rounding, NaN and the infinities included: only
-- `<` and `<=` of numbers can be true, a finite float moves by a step d >= 0 in its direction, and
-- the product of a finite a > 0 and any b >= 0, infinity included, is at least 0.
pub record IsIeee (fl : FloatOps) : Type 0 where
  pub lt-le : (a b : fl.F) → fl.ltf a b ≡ true → fl.lef a b ≡ true
  pub le_left : (a b : fl.F) → fl.lef a b ≡ true → fl.lef a a ≡ true
  pub le_right : (a b : fl.F) → fl.lef a b ≡ true → fl.lef b b ≡ true
  pub lef_trans : (a b c : fl.F) → fl.lef a b ≡ true → fl.lef b c ≡ true → fl.lef a c ≡ true
  pub le_of_not_lt :
      (a b : fl.F) → fl.lef a a ≡ true → fl.lef b b ≡ true → fl.ltf a b ≡ false → fl.lef b a ≡ true
  pub lt_of_not_le :
      (a b : fl.F) → fl.lef a a ≡ true → fl.lef b b ≡ true → fl.lef a b ≡ false → fl.ltf b a ≡ true
  pub finite_between :
      (a x b : fl.F)
      → fl.isfinite a ≡ true
      → fl.isfinite b ≡ true
      → fl.lef a x ≡ true
      → fl.lef x b ≡ true
      → fl.isfinite x ≡ true
  pub finite_number : (a : fl.F) → fl.isfinite a ≡ true → fl.lef a a ≡ true
  pub zero_finite : fl.isfinite fl.zero_f ≡ true
  pub mul_nonneg :
      (a b : fl.F)
      → fl.isfinite a ≡ true
      → fl.ltf fl.zero_f a ≡ true
      → fl.lef fl.zero_f b ≡ true
      → fl.lef fl.zero_f (fl.mul a b) ≡ true
  pub le_add :
      (a d : fl.F) → fl.isfinite a ≡ true → fl.lef fl.zero_f d ≡ true → fl.lef a (fl.add a d) ≡ true
  pub sub_le :
      (a d : fl.F) → fl.isfinite a ≡ true → fl.lef fl.zero_f d ≡ true → fl.lef (fl.sub a d) a ≡ true

-- The built-in `max` and `min` of two floats: the first wins unless the second is strictly beyond.
abbrev pub max_f : (fl : FloatOps) → fl.F → fl.F → fl.F
max_f fl a b = if fl.ltf a b then b else a

abbrev pub min_f : (fl : FloatOps) → fl.F → fl.F → fl.F
min_f fl a b = if fl.ltf b a then b else a
