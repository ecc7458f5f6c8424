-- ===== src/Tests/Floats.antt =====
-- An instance of the float interface: whole numbers, with `/` rounding to zero and coarse angles.
use valera_control_tower.Base.{
  ℕ, ◌+◌, ◌*◌, refl, Bool, true, arith, Option, none, some, List, [], ◌∷◌, ℤ, pos, negsuc, sub_ℕ,
  ltb, leb, ◌==◌, if◌then◌else◌, suc,
}
use Prim.Native.Nat.{◌/◌}
use valera_control_tower.Base.Float.{FloatOps, IsIeee}

abbrev pos_part : ℤ → ℕ
pos_part (pos n) = n
pos_part (negsuc n) = 0

abbrev neg_part : ℤ → ℕ
neg_part (pos n) = 0
neg_part (negsuc n) = suc n

abbrev add : ℤ → ℤ → ℤ
add a b = sub_ℕ (pos_part a + pos_part b) (neg_part a + neg_part b)

abbrev negate : ℤ → ℤ
negate a = sub_ℕ (neg_part a) (pos_part a)

abbrev mul : ℤ → ℤ → ℤ
mul a b =
    sub_ℕ (pos_part a * pos_part b + neg_part a * neg_part b)
      (pos_part a * neg_part b + neg_part a * pos_part b)

abbrev lt_test : ℤ → ℤ → Bool
lt_test a b = ltb (pos_part a + neg_part b) (pos_part b + neg_part a)

abbrev le_test : ℤ → ℤ → Bool
le_test a b = leb (pos_part a + neg_part b) (pos_part b + neg_part a)

abbrev divide : ℤ → ℤ → Option ℤ
divide a b =
    if pos_part b + neg_part b == 0
    then none
    else some (
        sub_ℕ
          ((pos_part a * pos_part b + neg_part a * neg_part b)
            / ((pos_part b + neg_part b) * (pos_part b + neg_part b)))
          ((pos_part a * neg_part b + neg_part a * pos_part b)
            / ((pos_part b + neg_part b) * (pos_part b + neg_part b))))

abbrev magnitude : List ℤ → ℕ
magnitude [] = 0
magnitude (a ∷ as') = pos_part a + neg_part a + magnitude as'

abbrev pub whole : FloatOps
whole = record {
  F = ℤ;
  zero_f = pos 0;
  one_f = pos 1;
  tiny = pos 0;
  nanos = pos 1_000_000_000;
  add = add;
  sub = λ a b. add a (negate b);
  mul = mul;
  neg = negate;
  div = divide;
  ltf = lt_test;
  lef = le_test;
  eqf = λ a b. pos_part a + neg_part b == pos_part b + neg_part a;
  isfinite = λ a. true;
  of_int =
      λ i. if ltb (pos_part i + neg_part i) (10_000_000_000 * 10_000_000_000) then some i else none;
  exp = λ a. some (pos 0);
  atan2 = λ y x. if lt_test x (pos 0) then pos 180 else y;
  degrees = λ a. a;
  hypot = λ vs. pos (magnitude vs);
}

pub whole-IsIeee : IsIeee whole
whole-IsIeee = record {
  lt-le = λ a b h. ground arith;
  le_left = λ a b h. ground arith;
  le_right = λ a b h. ground arith;
  lef_trans = λ a b c h k. ground arith;
  le_of_not_lt = λ a b h k l. ground arith;
  lt_of_not_le = λ a b h k l. ground arith;
  finite_between = λ a x b h k l m. refl;
  finite_number = λ a h. ground arith;
  zero_finite = refl;
  mul_nonneg = λ a b f h k. ground arith;
  le_add = λ a d h k. ground arith;
  sub_le = λ a d h k. ground arith;
}
