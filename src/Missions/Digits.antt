-- ===== src/Missions/Digits.antt =====
-- The numbers in event ids: `f"{n:03d}"` of robot/sim_executor.py, robot/adapter_sim_mission.py and
-- robot/physical_demo.py.
use valera_control_tower.Base.{
  ℕ, zero, suc, ◌+◌, ◌-◌, ◌*◌, ◌≡◌, ◌<◌, refl, ap, ◌∙◌, arith, false, [], ◌∷◌, Text, ltb, length,
  Bool-cases, inl, inr,
}
use Prim.Native.Nat.{◌/◌, ◌%◌}
use valera_control_tower.Missions.{digits, zeros, format_03d}

-- The number that decimal digits stand for, behind a number that has been read already.
abbrev pub value : Text → ℕ → ℕ
value [] n = n
value (c ∷ s) n = value s (n * 10 + (c - b'0'))

digit : (n : ℕ) → 0 * 10 + (b'0' + n - b'0') ≡ n
digit n = omega arith

digit_behind : (n : ℕ) → n / 10 * 10 + (b'0' + n % 10 - b'0') ≡ n
digit_behind n = omega arith

-- The fuel of `digits` is enough if it is above the number.
value-digits : (fuel n : ℕ) (rest : Text) → n < fuel → value (digits fuel n rest) 0 ≡ value rest n
unfolding digits
value-digits zero n rest h = omega (arith, h)
value-digits (suc fuel) n rest h = elim (Bool-cases (ltb n 10)) [
  | inl b ↦ rw b (ap (value rest) (digit n))
  | inr b ↦ rw b (value-digits fuel (n / 10) _ (fewer b) ∙ ap (value rest) (digit_behind n))
]
  where
    fewer : ltb n 10 ≡ false → n / 10 < fuel
    fewer b = ground (arith, h)

value-zeros : (k : ℕ) (s : Text) → value (zeros k s) 0 ≡ value s 0
value-zeros zero s = refl
value-zeros (suc k) s = value-zeros k s

-- Reading the digits that are written for a number in an event id gives the number back, however
-- many digits it has.
value-format_03d : (n : ℕ) → value (format_03d n) 0 ≡ n
unfolding format_03d
value-format_03d n =
    value-zeros (3 - length (digits (suc n) n [])) (digits (suc n) n [])
    ∙ value-digits (suc n) n [] (omega arith)
