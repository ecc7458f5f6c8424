-- ===== src/Base/Exceptions.antt =====
-- Python's exceptions as values: a call returns a value or raises.
use mathlib.Core.Path.{◌≡◌, refl}
use mathlib.Core.Bool.{Bool, true, false}
use mathlib.Core.Logic.{◌⊎◌, inl, inr}
use native.Mathlib.Omega.{arith}

pub data Exception : Type 0 where
  message_validation_error attribute_error type_error value_error : Exception
  overflow_error zero_division_error assertion_error key_error recursion_error : Exception
  json_decode_error wire_error : Exception
  -- ValidationError with the code INVALID_TASK, and with HARDWARE_MODE_NOT_ENABLED.
  validation_error hardware_mode_error : Exception
  live_camera_disabled_error runtime_error os_error file_not_found_error : Exception
  stop_iteration output_error : Exception

pub data Result {ℓ} (A : Type ℓ) : Type ℓ where
  ok : A → Result A
  raised : Exception → Result A

infixl 5 ◌>>=◌ ◌>>◌
abbrev pub ◌>>=◌ {ℓ κ} : {V : Type ℓ} {W : Type κ} → Result V → (V → Result W) → Result W
raised x >>= rest = raised x
ok v >>= rest = rest v

abbrev pub ◌>>◌ {ℓ} : {B : Type ℓ} → Result (Unit {0}) → Result B → Result B
raised e >> next = raised e
ok done >> next = next

-- `if bad: raise e`
abbrev pub raise_if : Bool → Exception → Result (Unit {0})
raise_if true e = raised e
raise_if false e = ok tt

-- `try: m / except caught: raise e`
abbrev pub raise_from {ℓ} : {A : Type ℓ} → (Exception → Bool) → Exception → Result A → Result A
raise_from caught e (ok a) = ok a
raise_from caught e (raised x) = elim (caught x) [ true ↦ raised e | false ↦ raised x ]

pub Result-cases {ℓ} :
    {A : Type ℓ} (r : Result A) → ((a : A) × (r ≡ ok a)) ⊎ ((e : Exception) × (r ≡ raised e))
Result-cases (ok a) = inl (a, refl)
Result-cases (raised e) = inr (e, refl)

pub ok-injective {ℓ} : {A : Type ℓ} {a b : A} → ok a ≡ ok b → a ≡ b
ok-injective h = cc

-- The value on which a chain that returns went on, the chain split at any of its calls.
pub bind-ok {ℓ κ} :
    {V : Type ℓ} {W : Type κ} (call : Result V) (rest : V → Result W) {w : W}
    → (call >>= rest) ≡ ok w
    → (v : V) × (call ≡ ok v) × (rest v ≡ ok w)
bind-ok (raised x) rest returned = cc
bind-ok (ok v) rest returned = (v, refl, returned)

pub raise_from-ok {ℓ} :
    {A : Type ℓ} (caught : Exception → Bool) (e : Exception) (m : Result A) {a : A}
    → raise_from caught e m ≡ ok a
    → m ≡ ok a
raise_from-ok caught e (ok b) h = h
raise_from-ok caught e (raised x) h = ground arith

pub then-ok {ℓ} :
    {A : Type ℓ} (check : Result (Unit {0})) (next : Result A) {a : A}
    → (check >> next) ≡ ok a
    → next ≡ ok a
then-ok (raised e) next h = cc
then-ok (ok done) next h = h

pub guard-ok {ℓ} :
    {A : Type ℓ} (b : Bool) (e : Exception) (k : Result A) {a : A}
    → (raise_if b e >> k) ≡ ok a
    → k ≡ ok a
guard-ok b e k h = then-ok (raise_if b e) k h

pub check-ok {ℓ} :
    {A : Type ℓ} (check : Result (Unit {0})) (next : Result A) {a : A}
    → (check >> next) ≡ ok a
    → check ≡ ok tt
check-ok (raised e) next h = cc
check-ok (ok done) next h = refl
