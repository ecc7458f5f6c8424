-- ===== src/Base/Strings.antt =====
-- Python's `str` as the list of its code points, surrogates included.
use Prim.Native.Nat.{ℕ}
use Prim.Native.Char.{code}
use Prim.Native.String.{String}
use mathlib.Core.Path.{◌≡◌, refl}
use mathlib.Core.Logic.{◌↔◌}
use mathlib.Core.Bool.{Bool, true, false, ◌&&◌, ◌||◌}
use mathlib.Core.List.{List, [], ◌∷◌, ◌++◌}
use native.Mathlib.Omega.{arith}
use valera_control_tower.Base.Tests.{◌==◌, leb}

abbrev pub Text : Type 0
Text = List ℕ

abbrev pub text : String → Text
text String.[] = []
text (String.◌∷◌ c s) = code c ∷ text s

-- `s == t`
unfoldable pub text_eq : Text → Text → Bool
text_eq [] [] = true
text_eq [] (b ∷ t) = false
text_eq (a ∷ s) [] = false
text_eq (a ∷ s) (b ∷ t) = a == b && text_eq s t

pub text_eq_iff : (s t : Text) → (text_eq s t ≡ true) ↔ (s ≡ t)
unfolding text_eq
text_eq_iff [] [] = (λ h. refl, λ h. refl)
text_eq_iff [] (b ∷ t) = (λ h. cc, λ h. cc)
text_eq_iff (a ∷ s) [] = (λ h. cc, λ h. cc)
text_eq_iff (a ∷ s) (b ∷ t) = ground (arith, text_eq_iff s t)

pub text_eq_refl : (s : Text) → text_eq s s ≡ true
text_eq_refl s = (text_eq_iff s s).1 refl

-- `s in collection`
unfoldable pub member : Text → List Text → Bool
member s [] = false
member s (t ∷ ts) = text_eq s t || member s ts

-- `not s`
abbrev pub is_empty : Text → Bool
is_empty [] = true
is_empty (a ∷ s) = false

-- The code points for which `str.isspace` holds.
unfoldable pub is_space_code : ℕ → Bool
is_space_code c =
    leb 9 c && leb c 13
    || leb 28 c && leb c 32
    || c == 133
    || c == 160
    || c == 5760
    || leb 8192 c && leb c 8202
    || c == 8232
    || c == 8233
    || c == 8239
    || c == 8287
    || c == 12288

abbrev all_space : Text → Bool
all_space [] = true
all_space (a ∷ s) = is_space_code a && all_space s

-- `s.isspace()`, which is false for the empty text.
unfoldable pub isspace : Text → Bool
isspace [] = false
isspace (a ∷ s) = all_space (a ∷ s)

-- `s.strip() == ""`: every character is stripped.
unfoldable pub strips_to_empty : Text → Bool
strips_to_empty s = all_space s

-- `separator.join(texts)`
unfoldable pub join_texts : Text → List Text → Text
join_texts separator [] = []
join_texts separator (t ∷ []) = t
join_texts separator (t ∷ u ∷ ts) = t ++ separator ++ join_texts separator (u ∷ ts)
