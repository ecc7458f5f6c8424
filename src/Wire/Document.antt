-- ===== src/Wire/Document.antt =====
-- robot/vr_gateway/wire.py: the checks of a decoded document: depth, surrogates, duplicate keys.
use valera_control_tower.Base.{
  ℕ, ◌+◌, ◌≤◌, ◌≡◌, refl, max, Bool, true, false, ◌&&◌, ◌||◌, arith, List, [], ◌∷◌, Text, text_eq,
  member, ltb, leb, if◌then◌else◌, Result, ok, raised, ◌>>=◌, ◌>>◌, raise_if, wire_error, key_error,
}
use valera_control_tower.Wire.{
  Json, null, boolean, integer, number, string, array, object, Items, nil, cons, Fields, end, field,
  max_json_depth,
}

-- `_check_depth`
unfoldable mutual
  pub check_depth : {F : Type 0} → Json F → ℕ → Result (Unit {0})
  check_depth null d = raise_if (ltb max_json_depth d) wire_error
  check_depth (boolean b) d = raise_if (ltb max_json_depth d) wire_error
  check_depth (integer i) d = raise_if (ltb max_json_depth d) wire_error
  check_depth (number f) d = raise_if (ltb max_json_depth d) wire_error
  check_depth (string s) d = raise_if (ltb max_json_depth d) wire_error
  check_depth (array xs) d =
      raise_if (ltb max_json_depth d) wire_error >> check_depth_items xs (d + 1)
  check_depth (object fs) d =
      raise_if (ltb max_json_depth d) wire_error >> check_depth_fields fs (d + 1)

  pub check_depth_items : {F : Type 0} → Items F → ℕ → Result (Unit {0})
  check_depth_items nil d = ok tt
  check_depth_items (cons x xs) d = check_depth x d >> check_depth_items xs d

  pub check_depth_fields : {F : Type 0} → Fields F → ℕ → Result (Unit {0})
  check_depth_fields end d = ok tt
  check_depth_fields (field k x fs) d = check_depth x d >> check_depth_fields fs d

-- The containers above the deepest node, the node's own levels counted from its top.
unfoldable mutual
  pub height : {F : Type 0} → Json F → ℕ
  height null = 1
  height (boolean b) = 1
  height (integer i) = 1
  height (number f) = 1
  height (string s) = 1
  height (array xs) = 1 + height_items xs
  height (object fs) = 1 + height_fields fs

  pub height_items : {F : Type 0} → Items F → ℕ
  height_items nil = 0
  height_items (cons x xs) = max (height x) (height_items xs)

  pub height_fields : {F : Type 0} → Fields F → ℕ
  height_fields end = 0
  height_fields (field k x fs) = max (height x) (height_fields fs)

abbrev pub passes : Result (Unit {0}) → Bool
passes (ok u) = true
passes (raised e) = false

passes-bind : (m k : Result (Unit {0})) → passes (m >> k) ≡ (passes m && passes k)
passes-bind (ok u) k = refl
passes-bind (raised e) k = refl

height_pos : {F : Type 0} (j : Json F) → 1 ≤ height j
unfolding height
height_pos (array xs) = omega arith
height_pos (object fs) = omega arith
height_pos _ = omega arith

mutual
  unfolding check_depth height

  check_depth-height :
      {F : Type 0} (j : Json F) (d : ℕ) → passes (check_depth j d) ≡ leb (height j + d) 17
  check_depth-height null d = ground arith
  check_depth-height (boolean b) d = ground arith
  check_depth-height (integer i) d = ground arith
  check_depth-height (number f) d = ground arith
  check_depth-height (string s) d = ground arith
  check_depth-height (array xs) d =
      rw (passes-bind _ (check_depth_items xs (d + 1)))
        (ground (arith, check_depth_items-height xs (d + 1)))
  check_depth-height (object fs) d =
      rw (passes-bind _ (check_depth_fields fs (d + 1)))
        (ground (arith, check_depth_fields-height fs (d + 1)))

  check_depth_items-height :
      {F : Type 0} (xs : Items F) (d : ℕ)
      → passes (check_depth_items xs d) ≡ (leb (height_items xs + d) 17 || leb (height_items xs) 0)
  check_depth_items-height nil d = ground arith
  check_depth_items-height (cons x xs) d =
      rw (passes-bind (check_depth x d) (check_depth_items xs d))
        (ground (arith, height_pos x, check_depth-height x d, check_depth_items-height xs d))

  check_depth_fields-height :
      {F : Type 0} (fs : Fields F) (d : ℕ)
      → passes (check_depth_fields fs d)
        ≡ (leb (height_fields fs + d) 17 || leb (height_fields fs) 0)
  check_depth_fields-height end d = ground arith
  check_depth_fields-height (field k x fs) d =
      rw (passes-bind (check_depth x d) (check_depth_fields fs d))
        (ground (arith, height_pos x, check_depth-height x d, check_depth_fields-height fs d))

-- `_check_depth` of a whole document passes exactly when the document is at most 16 levels high,
-- a scalar counted as a level of its own.
pub check_depth-height_root :
    {F : Type 0} (j : Json F) → passes (check_depth j 1) ≡ leb (height j) max_json_depth
check_depth-height_root j = ground (arith, check_depth-height j 1)

unfoldable pub is_surrogate : ℕ → Bool
is_surrogate c = leb 0xD800 c && leb c 0xDFFF

unfoldable pub has_surrogate : Text → Bool
unfolding is_surrogate
has_surrogate [] = false
has_surrogate (c ∷ s) = is_surrogate c || has_surrogate s

-- `_reject_surrogates`
unfoldable mutual
  pub reject_surrogates : {F : Type 0} → Json F → Result (Unit {0})
  reject_surrogates (string s) = raise_if (has_surrogate s) wire_error
  reject_surrogates (object fs) = reject_surrogates_fields fs
  reject_surrogates (array xs) = reject_surrogates_items xs
  reject_surrogates _ = ok tt

  pub reject_surrogates_items : {F : Type 0} → Items F → Result (Unit {0})
  reject_surrogates_items nil = ok tt
  reject_surrogates_items (cons x xs) = reject_surrogates x >> reject_surrogates_items xs

  pub reject_surrogates_fields : {F : Type 0} → Fields F → Result (Unit {0})
  reject_surrogates_fields end = ok tt
  reject_surrogates_fields (field k x fs) =
      raise_if (has_surrogate k) wire_error >> (reject_surrogates x >> reject_surrogates_fields fs)

-- The loop of `_reject_duplicate_keys` over the pairs, with the keys that it has seen.
unfoldable pub check_keys : {F : Type 0} → List Text → Fields F → Result (Unit {0})
check_keys seen end = ok tt
check_keys seen (field k x fs) = raise_if (member k seen) wire_error >> check_keys (k ∷ seen) fs

-- `_reject_duplicate_keys`: the dict holds the pairs in their order.
unfoldable pub reject_duplicate_keys : {F : Type 0} → Fields F → Result (Json F)
unfolding check_keys
reject_duplicate_keys fs = check_keys [] fs >>= λ _. ok (object fs)

-- `_reject_constant`
unfoldable pub reject_constant : {F : Type 0} → Text → Result (Json F)
reject_constant literal = raised wire_error

-- `obj[key]`
unfoldable pub get_field : {F : Type 0} → Text → Fields F → Result (Json F)
get_field key end = raised key_error
get_field key (field k x fs) = if text_eq key k then ok x else get_field key fs

unfoldable pub has_key : {F : Type 0} → Text → Fields F → Bool
has_key key end = false
has_key key (field k x fs) = text_eq key k || has_key key fs

-- `required <= set(obj.keys())`
unfoldable pub has_keys : {F : Type 0} → List Text → Fields F → Bool
unfolding has_key
has_keys [] fs = true
has_keys (k ∷ ks) fs = has_key k fs && has_keys ks fs

-- `set(obj.keys()) <= allowed`
unfoldable pub only_keys : {F : Type 0} → List Text → Fields F → Bool
only_keys allowed end = true
only_keys allowed (field k x fs) = member k allowed && only_keys allowed fs

-- `set(obj.keys()) == keys`
unfoldable pub same_keys : {F : Type 0} → List Text → Fields F → Bool
unfolding has_keys only_keys
same_keys keys fs = has_keys keys fs && only_keys keys fs
