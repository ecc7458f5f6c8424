-- ===== src/Wire/Scan.antt =====
-- robot/vr_gateway/wire.py: `_check_nesting_depth`, which scans the raw text before it is parsed,
-- against a description in two stages: drop the strings, then follow the brackets.
use valera_control_tower.Base.{
  ◌&&◌, ℕ, ◌+◌, ◌-◌, ◌≤◌, ◌≡◌, refl, Bool, true, false, not, ◌||◌, arith, List, [], ◌∷◌, Text, ltb,
  ◌==◌, if◌then◌else◌, Result, ok, raised, wire_error, max, Result-cases, inl, inr, Exception, ap,
}
use valera_control_tower.Wire.{max_json_depth}

pub record ScanState : Type 0 where
  pub depth : ℕ
  pub max_depth : ℕ
  pub in_string : Bool
  pub escape : Bool

abbrev pub scan_start : ScanState
scan_start = record { depth = 0; max_depth = 0; in_string = false; escape = false }

abbrev pub is_open : ℕ → Bool
is_open c = c == b'{' || c == b'['

abbrev pub is_close : ℕ → Bool
is_close c = c == b'}' || c == b']'

-- One round of the loop. `depth -= 1` is followed by the test for a negative depth.
unfoldable pub scan_char : ScanState → ℕ → Result ScanState
scan_char s c =
    if s.escape
    then ok (record s { escape = false })
    else if c == b'\\'
    then ok (record s { escape = true })
    else if c == b'"'
    then ok (record s { in_string = not s.in_string })
    else if s.in_string
    then ok s
    else if is_open c
    then if ltb max_json_depth (max s.max_depth (s.depth + 1))
      then raised wire_error
      else ok (record s { depth = s.depth + 1; max_depth = max s.max_depth (s.depth + 1) })
    else if is_close c
    then if s.depth == 0 then raised wire_error else ok (record s { depth = s.depth - 1 })
    else ok s

unfoldable pub scan : ScanState → Text → Result ScanState
scan s [] = ok s
scan s (c ∷ raw) = elim (scan_char s c) [ ok s' ↦ scan s' raw | raised e ↦ raised e ]

-- `_check_nesting_depth`
unfoldable pub check_nesting_depth : Text → Result (Unit {0})
check_nesting_depth raw = elim (scan scan_start raw) [ ok s ↦ ok tt | raised e ↦ raised e ]

pub data Bracket : Type 0 where
  opening closing : Bracket

-- A backslash hides the character behind it, inside a string and outside.
abbrev pub next_escape : Bool → ℕ → Bool
next_escape escape c = not escape && c == b'\\'

abbrev pub next_string : Bool → Bool → ℕ → Bool
next_string escape in_string c = if not escape && c == b'"' then not in_string else in_string

abbrev pub emit : Bool → ℕ → List Bracket → List Bracket
emit live c rest =
    if live && is_open c
    then opening ∷ rest
    else if live && is_close c
    then closing ∷ rest
    else rest

-- The brackets of a text that stand outside its strings.
unfoldable pub brackets : Bool → Bool → Text → List Bracket
brackets escape in_string [] = []
brackets escape in_string (c ∷ raw) =
    emit (not escape && not in_string) c
      (brackets (next_escape escape c) (next_string escape in_string c) raw)

-- From this depth, no bracket goes above the limit or below zero.
unfoldable pub nested : ℕ → List Bracket → Bool
nested depth [] = true
nested depth (opening ∷ bs) = ltb depth max_json_depth && nested (depth + 1) bs
nested depth (closing ∷ bs) = ltb 0 depth && nested (depth - 1) bs

abbrev accepts : Result ScanState → Bool
accepts (ok s) = true
accepts (raised e) = false

scan-nested :
    (raw : Text) (s : ScanState)
    → s.depth ≤ s.max_depth
    → s.max_depth ≤ max_json_depth
    → accepts (scan s raw) ≡ nested s.depth (brackets s.escape s.in_string raw)
unfolding scan scan_char brackets nested
scan-nested [] s h k = refl
scan-nested (c ∷ raw) s h k = ground (
  arith,
  scan-nested raw s,
  scan-nested raw (record s { escape = false }),
  scan-nested raw (record s { escape = true }),
  scan-nested raw (record s { in_string = not s.in_string }),
  scan-nested raw (record s { depth = s.depth + 1; max_depth = max s.max_depth (s.depth + 1) }),
  scan-nested raw (record s { depth = s.depth - 1 }),
)

scan_char_error :
    (s : ScanState) (c : ℕ) (e : Exception) → scan_char s c ≡ raised e → e ≡ wire_error
unfolding scan_char
scan_char_error s c e h = ground arith

scan_error : (raw : Text) (s : ScanState) (e : Exception) → scan s raw ≡ raised e → e ≡ wire_error
unfolding scan
scan_error [] s e h = cc
scan_error (c ∷ raw) s e h = elim (Result-cases (scan_char s c)) [
  | inl (t, k) ↦ scan_error raw t e (rw (k, scan) at h)
  | inr (x, k) ↦ scan_char_error s c e (ground arith)
]

-- The one-pass scan of the raw text accepts exactly when, with the strings dropped, no bracket
-- goes deeper than the limit or closes what is not open; otherwise it raises the wire error.
pub check_nesting_depth-nested :
    (raw : Text)
    → check_nesting_depth raw
      ≡ (if nested 0 (brackets false false raw) then ok tt else raised wire_error)
unfolding check_nesting_depth
check_nesting_depth-nested raw = elim (Result-cases (scan scan_start raw)) [
  | inl (s, k) ↦
      rw (k, check_nesting_depth)
        (rw (← scan-nested raw scan_start (omega arith) (omega arith)) (rw k))
  | inr (x, k) ↦
      rw (k, check_nesting_depth)
        (rw (← scan-nested raw scan_start (omega arith) (omega arith))
          (rw k (ap raised (scan_error raw scan_start x k))))
]
