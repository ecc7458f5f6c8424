-- ===== src/OutputCheck/Sound.antt =====
-- scripts/check_physical_demo_output.py: what a replay and its evidence are like that pass the check.
use valera_control_tower.Base.{
  ℕ, ◌+◌, ◌==◌, ◌≡◌, refl, sym, ap, ◌∙◌, arith, Bool, true, false, not, ◌&&◌, some, List, [], ◌∷◌,
  All, map, Text, text, text_eq, text_eq_iff, member, length, Result, ok, ◌>>◌, bind-ok, then-ok,
  check-ok, ok-injective, pos,
}
use valera_control_tower.Wire.{Json, string, integer, Items, nil, cons, Fields, object}
use valera_control_tower.Tasks.Models.{require_enum, raw_text}
use valera_control_tower.Tasks.Values.{require_enum-event_type_value}
use valera_control_tower.Tasks.Evidence.{PurePosixPaths, evidence_root}
use valera_control_tower.Tasks.Events.{
  Datetimes, EventType, event_type_value, all_event_types, EventEnvelope, event_to_dict,
}
use valera_control_tower.Missions.Open.{types}
use valera_control_tower.Missions.SimulatedRun.{sequences, numbers}
use valera_control_tower.Missions.Physical.{physical_demo_success_event_sequence}
use valera_control_tower.Vision.LiveCamera.{live_camera_source}
use valera_control_tower.OutputCheck.{
  Outside, count_items, expected_event_types, require, get, is_text, is_number, event_objects,
  require_object, require_string, types_are, sequences_from, check_ref, check_refs,
}

event_type_value-injective : (t u : EventType) → event_type_value t ≡ event_type_value u → t ≡ u
event_type_value-injective t u h = ok-injective (
    sym (require_enum-event_type_value t)
    ∙ ap (λ s. require_enum event_type_value all_event_types (raw_text s)) h
    ∙ require_enum-event_type_value u)

-- The texts that the check compares with are those of the demo's success sequence.
pub expected_event_types_lem :
    expected_event_types ≡ map event_type_value physical_demo_success_event_sequence
unfolding event_type_value
expected_event_types_lem = refl

pub require-true : (b : Bool) → require b ≡ ok tt → b ≡ true
unfolding require
require-true b h = ground arith

-- A test at the head of a chain that returns holds.
pub required :
    {A : Type 0} (b : Bool) (next : Result A) {a : A}
    → (require b >> next) ≡ ok a
    → (b ≡ true) × (next ≡ ok a)
required b next h = (require-true b (check-ok (require b) next h), then-ok (require b) next h)

pub equal : (m n : ℕ) → (m == n) ≡ true → m ≡ n
equal m n h = ground arith

and-true : (a b : Bool) → (a && b) ≡ true → (a ≡ true) × (b ≡ true)
and-true a b h = ground arith

module _ {F : Type 0} (dt : Datetimes) where
  open dt use {Datetime}

  -- `[event.to_dict() for event in events]`
  abbrev pub exported : List (EventEnvelope Datetime F) → List (Fields F)
  exported [] = []
  exported (e ∷ es) = event_to_dict dt e ∷ exported es

  abbrev pub export : List (EventEnvelope Datetime F) → Items F
  export [] = nil
  export (e ∷ es) = cons (object (event_to_dict dt e)) (export es)

  pub export-event_objects :
      (es : List (EventEnvelope Datetime F)) → event_objects (export es) ≡ ok (exported es)
  unfolding event_objects
  export-event_objects [] = refl
  export-event_objects (e ∷ es) = rw (export-event_objects es) refl

  -- Two fields of an exported event.
  get-event_type :
      (e : EventEnvelope Datetime F)
      → get (text "event_type") (event_to_dict dt e) ≡ some (string (event_type_value e.event_type))
  unfolding get event_to_dict text_eq
  get-event_type e = refl

  get-sequence :
      (e : EventEnvelope Datetime F)
      → get (text "sequence") (event_to_dict dt e) ≡ some (integer (pos e.sequence))
  unfolding get event_to_dict text_eq
  get-sequence e = refl

  -- An export that has the types of a list of types is of events with these types.
  pub types_are-exported :
      (ts : List EventType) (es : List (EventEnvelope Datetime F))
      → types_are (map event_type_value ts) (exported es) ≡ true
      → types es ≡ ts
  unfolding types_are is_text
  types_are-exported [] [] h = refl
  types_are-exported [] (e ∷ es) h = cc
  types_are-exported (t ∷ ts) [] h = cc
  types_are-exported (t ∷ ts) (e ∷ es) h =
      let (here, others) =
        and-true (is_text (event_type_value t) (get (text "event_type") (event_to_dict dt e))) _
          h in
      let same : text_eq (event_type_value e.event_type) (event_type_value t) ≡ true =
        ap (is_text (event_type_value t)) (sym (get-event_type e)) ∙ here in
      cc (
        event_type_value-injective e.event_type t ((text_eq_iff _ _).0 same),
        types_are-exported ts es others,
      )

  module _ (pl : PurePosixPaths) (out : Outside pl.FilePath F) where
    pub sequences_from-exported :
        (n : ℕ) (es : List (EventEnvelope Datetime F))
        → sequences_from F pl out n (exported es) ≡ true
        → sequences es ≡ numbers n (types es)
    unfolding sequences_from is_number
    sequences_from-exported n [] h = refl
    sequences_from-exported n (e ∷ es) h =
        let (here, others) =
          and-true (is_number F pl out n (get (text "sequence") (event_to_dict dt e))) _ h in
        let same : (e.sequence == n) ≡ true =
          ap (is_number F pl out n) (sym (get-sequence e)) ∙ here in
        cc (equal e.sequence n same, sequences_from-exported (n + 1) es others)

-- A file that an evidence reference of a replay names: its path is relative, has no `..`, stays
-- under the evidence root, and the file exists; the two flags say whether its name ends with
-- "-raw.png" and with "-annotated.png".
pub record IsEvidenceFile {F : Type 0} (pl : PurePosixPaths) (out : Outside pl.FilePath F)
    (root : pl.FilePath) (f : pl.FilePath × Bool × Bool) : Type 0 where
  pub relative : Text
  pub at : f.0 ≡ pl.join root relative
  pub not_absolute : pl.is_absolute (pl.path relative) ≡ false
  pub no_parent : member (text "..") (pl.parts (pl.path relative)) ≡ false
  pub in_evidence : pl.is_relative_to (pl.path relative) (evidence_root pl) ≡ true
  pub exists : out.is_file f.0 ≡ true
  pub raw : f.1 ≡ out.name_ends_with (pl.path relative) (text "-raw.png")
  pub annotated : f.2 ≡ out.name_ends_with (pl.path relative) (text "-annotated.png")

not-true : (b : Bool) → not b ≡ true → b ≡ false
not-true b h = ground arith

module _ (F : Type 0) (pl : PurePosixPaths) (out : Outside pl.FilePath F) where
  open pl use {FilePath, path, join, is_absolute, parts, is_relative_to}
  open out use {is_file, read_text, loads, has_suffix, name_ends_with}

  check_ref-IsEvidenceFile :
      (root : FilePath) (ref : Json F) (f : FilePath × Bool × Bool)
      → check_ref F pl out root ref ≡ ok f
      → IsEvidenceFile pl out root f
  unfolding check_ref
  check_ref-IsEvidenceFile root ref f h =
      let (r, _, h1) = bind-ok (require_object (some ref)) _ h in
      let (_, h2) = required (is_text live_camera_source (get (text "source_adapter") r)) _ h1 in
      let (_, h3) = required (is_text (text "image/png") (get (text "media_type") r)) _ h2 in
      let (s, _, h4) = bind-ok (require_string (get (text "relative_path") r)) _ h3 in
      let (a, h5) = required (not (is_absolute (path s))) _ h4 in
      let (b, h6) = required (not (member (text "..") (parts (path s)))) _ h5 in
      let (c, h7) = required (is_relative_to (path s) (evidence_root pl)) _ h6 in
      let (_, h8) = required (has_suffix (path s) (text ".png")) _ h7 in
      let (d, h9) = required (is_file (join root s)) _ h8 in
      let same : (
        join root s,
        name_ends_with (path s) (text "-raw.png"),
        name_ends_with (path s) (text "-annotated.png"),
      )
          ≡ f =
        ok-injective h9 in
      rw (sym same) (record {
        relative = s;
        at = refl;
        not_absolute = not-true _ a;
        no_parent = not-true _ b;
        in_evidence = c;
        exists = d;
        raw = refl;
        annotated = refl;
      })

  pub check_refs-IsEvidenceFile :
      (root : FilePath) (refs : Items F) (files : List (FilePath × Bool × Bool))
      → check_refs F pl out root refs ≡ ok files
      → All (IsEvidenceFile pl out root) files × (length files ≡ count_items refs)
  unfolding check_refs
  check_refs-IsEvidenceFile root nil files h =
      let same : [] ≡ files = ok-injective h in rw (sym same) (tt, refl)
  check_refs-IsEvidenceFile root (cons ref refs) files h =
      let (f, checked, h1) = bind-ok (check_ref F pl out root ref) _ h in
      let (fs, rest, h2) = bind-ok (check_refs F pl out root refs) _ h1 in
      let same : f ∷ fs ≡ files = ok-injective h2 in
      let (all, counted) = check_refs-IsEvidenceFile root refs fs rest in
      rw (sym same) ((check_ref-IsEvidenceFile root ref f checked, all), omega (arith, counted))
