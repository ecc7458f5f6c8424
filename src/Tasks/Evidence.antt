-- ===== src/Tasks/Evidence.antt =====
-- robot/evidence.py: references to evidence files. The paths of `pathlib` are a parameter.
use valera_control_tower.Base.{
  Bool, false, ◌||◌, ◌++◌, not, Option, none, some, List, [], ◌∷◌, Text, text, text_eq, is_empty,
  member, ◌==◌, Result, ok, ◌>>=◌, ◌>>◌, raise_if, validation_error, file_not_found_error, ℕ, ◌≡◌,
  sym, guard-ok, bind-ok, then-ok, check-ok, ok-injective,
}
use valera_control_tower.Wire.{string, Fields, end, field}

-- What the code uses of `PurePosixPath`: its parts, whether it is absolute, `/`, and `str`.
pub record PurePosixPaths : Type 1 where
  pub FilePath : Type 0
  pub path : Text → FilePath
  pub is_absolute : FilePath → Bool
  pub parts : FilePath → List Text
  pub join : FilePath → Text → FilePath
  pub is_relative_to : FilePath → FilePath → Bool
  pub path_text : FilePath → Text

pub record EvidenceRef : Type 0 where
  pub evidence_id : Text
  pub relative_path : Text
  pub media_type : Text
  pub capture_mode : Text
  pub source_adapter : Text
  pub linked_event_id : Text
  pub checksum : Option Text

-- `"/" in variant`
abbrev pub has_char : ℕ → Text → Bool
has_char c [] = false
has_char c (d ∷ s) = c == d || has_char c s

-- `EvidenceRef.to_dict`
abbrev checksum_fields : {F : Type 0} → Option Text → Fields F
checksum_fields none = end
checksum_fields (some c) = field (text "checksum") (string c) end

unfoldable pub evidence_to_dict : {F : Type 0} → EvidenceRef → Fields F
evidence_to_dict r = field (text "evidence_id") (string r.evidence_id) (
    field (text "relative_path") (string r.relative_path) (
      field (text "media_type") (string r.media_type) (
        field (text "capture_mode") (string r.capture_mode) (
          field (text "source_adapter") (string r.source_adapter) (
            field (text "linked_event_id") (string r.linked_event_id)
              (checksum_fields r.checksum))))))

module _ (pl : PurePosixPaths) where
  open pl use {FilePath, path, is_absolute, parts, join, is_relative_to, path_text}

  -- The constructor of `EvidenceRef` with `__post_init__`.
  unfoldable pub evidence_ref :
      Text → Text → Text → Text → Text → Text → Option Text → Result EvidenceRef
  evidence_ref evidence_id relative_path media_type capture_mode source_adapter linked_event_id
        checksum =
      do
        raise_if (is_empty evidence_id) validation_error
        raise_if (is_empty relative_path) validation_error
        raise_if (is_empty media_type) validation_error
        raise_if (is_empty capture_mode) validation_error
        raise_if (is_empty source_adapter) validation_error
        raise_if (is_empty linked_event_id) validation_error
        raise_if (is_absolute (path relative_path)) validation_error
        raise_if (member (text "..") (parts (path relative_path))) validation_error
        ok (record {
          evidence_id = evidence_id;
          relative_path = relative_path;
          media_type = media_type;
          capture_mode = capture_mode;
          source_adapter = source_adapter;
          linked_event_id = linked_event_id;
          checksum = checksum;
        })

  -- `EVIDENCE_ROOT`
  abbrev pub evidence_root : FilePath
  evidence_root = path (text "data/evidence")

  -- `EvidenceRef.validate_for_task`
  unfoldable pub validate_for_task : EvidenceRef → Text → Result (Unit {0})
  validate_for_task r task_id =
      raise_if (not (is_relative_to (path r.relative_path) (join evidence_root task_id)))
        validation_error

  -- `EvidenceRef.local_path`
  unfoldable pub local_path : EvidenceRef → FilePath → FilePath
  local_path r base_path = join base_path r.relative_path

  -- `require_exists`, with the file test of the disk.
  unfoldable pub require_exists : (Text → Bool) → EvidenceRef → Result (Unit {0})
  require_exists is_file r = raise_if (not (is_file r.relative_path)) file_not_found_error

  -- `create_evidence_ref`
  unfoldable pub create_evidence_ref :
      Text → Text → Text → Text → Text → Text → Text → Option Text → Result EvidenceRef
  unfolding evidence_ref validate_for_task
  create_evidence_ref task_id evidence_id variant media_type capture_mode source_adapter
        linked_event_id checksum =
      do
        raise_if (is_empty task_id) validation_error
        raise_if (is_empty variant) validation_error
        raise_if (has_char b'/' variant || has_char 92 variant || text_eq variant (text ".."))
            validation_error
        evidence ←
            evidence_ref evidence_id
              (path_text (
                join (join evidence_root task_id)
                  (evidence_id ++ text "-" ++ variant ++ text ".png")))
              media_type capture_mode source_adapter linked_event_id checksum
        validate_for_task evidence task_id
        ok evidence

  -- A reference that it returns has passed the constructor and the check of its path.
  pub create_evidence_ref-ok :
      (task_id evidence_id variant media mode source event : Text) (checksum : Option Text)
      (r : EvidenceRef)
      → create_evidence_ref task_id evidence_id variant media mode source event checksum ≡ ok r
      → (relative : Text) × (evidence_ref evidence_id relative media mode source event checksum
          ≡ ok r)
        × (validate_for_task r task_id ≡ ok tt)
  unfolding create_evidence_ref
  create_evidence_ref-ok task_id evidence_id variant media mode source event checksum r h =
      let h1 = guard-ok (is_empty task_id) validation_error _ h in
      let h2 = guard-ok (is_empty variant) validation_error _ h1 in
      let h3 =
        guard-ok (has_char b'/' variant || has_char 92 variant || text_eq variant (text ".."))
          validation_error _ h2 in
      let (e, built, h4) =
        bind-ok (evidence_ref evidence_id _ media mode source event checksum) _ h3 in
      let same : e ≡ r = ok-injective (then-ok (validate_for_task e task_id) (ok e) h4) in
      (_, rw same at built, rw (sym same) (check-ok (validate_for_task e task_id) (ok e) h4))
