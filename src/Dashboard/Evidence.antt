-- ===== src/Dashboard/Evidence.antt =====
-- dashboard/render.py: the evidence of an event on the page. `escape` is `html.escape` with quotes,
-- `str` is `str` of a value that is no string; pathlib and os.path are parameters.
use valera_control_tower.Base.{
  ℕ, ◌-◌, suc, Bool, true, false, ◌&&◌, not, Option, none, some, List, [], ◌∷◌, ◌++◌, Text, text,
  text_eq, is_empty, member, length, take, ◌==◌, if◌then◌else◌, pos, join_texts,
}
use mathlib.Core.List.{reverse}
use valera_control_tower.Base.Float.{FloatOps}
use valera_control_tower.Wire.{
  Json, null, boolean, integer, number, string, array, object, Items, nil, cons, Fields, end,
}
use valera_control_tower.Tasks.Evidence.{PurePosixPaths, evidence_root}
use valera_control_tower.OutputCheck.{get, is_text}

-- What the page uses of `Path` and `os.path`. `relpath` is `os.path.relpath` of a path from a
-- start, with the separators as `/`.
pub record LocalPaths : Type 1 where
  pub LocalPath : Type 0
  pub local_parts : LocalPath → List Text
  pub parent : LocalPath → LocalPath
  pub of_parts : List Text → LocalPath
  pub joinpath : LocalPath → List Text → LocalPath
  pub relpath : LocalPath → LocalPath → Text

-- `texts.index(t)` of a text that is in the list.
unfoldable pub index_of : Text → List Text → ℕ
index_of t [] = 0
index_of t (u ∷ us) = let rest = index_of t us in if text_eq t u then 0 else suc rest

module _ {F : Type 0} where
  -- `str(value)`
  unfoldable pub shown : (Json F → Text) → Json F → Text
  shown str (string s) = s
  shown str x = str x

  -- `d.get(key, default)`
  unfoldable pub get_or : Json F → Text → Fields F → Json F
  unfolding get
  get_or default key fs = elim (get key fs) [ none ↦ default | some x ↦ x ]

  -- `value is None`
  abbrev pub is_none : Json F → Bool
  is_none null = true
  is_none x = false

  -- `refs if isinstance(refs, list) else [refs]`
  unfoldable pub ref_items : Json F → Items F
  ref_items (array items) = items
  ref_items x = cons x nil

-- The keys of a reference that are shown.
abbrev pub shown_labels : List Text
shown_labels =
    text "evidence_id"
    ∷ text "relative_path"
    ∷ text "media_type"
    ∷ text "capture_mode"
    ∷ text "source_adapter"
    ∷ text "checksum"
    ∷ []

module _ (fl : FloatOps) where
  -- `bool(value)`
  unfoldable pub truthy : Json fl.F → Bool
  truthy null = false
  truthy (boolean b) = b
  truthy (integer (pos n)) = not (n == 0)
  truthy (integer n) = true
  truthy (number x) = not (fl.eqf x fl.zero_f)
  truthy (string s) = not (is_empty s)
  truthy (array nil) = false
  truthy (array items) = true
  truthy (object end) = false
  truthy (object fs) = true

-- `parts[:-1]`
abbrev pub init : List Text → List Text
init [] = []
init (t ∷ []) = []
init (t ∷ u ∷ ts) = t ∷ init (u ∷ ts)

module _ (pl : PurePosixPaths) (lp : LocalPaths) where
  open lp use {LocalPath, local_parts, parent, of_parts, joinpath, relpath}

  -- `_is_safe_evidence_path`
  unfoldable pub is_safe_evidence_path : Text → Bool
  is_safe_evidence_path relative_path =
      not (pl.is_absolute (pl.path relative_path))
      && not (member (text "..") (pl.parts (pl.path relative_path)))
      && pl.is_relative_to (pl.path relative_path) (evidence_root pl)

  -- `_dashboard_root` from `parts = output_path.parts[:-1]` on.
  unfoldable pub root_of : LocalPath → List Text → LocalPath
  unfolding index_of member
  root_of output_path parts =
      if not (member (text "data") parts)
      then parent output_path
      else (let data_index = length parts - 1 - index_of (text "data") (reverse parts) in
          if data_index == 0 then of_parts (text "." ∷ []) else of_parts (take data_index parts))

  unfoldable pub dashboard_root : LocalPath → LocalPath
  unfolding root_of
  dashboard_root output_path = root_of output_path (init (local_parts output_path))

  -- `_relative_href_from_dashboard`
  unfoldable pub relative_href : Text → LocalPath → Text
  unfolding dashboard_root
  relative_href relative_path output_path =
      relpath (joinpath (dashboard_root output_path) (pl.parts (pl.path relative_path)))
        (parent output_path)

  module _ (fl : FloatOps) (str : Json fl.F → Text) (output_path : LocalPath)
      (escape : Text → Text) where
    open fl use {F}

    -- `_html`
    unfoldable pub html : Json F → Text
    unfolding shown
    html x = escape (shown str x)

    -- The preview of an image.
    unfoldable pub preview : Text → Fields F → Text
    unfolding html get_or is_text get
    preview href ref =
        if is_text (text "image/png") (get (text "media_type") ref)
        then text "\n          <img src=\""
          ++ escape href
          ++ text "\" "
          ++ text "alt=\"Evidence preview for "
          ++ html (get_or (string (text "evidence")) (text "evidence_id") ref)
          ++ text "\" class=\"evidence-preview\">"
        else []

    -- The link and the preview of a file with a safe path.
    unfoldable pub link_to : Text → Fields F → Text
    unfolding preview
    link_to href ref =
        text "\n          <div class=\"evidence-link\"><a href=\""
        ++ escape href
        ++ text "\">Open evidence file</a></div>"
        ++ preview href ref

    -- `_evidence_link_and_preview` with the value of "relative_path".
    unfoldable pub link_of : Option (Json F) → Fields F → Text
    unfolding link_to is_safe_evidence_path relative_href
    link_of (some (string relative_path)) ref =
        if is_safe_evidence_path relative_path
        then link_to (relative_href relative_path output_path) ref
        else []
    link_of _ ref = []

    unfoldable pub evidence_link_and_preview : Fields F → Text
    unfolding link_of get
    evidence_link_and_preview ref = link_of (get (text "relative_path") ref) ref

    -- One of `present_fields`, if its value is not None.
    unfoldable pub present_field : Text → Option (Json F) → List Text
    unfolding html
    present_field label none = []
    present_field label (some x) = if is_none x then [] else ((label ++ text ": " ++ html x) ∷ [])

    unfoldable pub present_fields : List Text → Fields F → List Text
    unfolding present_field get
    present_fields [] ref = []
    present_fields (label ∷ labels) ref =
        present_field label (get label ref) ++ present_fields labels ref

    -- `_evidence_ref_summary`
    unfoldable pub evidence_ref_summary : Json F → Text
    unfolding html present_fields evidence_link_and_preview join_texts
    evidence_ref_summary (object ref) =
        join_texts (text "; ") (present_fields shown_labels ref) ++ evidence_link_and_preview ref
    evidence_ref_summary x = text "legacy_ref: " ++ html x

    unfoldable pub evidence_rows : Items F → List Text
    unfolding evidence_ref_summary
    evidence_rows nil = []
    evidence_rows (cons x items) =
        (text "        <li>" ++ evidence_ref_summary x ++ text "</li>") ∷ evidence_rows items

    -- `_evidence_section`
    unfoldable pub evidence_section : Json F → Text
    unfolding truthy ref_items evidence_rows join_texts
    evidence_section refs =
        if not (truthy fl refs)
        then text "      <p>No evidence refs.</p>"
        else (text "      <h4>Evidence refs</h4>\n      <ul class=\"evidence-list\">\n"
            ++ join_texts (text "\n") (evidence_rows (ref_items refs))
            ++ text "\n      </ul>")
