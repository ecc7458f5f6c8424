-- ===== src/Dashboard/Skeleton.antt =====
-- dashboard/render.py: the tags of a page, without any text of the events. Of an event it takes
-- whether there are evidence references and an error, of a reference whether it is an object, its
-- path safe and its media type that of a PNG image.
use valera_control_tower.Base.{
  ℕ, suc, Bool, ◌||◌, ◌==◌, not, Option, some, List, [], ◌∷◌, ◌++◌, Text, text, length,
  if◌then◌else◌,
}
use valera_control_tower.Base.Float.{FloatOps}
use valera_control_tower.Wire.{Json, null, string, array, object, Items, nil, cons, Fields}
use valera_control_tower.Tasks.Evidence.{PurePosixPaths}
use valera_control_tower.Missions.{digits}
use valera_control_tower.OutputCheck.{get, is_text}
use valera_control_tower.Dashboard.Evidence.{
  LocalPaths, get_or, truthy, ref_items, is_safe_evidence_path,
}
use valera_control_tower.Dashboard.Template.{
  page_opening, page_style, summary_opening, correlation_label, count_label, timeline_opening,
  details_opening, page_closing,
}

-- `<`, `>` and `"`, which open and close tags and the values of attributes.
abbrev pub is_markup : ℕ → Bool
is_markup c = c == b'<' || c == b'>' || c == b'"'

abbrev pub markup : Text → Text
markup [] = []
markup (c ∷ s) = if is_markup c then c ∷ markup s else markup s

abbrev pub row_tags : Text
row_tags = markup (text "<tr><td></td><td></td><td></td><td></td><td></td><td></td></tr>")

module _ {F : Type 0} where
  unfoldable pub rows_tags : List (Fields F) → Text
  rows_tags [] = []
  rows_tags (event ∷ events) = row_tags ++ rows_tags events

  unfoldable pub error_tags : Json F → Text
  error_tags (object error) = markup (text "<h4></h4><p></p><p></p>")
  error_tags x = []

  unfoldable pub preview_tags : Fields F → Text
  unfolding is_text get
  preview_tags ref =
      if is_text (text "image/png") (get (text "media_type") ref)
      then markup (text "<img src=\"\" alt=\"\" class=\"\">")
      else []

module _ (pl : PurePosixPaths) (lp : LocalPaths) (fl : FloatOps) where
  open fl use {F}

  unfoldable pub link_tags : Option (Json F) → Fields F → Text
  unfolding preview_tags is_safe_evidence_path
  link_tags (some (string relative_path)) ref =
      if is_safe_evidence_path pl lp relative_path
      then markup (text "<div class=\"\"><a href=\"\"></a></div>") ++ preview_tags ref
      else []
  link_tags _ ref = []

  unfoldable pub ref_tags : Json F → Text
  unfolding link_tags get
  ref_tags (object ref) = link_tags (get (text "relative_path") ref) ref
  ref_tags x = []

  unfoldable pub refs_tags : Items F → Text
  unfolding ref_tags
  refs_tags nil = []
  refs_tags (cons x items) =
      (markup (text "<li>") ++ ref_tags x ++ markup (text "</li>")) ++ refs_tags items

  unfoldable pub evidence_tags : Json F → Text
  unfolding refs_tags truthy ref_items
  evidence_tags refs =
      if not (truthy fl refs)
      then markup (text "<p></p>")
      else (markup (text "<h4></h4><ul class=\"\">")
          ++ refs_tags (ref_items refs)
          ++ markup (text "</ul>"))

  unfoldable pub article_tags : Fields F → Text
  unfolding evidence_tags error_tags get_or
  article_tags event =
      markup (text "<article><h3></h3><h4></h4><pre></pre>")
      ++ evidence_tags (get_or (array nil) (text "evidence_refs") event)
      ++ error_tags (get_or null (text "error") event)
      ++ markup (text "</article>")

  unfoldable pub articles_tags : List (Fields F) → Text
  unfolding article_tags
  articles_tags [] = []
  articles_tags (event ∷ events) = article_tags event ++ articles_tags events

  -- The template with the tags of the rows and the articles in it, and the number of the events.
  unfoldable pub page_tags : List (Fields F) → Text
  unfolding rows_tags articles_tags
  page_tags events =
      markup page_opening
      ++ markup page_style
      ++ markup summary_opening
      ++ markup correlation_label
      ++ markup count_label
      ++ markup (digits (suc (length events)) (length events) [])
      ++ markup timeline_opening
      ++ rows_tags events
      ++ markup details_opening
      ++ articles_tags events
      ++ markup page_closing
