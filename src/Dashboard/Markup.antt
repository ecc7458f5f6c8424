-- ===== src/Dashboard/Markup.antt =====
-- dashboard/render.py: the characters of the page that make its tags and attributes.
use valera_control_tower.Base.{
  ◌≡◌, refl, ap, ◌∙◌, arith, Bool, true, false, not, Option, none, some, List, [], ◌∷◌, ◌++◌, Text,
  text, if◌then◌else◌, join_texts, All, Bool-cases, inl, inr,
}
use mathlib.Core.List.{append-nil, append_assoc}
use valera_control_tower.Base.Float.{FloatOps}
use valera_control_tower.Wire.{Json, string, object, Items, nil, cons, Fields}
use valera_control_tower.Tasks.Evidence.{PurePosixPaths}
use valera_control_tower.OutputCheck.{get, is_text}
use valera_control_tower.Dashboard.{summarize_events}
use valera_control_tower.Dashboard.Evidence.{
  LocalPaths, shown, get_or, html, preview, link_to, link_of, is_none, evidence_link_and_preview,
  present_field, present_fields, shown_labels, evidence_ref_summary, evidence_rows,
  evidence_section, truthy, is_safe_evidence_path,
}
use valera_control_tower.Dashboard.Skeleton.{
  markup, rows_tags, error_tags, preview_tags, link_tags, ref_tags, refs_tags, evidence_tags,
  article_tags, articles_tags, page_tags,
}
use valera_control_tower.Dashboard.Page.{
  cell, timeline_row, timeline_rows, error_section, detail_section, detail_sections, render_html,
  render_dashboard,
}

-- `html.escape` with `quote=True` writes none of these characters.
abbrev pub IsInert : (Text → Text) → Type 0
IsInert escape = (t : Text) → markup (escape t) ≡ []

markup-++ : (s t : Text) → markup (s ++ t) ≡ markup s ++ markup t
markup-++ [] t = refl
markup-++ (c ∷ s) t = ground (arith, markup-++ s t)

++-same : (s t s' t' : Text) → markup s ≡ s' → markup t ≡ t' → markup (s ++ t) ≡ s' ++ t'
++-same s t s' t' h k = rw (markup-++, h, k) refl

wrapped : (a s b : Text) → markup (a ++ s ++ b) ≡ markup a ++ markup s ++ markup b
wrapped a s b = markup-++ (a ++ s) b ∙ ap (λ t. t ++ markup b) (markup-++ a s)

-- Two texts with the same markup.
abbrev Alike : Text → Text → Type 0
Alike s t = markup s ≡ markup t

-- A test that takes the same branch on both sides.
if-same :
    {A : Type 0} (f : Text → A) (b : Bool) (s t : Text) (s' t' : A)
    → f s ≡ s'
    → f t ≡ t'
    → f (if b then s else t) ≡ (if b then s' else t')
if-same f true s t s' t' h k = h
if-same f false s t s' t' h k = k

abbrev flat : List Text → Text
flat [] = []
flat (s ∷ ss) = s ++ flat ss

-- A separator without markup.
join_texts-flat :
    (separator : Text) (ss : List Text)
    → markup separator ≡ []
    → Alike (join_texts separator ss) (flat ss)
unfolding join_texts
join_texts-flat separator [] h = refl
join_texts-flat separator (s ∷ []) h = simp (markup-++, append-nil)
join_texts-flat separator (s ∷ t ∷ ss) h =
    simp (markup-++, h, append-nil, join_texts-flat separator (t ∷ ss) h)

module _ (pl : PurePosixPaths) (lp : LocalPaths) (fl : FloatOps) (str : Json fl.F → Text)
    (json_dumps : Json fl.F → Text) (output_path : lp.LocalPath) (escape : Text → Text)
    (inert : IsInert escape) where
  open fl use {F}

  cell-markup :
      (key : Text) (e : Fields F)
      → markup (cell pl lp fl str json_dumps output_path escape key e) ≡ []
  unfolding cell html
  cell-markup key e = inert (shown str (get_or (string []) key e))

  preview-Alike :
      (href : Text) (ref : Fields F)
      → markup (preview pl lp fl str output_path escape href ref) ≡ (preview_tags ref)
  unfolding preview preview_tags html
  preview-Alike href ref =
      if-same markup (is_text (text "image/png") (get (text "media_type") ref)) _ _ _ _
        (simp (markup-++, inert)) refl

  link_of-Alike :
      (x : Option (Json F)) (ref : Fields F)
      → markup (link_of pl lp fl str output_path escape x ref) ≡ (link_tags pl lp fl x ref)
  unfolding link_of link_to link_tags
  link_of-Alike (some (string relative_path)) ref =
      if-same markup (is_safe_evidence_path pl lp relative_path) _ _ _ _
        (simp (markup-++, inert, preview-Alike)) refl
  link_of-Alike _ ref = refl

  present_field-markup :
      (label : Text) (x : Option (Json F))
      → markup label ≡ []
      → markup (flat (present_field pl lp fl str output_path escape label x)) ≡ []
  unfolding present_field html
  present_field-markup label none h = refl
  present_field-markup label (some x) h = elim (Bool-cases (is_none x)) [
    | inl n ↦ rw n refl
    | inr n ↦ rw n (simp (markup-++, h, inert))
  ]

  flat-++ : (ss ts : List Text) → Alike (flat (ss ++ ts)) (flat ss ++ flat ts)
  flat-++ [] ts = refl
  flat-++ (s ∷ ss) ts = simp (markup-++, flat-++ ss ts, append_assoc)

  present_fields-markup :
      (labels : List Text) (ref : Fields F)
      → All (λ l. markup l ≡ []) labels
      → markup (flat (present_fields pl lp fl str output_path escape labels ref)) ≡ []
  unfolding present_fields
  present_fields-markup [] ref h = refl
  present_fields-markup (label ∷ labels) ref h = simp (
    flat-++,
    markup-++,
    present_field-markup label (get label ref) h.0,
    present_fields-markup labels ref h.1,
  )

  evidence_ref_summary-Alike :
      (x : Json F)
      → markup (evidence_ref_summary pl lp fl str output_path escape x) ≡ (ref_tags pl lp fl x)
  unfolding evidence_ref_summary evidence_link_and_preview html shown ref_tags
  evidence_ref_summary-Alike (object ref) = simp (
    markup-++,
    join_texts-flat (text "; ") _ refl,
    present_fields-markup shown_labels ref (refl, (refl, (refl, (refl, (refl, (refl, tt)))))),
    link_of-Alike,
  )
  evidence_ref_summary-Alike x = inert (shown str x)

  evidence_rows-Alike :
      (items : Items F)
      → markup (flat (evidence_rows pl lp fl str output_path escape items))
        ≡ (refs_tags pl lp fl items)
  unfolding evidence_rows refs_tags
  evidence_rows-Alike nil = refl
  evidence_rows-Alike (cons x items) =
      let summary = evidence_ref_summary pl lp fl str output_path escape x in
      ++-same (text "        <li>" ++ summary ++ text "</li>")
        (flat (evidence_rows pl lp fl str output_path escape items))
        (markup (text "<li>") ++ ref_tags pl lp fl x ++ markup (text "</li>"))
        (refs_tags pl lp fl items)
        (wrapped (text "        <li>") summary (text "</li>")
          ∙ ap (λ t. markup (text "<li>") ++ t ++ markup (text "</li>"))
              (evidence_ref_summary-Alike x))
        (evidence_rows-Alike items)

  evidence_section-Alike :
      (refs : Json F)
      → markup (evidence_section pl lp fl str output_path escape refs)
        ≡ (evidence_tags pl lp fl refs)
  unfolding evidence_section evidence_tags
  evidence_section-Alike refs =
      if-same markup (not (truthy fl refs)) _ _ _ _ refl
        (simp (markup-++, join_texts-flat (text "\n") _ refl, evidence_rows-Alike))

  timeline_rows-Alike :
      (events : List (Fields F))
      → markup (flat (timeline_rows pl lp fl str json_dumps output_path escape events))
        ≡ (rows_tags events)
  unfolding timeline_rows timeline_row rows_tags
  timeline_rows-Alike [] = refl
  timeline_rows-Alike (e ∷ events) =
      simp (markup-++, cell-markup, inert, timeline_rows-Alike events)

  error_section-Alike :
      (x : Json F)
      → markup (error_section pl lp fl str json_dumps output_path escape x) ≡ (error_tags x)
  unfolding error_section error_tags
  error_section-Alike (object error) = simp (markup-++, cell-markup)
  error_section-Alike x = refl

  detail_section-Alike :
      (e : Fields F)
      → markup (detail_section pl lp fl str json_dumps output_path escape e)
        ≡ (article_tags pl lp fl e)
  unfolding detail_section article_tags
  detail_section-Alike e =
      simp (markup-++, cell-markup, inert, append-nil, evidence_section-Alike, error_section-Alike)
        refl

  detail_sections-Alike :
      (events : List (Fields F))
      → markup (flat (detail_sections pl lp fl str json_dumps output_path escape events))
        ≡ (articles_tags pl lp fl events)
  unfolding detail_sections articles_tags
  detail_sections-Alike [] = refl
  detail_sections-Alike (e ∷ events) =
      ++-same (detail_section pl lp fl str json_dumps output_path escape e)
        (flat (detail_sections pl lp fl str json_dumps output_path escape events))
        (article_tags pl lp fl e) (articles_tags pl lp fl events) (detail_section-Alike e)
        (detail_sections-Alike events)

-- If the escape writes no `<`, `>` or `"`, these characters of the page that is written for events
-- are, in their order, those of the page's template with the tags of one row and one article for
-- each event in it; which tags an article has depends on the event only in whether it has evidence
-- references and an error, which of the references are objects with a safe path, and which of
-- these are PNG images.
pub render_dashboard-markup :
    (pl : PurePosixPaths) (lp : LocalPaths) (fl : FloatOps) (str : Json fl.F → Text)
    (json_dumps : Json fl.F → Text) (output_path : lp.LocalPath) (escape : Text → Text)
    (events : List (Fields fl.F))
    → IsInert escape
    → markup (render_dashboard pl lp fl str json_dumps output_path escape events).0
      ≡ page_tags pl lp fl events
unfolding render_dashboard render_html summarize_events page_tags
render_dashboard-markup pl lp fl str json_dumps output_path escape events inert =
    simp
      (
        markup-++,
        inert,
        append-nil,
        join_texts-flat (text "\n") _ refl,
        timeline_rows-Alike pl lp fl str json_dumps output_path escape inert events,
        detail_sections-Alike pl lp fl str json_dumps output_path escape inert events,
      )
      refl
