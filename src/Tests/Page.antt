-- ===== src/Tests/Page.antt =====
-- The page of dashboard/render.py at concrete inputs. A path is the list of its parts.
use valera_control_tower.Base.{
  ℕ, ◌≡◌, ◌==◌, refl, arith, Bool, true, false, none, List, [], ◌∷◌, ◌++◌, Text, text, text_eq,
  member, ℤ, ok, if◌then◌else◌, join_texts,
}
use valera_control_tower.Wire.{Json, string, object, Fields, end, field}
use valera_control_tower.Tasks.Evidence.{
  PurePosixPaths, EvidenceRef, create_evidence_ref, evidence_ref, validate_for_task,
  evidence_to_dict,
}
use valera_control_tower.Dashboard.Evidence.{
  LocalPaths, relative_href, dashboard_root, root_of, index_of, evidence_link_and_preview,
}
use valera_control_tower.Dashboard.Page.{render_dashboard}
use valera_control_tower.Dashboard.Skeleton.{markup, page_tags}
use valera_control_tower.Dashboard.Markup.{IsInert, render_dashboard-markup}
use valera_control_tower.Dashboard.Links.{IsBelowParent, href_to, create_evidence_ref-linked}
use valera_control_tower.Tests.Floats.{whole}
use valera_control_tower.Tests.Vision.{segments, starts_with}

abbrev rooted : List Text → Bool
rooted ([] ∷ ts) = true
rooted ts = false

abbrev joined : List Text → List Text → List Text
joined p ts = if rooted ts then ts else p ++ ts

abbrev listed : PurePosixPaths
listed = record {
  FilePath = List Text;
  path = segments [];
  is_absolute = rooted;
  parts = λ p. p;
  join = λ p t. joined p (segments [] t);
  is_relative_to = starts_with;
  path_text = join_texts (text "/");
}

starts_with-++ : (p q r : List Text) → starts_with p (q ++ r) ≡ true → starts_with p q ≡ true
starts_with-++ p [] r h = refl
starts_with-++ [] (b ∷ q) r h = h
starts_with-++ (a ∷ p) (b ∷ q) r h = ground (arith, starts_with-++ p q r)

starts_with-rooted :
    (p ts : List Text) → rooted ts ≡ true → starts_with p ts ≡ true → rooted p ≡ true
unfolding text_eq
starts_with-rooted ([] ∷ p) ts k h = refl
starts_with-rooted [] ([] ∷ ts) k h = cc
starts_with-rooted ((c ∷ s) ∷ p) ([] ∷ ts) k h = cc
starts_with-rooted p _ k h = cc

starts_with-joined :
    (p q ts : List Text)
    → rooted p ≡ false
    → starts_with p (joined q ts) ≡ true
    → starts_with p q ≡ true
starts_with-joined p q ts k h = ground (arith, starts_with-rooted p ts, starts_with-++ p q ts)

listed-IsBelowParent : IsBelowParent listed
listed-IsBelowParent p q t = starts_with-joined p q (segments [] t)

abbrev without_last : List Text → List Text
without_last [] = []
without_last (t ∷ []) = []
without_last (t ∷ u ∷ ts) = t ∷ without_last (u ∷ ts)

abbrev up : List Text → List Text → List Text
up [] p = p
up (s ∷ ss) p = text ".." ∷ up ss p

-- The way from the second path to the first.
abbrev way : List Text → List Text → List Text
way p [] = p
way [] (s ∷ ss) = up (s ∷ ss) []
way (t ∷ p) (s ∷ ss) = let rest = way p ss in if text_eq t s then rest else up (s ∷ ss) (t ∷ p)

abbrev local : LocalPaths
local = record {
  LocalPath = List Text;
  local_parts = λ p. p;
  parent = without_last;
  of_parts = λ p. p;
  joinpath = λ p ts. p ++ ts;
  relpath = λ p s. join_texts (text "/") (way p s);
}

-- `html.escape` with `quote=True`.
abbrev escaped : ℕ → Text
escaped c =
    if c == b'&'
    then text "&amp;"
    else if c == b'<'
    then text "&lt;"
    else if c == b'>'
    then text "&gt;"
    else if c == b'"'
    then text "&quot;"
    else if c == 39
    then text "&#x27;"
    else c ∷ []

abbrev escape : Text → Text
escape [] = []
escape (c ∷ s) = escaped c ++ escape s

escape-IsInert : IsInert escape
escape-IsInert [] = refl
escape-IsInert (c ∷ s) = ground (arith, escape-IsInert s)

abbrev no_text : Json ℤ → Text
no_text j = text "?"

abbrev page_path : List Text
page_path = text "out" ∷ text "data" ∷ text "runs" ∷ text "t" ∷ text "dashboard.html" ∷ []

-- From the directory of the run to the evidence beside it.
href_of_evidence :
    relative_href listed local (text "data/evidence/t/i-raw.png") page_path
    ≡ text "../../evidence/t/i-raw.png"
unfolding relative_href dashboard_root root_of index_of member text_eq join_texts
href_of_evidence = refl

abbrev attack : List (Fields ℤ)
attack =
    field (text "task_id") (string (text "</title><script>"))
      (field (text "error") (object (field (text "code") (string (text "\"<b>")) end)) end)
    ∷ []

render_dashboard-markup_example :
    markup (render_dashboard listed local whole no_text no_text page_path escape attack).0
    ≡ page_tags listed local whole attack
render_dashboard-markup_example =
    render_dashboard-markup listed local whole no_text no_text page_path escape attack
      escape-IsInert

abbrev raw_ref : EvidenceRef
raw_ref = record {
  evidence_id = text "i";
  relative_path = text "data/evidence/t/i-raw.png";
  media_type = text "image/png";
  capture_mode = text "real_vision";
  source_adapter = text "camera";
  linked_event_id = text "e";
  checksum = none;
}

raw_ref_made :
    create_evidence_ref listed
      (text "t")
      (text "i")
      (text "raw")
      (text "image/png")
      (text "real_vision")
      (text "camera")
      (text "e")
      none
    ≡ ok raw_ref
unfolding create_evidence_ref evidence_ref validate_for_task text_eq member join_texts
raw_ref_made = refl

create_evidence_ref-linked_example :
    evidence_link_and_preview listed local whole no_text page_path escape (evidence_to_dict raw_ref)
    ≡ text "\n          <div class=\"evidence-link\"><a href=\""
      ++ escape (href_to listed local (text "out" ∷ []) page_path raw_ref.relative_path)
      ++ text "\">Open evidence file</a></div>"
      ++ (text "\n          <img src=\""
          ++ escape (href_to listed local (text "out" ∷ []) page_path raw_ref.relative_path)
          ++ text "\" "
          ++ text "alt=\"Evidence preview for "
          ++ escape (text "i")
          ++ text "\" class=\"evidence-preview\">")
unfolding text_eq
create_evidence_ref-linked_example =
    create_evidence_ref-linked listed local whole no_text page_path escape (text "out") []
      (text "t") (text "dashboard.html") (text "t") (text "i") (text "raw") (text "real_vision")
      (text "camera") (text "e") none raw_ref listed-IsBelowParent refl refl raw_ref_made
