-- ===== src/Dashboard/Links.antt =====
-- dashboard/render.py and robot/evidence.py: the reference of an image on the page.
use valera_control_tower.Base.{
  ◌≡◌, refl, sym, ap, ◌∙◌, ◌-◌, ◌==◌, arith, true, false, Option, List, [], ◌∷◌, ◌++◌, Text, text,
  text_eq, text_eq_refl, member, length, length-append, take, ok,
}
use mathlib.Core.List.{reverse, reverse-append, append_assoc}
use valera_control_tower.Base.Float.{FloatOps}
use valera_control_tower.Wire.{Json}
use valera_control_tower.Tasks.Evidence.{
  PurePosixPaths, EvidenceRef, create_evidence_ref, create_evidence_ref-ok, evidence_ref,
  validate_for_task, evidence_to_dict, evidence_root,
}
use valera_control_tower.OutputCheck.{get, is_text}
use valera_control_tower.Dashboard.Evidence.{
  LocalPaths, init, index_of, root_of, dashboard_root, is_safe_evidence_path, relative_href,
  evidence_link_and_preview, link_of, link_to, preview, html, shown, get_or,
}

module _ (pl : PurePosixPaths) where
  open pl use {FilePath, path, is_absolute, parts, join, is_relative_to}

  -- A relative path below `q / t` is below `q`: it begins with the parts of both, or, where `t` is
  -- absolute, it would be absolute as well.
  abbrev pub IsBelowParent : Type 0
  IsBelowParent =
      (p q : FilePath) (t : Text)
      → is_absolute p ≡ false
      → is_relative_to p (join q t) ≡ true
      → is_relative_to p q ≡ true

  -- What the constructor takes over and has tested.
  evidence_ref-tested :
      (i relative media mode source event : Text) (checksum : Option Text) (r : EvidenceRef)
      → evidence_ref pl i relative media mode source event checksum ≡ ok r
      → (is_absolute (path r.relative_path) ≡ false)
        × (member (text "..") (parts (path r.relative_path)) ≡ false)
        × (r.evidence_id ≡ i)
        × (r.media_type ≡ media)
  unfolding evidence_ref
  evidence_ref-tested i relative media mode source event checksum r h = ground arith

  in_task :
      (r : EvidenceRef) (task_id : Text)
      → validate_for_task pl r task_id ≡ ok tt
      → is_relative_to (path r.relative_path) (join (evidence_root pl) task_id) ≡ true
  unfolding validate_for_task
  in_task r task_id h = ground arith

  -- A reference that is made for a task has a safe path.
  create_evidence_ref-safe :
      (lp : LocalPaths) (task_id i variant media mode source event : Text) (checksum : Option Text)
      (r : EvidenceRef)
      → IsBelowParent
      → create_evidence_ref pl task_id i variant media mode source event checksum ≡ ok r
      → (is_safe_evidence_path pl lp r.relative_path ≡ true)
        × (r.evidence_id ≡ i)
        × (r.media_type ≡ media)
  unfolding is_safe_evidence_path
  create_evidence_ref-safe lp task_id i variant media mode source event checksum r below h =
      let (relative, built, inside) =
        create_evidence_ref-ok pl task_id i variant media mode source event checksum r h in
      let (a, m, j, k) = evidence_ref-tested i relative media mode source event checksum r built in
      let within =
        below (path r.relative_path) (evidence_root pl) task_id a (in_task r task_id inside) in
      (rw (a, m, within) refl, j, k)

-- The path of a page in the directory `data/runs` of a task, below a root.
abbrev pub page_parts : Text → List Text → Text → Text → List Text
page_parts top root task_id name = (top ∷ root) ++ text "data" ∷ text "runs" ∷ task_id ∷ name ∷ []

-- All but the last part.
init-snoc : (xs : List Text) (x : Text) → init (xs ++ x ∷ []) ≡ xs
init-snoc [] x = refl
init-snoc (y ∷ []) x = refl
init-snoc (y ∷ z ∷ xs) x = ap (λ ys. y ∷ ys) (init-snoc (z ∷ xs) x)

take-length : (xs ys : List Text) → take (length xs) (xs ++ ys) ≡ xs
take-length [] ys = refl
take-length (x ∷ xs) ys = ap (λ zs. x ∷ zs) (take-length xs ys)

member-append : (t : Text) (xs ys : List Text) → member t (xs ++ t ∷ ys) ≡ true
unfolding member
member-append t [] ys = rw (text_eq_refl t) refl
member-append t (x ∷ xs) ys = ground (arith, member-append t xs ys)

-- The last "data" of the directory of a page is the one in front of its run.
data_index :
    (xs : List Text) (task_id : Text)
    → text_eq (text "data") task_id ≡ false
    → index_of (text "data") (reverse (xs ++ text "data" ∷ text "runs" ∷ task_id ∷ [])) ≡ 2
unfolding index_of text_eq
data_index xs task_id h = rw (reverse-append xs (text "data" ∷ text "runs" ∷ task_id ∷ []), h) refl

module _ (pl : PurePosixPaths) (lp : LocalPaths) where
  open lp use {LocalPath, local_parts, parent, of_parts, joinpath, relpath}

  root_of_run :
      (output_path : LocalPath) (top : Text) (root : List Text) (task_id : Text)
      → text_eq (text "data") task_id ≡ false
      → root_of pl lp output_path ((top ∷ root) ++ text "data" ∷ text "runs" ∷ task_id ∷ [])
        ≡ of_parts (top ∷ root)
  unfolding root_of
  root_of_run output_path top root task_id h =
      let run = text "data" ∷ text "runs" ∷ task_id ∷ [] in
      let long : length ((top ∷ root) ++ run) - 1 - 2 ≡ length (top ∷ root) =
        omega (arith, length-append root run) in
      let nonempty : (length (top ∷ root) == 0) ≡ false = ground arith in
      rw (
        member-append (text "data") (top ∷ root) (text "runs" ∷ task_id ∷ []),
        data_index (top ∷ root) task_id h,
        long,
        nonempty,
        take-length (top ∷ root) run,
      )

  -- The root of the dashboard of a page.
  dashboard_root-page :
      (output_path : LocalPath) (top : Text) (root : List Text) (task_id name : Text)
      → text_eq (text "data") task_id ≡ false
      → local_parts output_path ≡ page_parts top root task_id name
      → dashboard_root pl lp output_path ≡ of_parts (top ∷ root)
  unfolding dashboard_root
  dashboard_root-page output_path top root task_id name h k =
      let run = text "data" ∷ text "runs" ∷ task_id ∷ [] in
      ap (λ ts. root_of pl lp output_path (init ts))
        (k ∙ sym (append_assoc (top ∷ root) run (name ∷ [])))
      ∙ ap (root_of pl lp output_path) (init-snoc ((top ∷ root) ++ run) name)
      ∙ root_of_run output_path top root task_id h

  -- The link from a page to a file of the root.
  abbrev pub href_to : List Text → LocalPath → Text → Text
  href_to root output_path relative_path =
      relpath (joinpath (of_parts root) (pl.parts (pl.path relative_path))) (parent output_path)

  relative_href-page :
      (output_path : LocalPath) (top : Text) (root : List Text) (task_id name relative_path : Text)
      → text_eq (text "data") task_id ≡ false
      → local_parts output_path ≡ page_parts top root task_id name
      → relative_href pl lp relative_path output_path
        ≡ href_to (top ∷ root) output_path relative_path
  unfolding relative_href
  relative_href-page output_path top root task_id name relative_path h k =
      ap (λ d. relpath (joinpath d (pl.parts (pl.path relative_path))) (parent output_path))
        (dashboard_root-page output_path top root task_id name h k)

-- If the paths are such that a relative path below `q / t` is below `q`, and the page is in the
-- directory `data/runs` of a task that is not called "data", below some root: a reference to a PNG
-- image that create_evidence_ref returns has on the page the link to its file below the same root,
-- as the path relative to the page's directory, and the preview of that file with the id of the
-- evidence.
pub create_evidence_ref-linked :
    (pl : PurePosixPaths) (lp : LocalPaths) (fl : FloatOps) (str : Json fl.F → Text)
    (output_path : lp.LocalPath) (escape : Text → Text) (top : Text) (root : List Text)
    (run name : Text) (task_id i variant mode source event : Text) (checksum : Option Text)
    (r : EvidenceRef)
    → IsBelowParent pl
    → text_eq (text "data") run ≡ false
    → lp.local_parts output_path ≡ page_parts top root run name
    → create_evidence_ref pl task_id i variant (text "image/png") mode source event checksum ≡ ok r
    → evidence_link_and_preview pl lp fl str output_path escape (evidence_to_dict r)
      ≡ text "\n          <div class=\"evidence-link\"><a href=\""
        ++ escape (href_to pl lp (top ∷ root) output_path r.relative_path)
        ++ text "\">Open evidence file</a></div>"
        ++ (text "\n          <img src=\""
            ++ escape (href_to pl lp (top ∷ root) output_path r.relative_path)
            ++ text "\" "
            ++ text "alt=\"Evidence preview for "
            ++ escape i
            ++ text "\" class=\"evidence-preview\">")
unfolding evidence_link_and_preview link_of link_to preview html shown get_or get is_text text_eq
    evidence_to_dict
create_evidence_ref-linked pl lp fl str output_path escape top root run name task_id i variant mode
      source event checksum r below other at h =
    let (safe, j, k) =
      create_evidence_ref-safe pl lp task_id i variant (text "image/png") mode source event checksum
        r below h in
    rw (safe, k, j, relative_href-page pl lp output_path top root run name r.relative_path other at)
      refl
