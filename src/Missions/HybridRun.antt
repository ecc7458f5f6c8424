-- ===== src/Missions/HybridRun.antt =====
-- robot/hybrid_demo.py: the log of a hybrid mission.
use valera_control_tower.Base.{
  ℕ, ◌+◌, ◌==◌, ◌≡◌, refl, sym, ap, ◌∙◌, Bool, true, false, ◌||◌, ◌&&◌, not, arith, List, [], ◌∷◌,
  ◌++◌, Text, text_eq, text_eq_iff, text_eq_refl, leb, Bool-cases, inl, inr, ok, ◌>>◌,
  if◌then◌else◌,
}
use mathlib.Core.List.{append_assoc, append-nil}
use valera_control_tower.Tasks.Events.{EventType, EventEnvelope}
use valera_control_tower.Tasks.EventLog.{
  TaskEventLog, is_terminal, with_event, append, validate_events, validate,
}
use valera_control_tower.Tasks.Log.{append-validate}
use valera_control_tower.Missions.Open.{types}
use valera_control_tower.Missions.SimulatedRun.{sequences, numbers}
use valera_control_tower.Missions.Hybrid.{
  is_object_found, first_found, hybrid_event, append_hybrid, hybrid_log,
}

-- The types of a mission, the detection's type in the place of object.found.
abbrev pub hybrid_types : EventType → List EventType → List EventType
hybrid_types t [] = []
hybrid_types t (u ∷ us) =
    let rest = hybrid_types t us in (if is_object_found u then t else u) ∷ rest

-- Every object.found in a list that is numbered from `n` has the number `k`.
abbrev pub found_only_at : ℕ → ℕ → List EventType → Bool
found_only_at k n [] = true
found_only_at k n (t ∷ ts) =
    let rest = found_only_at k (n + 1) ts in (not (is_object_found t) || n == k) && rest

abbrev pub has_found : List EventType → Bool
has_found [] = false
has_found (t ∷ ts) = let rest = has_found ts in is_object_found t || rest

found-running : (t : EventType) → is_object_found t ≡ true → is_terminal t ≡ false
unfolding is_object_found is_terminal
found-running t h = ground arith

cons-parts : {x y : ℕ} {xs ys : List ℕ} → x ∷ xs ≡ y ∷ ys → (x ≡ y) × (xs ≡ ys)
cons-parts h = (cc, cc)

-- What a list says of its first type and of the others.
found_only_at-parts :
    (k n : ℕ) (t : EventType) (ts : List EventType)
    → found_only_at k n (t ∷ ts) ≡ true
    → ((not (is_object_found t) || n == k) ≡ true) × (found_only_at k (n + 1) ts ≡ true)
found_only_at-parts k n t ts h = ground arith

module _ {D F : Type 0} where
  abbrev pub hybrid_events : EventEnvelope D F → List (EventEnvelope D F) → List (EventEnvelope D F)
  hybrid_events v [] = []
  hybrid_events v (e ∷ es) = hybrid_event v e ∷ hybrid_events v es

  pub hybrid_events-types :
      (v : EventEnvelope D F) (es : List (EventEnvelope D F))
      → types (hybrid_events v es) ≡ hybrid_types v.event_type (types es)
  unfolding hybrid_event
  hybrid_events-types v [] = refl
  hybrid_events-types v (e ∷ es) = ground (arith, hybrid_events-types v es)

  validate_events-prefix :
      (task : Text) (seen : Bool) (last : ℕ) (es fs : List (EventEnvelope D F))
      → validate_events task seen last (es ++ fs) ≡ ok tt
      → validate_events task seen last es ≡ ok tt
  unfolding validate_events
  validate_events-prefix task seen last [] fs h = refl
  validate_events-prefix task seen last (e ∷ es) fs h =
      ground
        (arith, validate_events-prefix task (seen || is_terminal e.event_type) e.sequence es fs)

  -- Events that make a log that validates are taken one after the other.
  append_hybrid_lem :
      (task : Text) (v : EventEnvelope D F) (taken es : List (EventEnvelope D F))
      → validate (record { task_id = task; events = taken ++ hybrid_events v es }) ≡ ok tt
      → append_hybrid v es (record { task_id = task; events = taken })
        ≡ ok (record { task_id = task; events = taken ++ hybrid_events v es })
  unfolding append_hybrid validate
  append_hybrid_lem task v taken [] h =
      ap (λ es. ok (record { task_id = task; events = es })) (sym (append-nil taken))
  append_hybrid_lem task v taken (e ∷ es) h =
      let event = hybrid_event v e in
      let log : TaskEventLog D F = record { task_id = task; events = taken } in
      let rest = hybrid_events v es in
      let whole : validate_events task false 0 ((taken ++ event ∷ []) ++ rest) ≡ ok tt =
        ap (validate_events task false 0) (append_assoc taken (event ∷ []) rest) ∙ h in
      let before = validate_events-prefix task false 0 taken (event ∷ rest) h in
      let behind = validate_events-prefix task false 0 (taken ++ event ∷ []) rest whole in
      let step : append log event ≡ ok (with_event log event) =
        append-validate log event before ∙ ap (λ r. r >> ok (with_event log event)) behind in
      rw step (
        append_hybrid_lem task v (taken ++ event ∷ []) es whole
        ∙ ap (λ us. ok (record { task_id = task; events = us }))
            (append_assoc taken (event ∷ []) rest))

  hybrid_event-fields :
      (task : Text) (v e : EventEnvelope D F)
      → v.task_id ≡ task
      → is_terminal v.event_type ≡ false
      → (not (is_object_found e.event_type) || e.sequence == v.sequence) ≡ true
      → e.task_id ≡ task
      → ((hybrid_event v e).task_id ≡ task)
        × ((hybrid_event v e).sequence ≡ e.sequence)
        × (is_terminal (hybrid_event v e).event_type ≡ is_terminal e.event_type)
  unfolding hybrid_event
  hybrid_event-fields task v e same going at own = ground (arith, found-running e.event_type)

  validate_events-parts :
      (task : Text) (seen : Bool) (last : ℕ) (e : EventEnvelope D F) (es : List (EventEnvelope D F))
      → validate_events task seen last (e ∷ es) ≡ ok tt
      → (text_eq e.task_id task ≡ true)
        × (leb e.sequence last ≡ false)
        × (seen ≡ false)
        × (validate_events task (seen || is_terminal e.event_type) e.sequence es ≡ ok tt)
  unfolding validate_events
  validate_events-parts task seen last e es h = ground arith

  -- A detection that has the number of the event that it replaces leaves a valid log valid.
  validate_events-hybrid :
      (task : Text) (v : EventEnvelope D F) (n : ℕ) (seen : Bool) (last : ℕ)
      (es : List (EventEnvelope D F))
      → v.task_id ≡ task
      → is_terminal v.event_type ≡ false
      → sequences es ≡ numbers n (types es)
      → found_only_at v.sequence n (types es) ≡ true
      → validate_events task seen last es ≡ ok tt
      → validate_events task seen last (hybrid_events v es) ≡ ok tt
  unfolding validate_events
  validate_events-hybrid task v n seen last [] same going numbered only h = refl
  validate_events-hybrid task v n seen last (e ∷ es) same going numbered only h =
      let (at, counted) = cons-parts numbered in
      let (here, others) = found_only_at-parts v.sequence n e.event_type (types es) only in
      let (own, later, unseen, rest) = validate_events-parts task seen last e es h in
      let (t, s, r) =
        hybrid_event-fields task v e same going
          (ap (λ m. not (is_object_found e.event_type) || m == v.sequence) at ∙ here)
          ((text_eq_iff e.task_id task).0 own) in
      rw (t, s, r, text_eq_refl task)
        (rw (later, unseen)
          (ap
              (λ b.
                validate_events task (b || is_terminal e.event_type) e.sequence
                  (hybrid_events v es))
              (sym unseen)
            ∙ validate_events-hybrid task v (n + 1) (seen || is_terminal e.event_type) e.sequence es
                same going counted others rest))

  pub first_found_lem :
      (k n : ℕ) (es : List (EventEnvelope D F))
      → sequences es ≡ numbers n (types es)
      → found_only_at k n (types es) ≡ true
      → has_found (types es) ≡ true
      → (found : EventEnvelope D F) × (first_found es ≡ ok found) × (found.sequence ≡ k)
  unfolding first_found
  first_found_lem k n [] numbered only some_found = cc
  first_found_lem k n (e ∷ es) numbered only some_found =
      let (at, counted) = cons-parts numbered in
      let (here, others) = found_only_at-parts k n e.event_type (types es) only in
      elim (Bool-cases (is_object_found e.event_type)) [
        | inl b ↦ rw b (e, refl, number_of b here)
        | inr b ↦ rw b (
            first_found_lem k (n + 1) es counted others
              (ap (λ c. c || has_found (types es)) (sym b) ∙ some_found))
      ]
    where
      number_of :
          is_object_found e.event_type ≡ true
          → (not (is_object_found e.event_type) || n == k) ≡ true
          → e.sequence ≡ k
      number_of b here = ground (arith, cons-parts numbered)

  -- The hybrid log of events that make a valid log with one object.found in it.
  pub hybrid_log_lem :
      (task : Text) (v : EventEnvelope D F) (es : List (EventEnvelope D F))
      → v.task_id ≡ task
      → is_terminal v.event_type ≡ false
      → sequences es ≡ numbers 1 (types es)
      → found_only_at v.sequence 1 (types es) ≡ true
      → validate (record { task_id = task; events = es }) ≡ ok tt
      → (hybrid_log task v es ≡ ok (record { task_id = task; events = hybrid_events v es }))
        × (validate (record { task_id = task; events = hybrid_events v es }) ≡ ok tt)
  unfolding hybrid_log validate
  hybrid_log_lem task v es same going numbered only h =
      let valid = validate_events-hybrid task v 1 false 0 es same going numbered only h in
      (rw (append_hybrid_lem task v [] es valid) (rw valid refl), valid)
