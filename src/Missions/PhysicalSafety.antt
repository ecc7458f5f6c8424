-- ===== src/Missions/PhysicalSafety.antt =====
-- robot/physical_demo.py: what a completed run says of the operator.
use valera_control_tower.Base.{
  ◌≡◌, refl, sym, ap, ◌∙◌, Bool, true, ◌&&◌, arith, Option, List, [], ◌∷◌, ◌++◌, map, Text, ok, ℤ,
}
use valera_control_tower.Tasks.Events.{
  Datetimes, EventType, task_created, task_completed, object_found,
}
use valera_control_tower.Missions.Open.{types}
use valera_control_tower.Missions.Physical.{
  OperatorConfirmation, operator_confirmations, opening_event_types, Provider, Log, ProbeRunner,
  run_physical_demo, physical_demo_success_event_sequence,
}
use valera_control_tower.Missions.PhysicalTrace.{
  confirmed_types, ending_types, run_physical_demo-ok,
}

-- Whether every confirmation is given, in the order of the steps.
unfoldable pub all_confirmed : {S : Type 0} → Provider S → List OperatorConfirmation → S → Bool
all_confirmed provider [] s = true
all_confirmed provider (c ∷ cs) s =
    let (s', answer) = provider s c.step_name c.prompt in
    let rest = all_confirmed provider cs s' in answer && rest

abbrev pub last_type : EventType → List EventType → EventType
last_type t [] = t
last_type t (u ∷ us) = last_type u us

last_type-append :
    (t u : EventType) (ts us : List EventType) → last_type t (ts ++ u ∷ us) ≡ last_type u us
last_type-append t u [] us = refl
last_type-append t u (v ∷ ts) us = last_type-append v u ts us

confirmed_types-completed :
    {S : Type 0} (provider : Provider S) (cs : List OperatorConfirmation) (s : S) (t : EventType)
    → last_type t (confirmed_types provider cs s) ≡ task_completed
    → (confirmed_types provider cs s ≡ map (λ c. c.event_type) cs ++ task_completed ∷ [])
      × (all_confirmed provider cs s ≡ true)
unfolding confirmed_types all_confirmed
confirmed_types-completed provider [] s t h = (refl, refl)
confirmed_types-completed provider (c ∷ cs) s t h =
    ground (
      arith,
      confirmed_types-completed provider cs (provider s c.step_name c.prompt).0 c.event_type,
    )

ending_types-completed :
    {S : Type 0} (provider : Provider S) (s : S) (t : EventType)
    → last_type t (ending_types provider s t) ≡ task_completed
    → (t ∷ ending_types provider s t
        ≡ object_found ∷ map (λ c. c.event_type) operator_confirmations ++ task_completed ∷ [])
      × (all_confirmed provider operator_confirmations s ≡ true)
unfolding ending_types
ending_types-completed provider s object_found h =
    let (exact, all) = confirmed_types-completed provider operator_confirmations s object_found h in
    (ap (λ u. object_found ∷ u) exact, all)
ending_types-completed provider s _ h = cc

module _ (F : Type 0) (dt : Datetimes) where
  open dt use {Datetime}

  -- A run that returns a log whose last event is task.completed shows exactly the success
  -- sequence, and the operator confirmed every step.
  pub run_physical_demo-confirmed :
      {S : Type 0} (task_id object_id : Text) (camera_index : ℤ) (enabled : Bool) (root : Text)
      (provider : Provider S) (s : S) (correlation_id : Option Text) (started : Option Datetime)
      (now : Datetime) (probe : ProbeRunner F dt) (log : Log F dt)
      → run_physical_demo F dt task_id object_id camera_index enabled root provider s correlation_id
          started now probe
        ≡ ok log
      → last_type task_created (types log.events) ≡ task_completed
      → (types log.events ≡ physical_demo_success_event_sequence)
        × (all_confirmed provider operator_confirmations s ≡ true)
  run_physical_demo-confirmed task_id object_id camera_index enabled root provider s correlation_id
        started now probe log h last =
      let (_, _, (detection, _, _, _, _, _, shown)) =
        run_physical_demo-ok F dt task_id object_id camera_index enabled root provider s
          correlation_id started now probe log h in
      let (exact, all) =
        ending_types-completed provider s detection.event_type
          (sym (ap (last_type task_created) shown) ∙ last) in
      (shown ∙ ap (λ u. opening_event_types ++ u) exact, all)
