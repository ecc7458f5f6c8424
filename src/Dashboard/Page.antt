-- ===== src/Dashboard/Page.antt =====
-- dashboard/render.py: the page, and the two functions that write it. `json_dumps` is `json.dumps`
-- with sorted keys and an indent of two; the text that is written is a result.
use valera_control_tower.Base.{
  suc, List, [], ◌∷◌, ◌++◌, Text, text, Result, ok, raised, value_error, ◌>>=◌, join_texts,
}
use valera_control_tower.Base.Float.{FloatOps}
use valera_control_tower.Wire.{Json, null, string, array, object, nil, Fields, end}
use valera_control_tower.Tasks.Evidence.{PurePosixPaths}
use valera_control_tower.Missions.{digits}
use valera_control_tower.OutputCheck.{event_objects}
use valera_control_tower.Dashboard.{DashboardSummary, summarize_events}
use valera_control_tower.Dashboard.Evidence.{LocalPaths, shown, get_or, html, evidence_section}
use valera_control_tower.Dashboard.Template.{
  page_opening, page_style, summary_opening, correlation_label, count_label, timeline_opening,
  details_opening, page_closing,
}

module _ {F : Type 0} where
  -- `_payload_status`
  unfoldable pub payload_status : (Json F → Text) → Fields F → Text
  unfolding shown get_or
  payload_status str event = elim (get_or (object end) (text "payload") event) [
    | object payload ↦ shown str (get_or (string []) (text "status") payload)
    | _ ↦ []
  ]

module _ (pl : PurePosixPaths) (lp : LocalPaths) (fl : FloatOps) (str : Json fl.F → Text)
    (json_dumps : Json fl.F → Text) (output_path : lp.LocalPath) (escape : Text → Text) where
  open fl use {F}

  -- `_html(d.get(key, ""))`
  unfoldable pub cell : Text → Fields F → Text
  unfolding html get_or
  cell key event = html pl lp fl str output_path escape (get_or (string []) key event)

  -- `_timeline_rows`, one row for each event.
  unfoldable pub timeline_row : Fields F → Text
  unfolding cell payload_status
  timeline_row event =
      text "        <tr>"
      ++ (text "<td>" ++ cell (text "sequence") event ++ text "</td>")
      ++ (text "<td>" ++ cell (text "occurred_at") event ++ text "</td>")
      ++ (text "<td>" ++ cell (text "event_type") event ++ text "</td>")
      ++ (text "<td>" ++ cell (text "source") event ++ text "</td>")
      ++ (text "<td>" ++ cell (text "mode") event ++ text "</td>")
      ++ (text "<td>" ++ escape (payload_status str event) ++ text "</td>")
      ++ text "</tr>"

  unfoldable pub timeline_rows : List (Fields F) → List Text
  unfolding timeline_row
  timeline_rows [] = []
  timeline_rows (event ∷ events) = timeline_row event ∷ timeline_rows events

  -- `_error_section`
  unfoldable pub error_section : Json F → Text
  unfolding cell
  error_section (object error) =
      text "      <h4>Error details</h4>\n      <p>error.code: "
      ++ cell (text "code") error
      ++ text "</p>\n      <p>error.message: "
      ++ cell (text "message") error
      ++ text "</p>"
  error_section x = []

  -- `_detail_section`
  unfoldable pub detail_section : Fields F → Text
  unfolding cell get_or evidence_section error_section
  detail_section event =
      text "    <article>\n      <h3>"
      ++ cell (text "sequence") event
      ++ text ". "
      ++ cell (text "event_type") event
      ++ text "</h3>\n      <h4>Payload summary</h4>\n      <pre>"
      ++ escape (json_dumps (get_or (object end) (text "payload") event))
      ++ text "</pre>\n"
      ++ evidence_section pl lp fl str output_path escape
          (get_or (array nil) (text "evidence_refs") event)
      ++ text "\n"
      ++ error_section (get_or null (text "error") event)
      ++ text "\n    </article>"

  unfoldable pub detail_sections : List (Fields F) → List Text
  unfolding detail_section
  detail_sections [] = []
  detail_sections (event ∷ events) = detail_section event ∷ detail_sections events

  -- `_render_html`
  unfoldable pub render_html : List (Fields F) → DashboardSummary → Text
  render_html events summary =
      page_opening
      ++ escape summary.task_id
      ++ page_style
      ++ escape summary.task_id
      ++ summary_opening
      ++ escape summary.final_status
      ++ correlation_label
      ++ escape summary.correlation_id
      ++ count_label
      ++ digits (suc summary.event_count) summary.event_count []
      ++ timeline_opening
      ++ join_texts (text "\n") (timeline_rows events)
      ++ details_opening
      ++ join_texts (text "\n") (detail_sections events)
      ++ page_closing

  -- `render_dashboard`: the text that it writes to the output path, and the summary.
  unfoldable pub render_dashboard : List (Fields F) → Text × DashboardSummary
  unfolding render_html summarize_events
  render_dashboard events =
      let summary = summarize_events str events in (render_html events summary, summary)

  -- `render_dashboard_from_replay` with `json.loads` of the replay's text.
  unfoldable pub render_dashboard_from_replay : Result (Json F) → Result (Text × DashboardSummary)
  unfolding render_dashboard event_objects
  render_dashboard_from_replay (raised e) = raised e
  render_dashboard_from_replay (ok (array items)) =
      event_objects items >>= λ events. ok (render_dashboard events)
  render_dashboard_from_replay (ok x) = raised value_error
