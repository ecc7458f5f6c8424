-- ===== src/Dashboard/Template.antt =====
-- dashboard/render.py: the fixed parts of the page that `_render_html` fills in.
use valera_control_tower.Base.{Text, text, ◌++◌}

unfoldable pub page_opening : Text
page_opening =
    text "<!doctype html>\n<html lang=\"en\">\n<head>\n  <meta charset=\"utf-8\">\n"
    ++ text "  <title>Valera Mission Dashboard - "

unfoldable pub page_style : Text
page_style =
    text "</title>\n  <style>\n    body {\n      color: #172026;\n"
    ++ text "      font-family: Arial, sans-serif;\n      line-height: 1.45;\n"
    ++ text "      margin: 2rem;\n    }\n    header, section {\n"
    ++ text "      margin-bottom: 2rem;\n    }\n    table {\n"
    ++ text "      border-collapse: collapse;\n      width: 100%;\n    }\n    th, td {\n"
    ++ text "      border: 1px solid #c8d0d6;\n      padding: 0.5rem;\n"
    ++ text "      text-align: left;\n      vertical-align: top;\n    }\n    th {\n"
    ++ text "      background: #edf2f4;\n    }\n    pre {\n      background: #f6f8fa;\n"
    ++ text "      border: 1px solid #d8dee4;\n      overflow-x: auto;\n"
    ++ text "      padding: 0.75rem;\n      white-space: pre-wrap;\n    }\n    article {\n"
    ++ text "      border-top: 1px solid #d8dee4;\n      padding: 1rem 0;\n    }\n"
    ++ text "    article:first-of-type {\n      border-top: 0;\n    }\n"
    ++ text "    .evidence-list {\n      display: grid;\n      gap: 0.75rem;\n"
    ++ text "      list-style: none;\n      padding-left: 0;\n    }\n"
    ++ text "    .evidence-list li {\n      border: 1px solid #d8dee4;\n"
    ++ text "      padding: 0.75rem;\n    }\n    .evidence-link {\n"
    ++ text "      margin-top: 0.5rem;\n    }\n    .evidence-preview {\n"
    ++ text "      border: 1px solid #c8d0d6;\n      display: block;\n      height: auto;\n"
    ++ text "      margin-top: 0.5rem;\n      max-width: min(420px, 100%);\n    }\n"
    ++ text "    .summary {\n      display: grid;\n      gap: 0.75rem;\n"
    ++ text "      grid-template-columns: repeat(auto-fit, minmax(180px, 1fr));\n    }\n"
    ++ text "    .summary div {\n      border: 1px solid #c8d0d6;\n"
    ++ text "      padding: 0.75rem;\n    }\n    .label {\n      color: #52616b;\n"
    ++ text "      display: block;\n      font-size: 0.85rem;\n    }\n  </style>\n</head>\n"
    ++ text "<body>\n  <header>\n    <h1>Valera Mission Dashboard</h1>\n    <h2>Task "

unfoldable pub summary_opening : Text
summary_opening =
    text "</h2>\n    <div class=\"summary\">\n"
    ++ text "      <div><span class=\"label\">Final status</span>"

unfoldable pub correlation_label : Text
correlation_label = text "</div>\n      <div><span class=\"label\">Correlation id</span>"

unfoldable pub count_label : Text
count_label = text "</div>\n      <div><span class=\"label\">Event count</span>"

unfoldable pub timeline_opening : Text
timeline_opening =
    text "</div>\n    </div>\n  </header>\n  <section>\n    <h2>Event Timeline</h2>\n"
    ++ text "    <table>\n      <thead>\n        <tr>\n          <th>Sequence</th>\n"
    ++ text "          <th>Occurred at</th>\n          <th>Event type</th>\n"
    ++ text "          <th>Source</th>\n          <th>Mode</th>\n"
    ++ text "          <th>Payload status</th>\n        </tr>\n      </thead>\n"
    ++ text "      <tbody>\n"

unfoldable pub details_opening : Text
details_opening =
    text "\n      </tbody>\n    </table>\n  </section>\n  <section>\n"
    ++ text "    <h2>Event Details</h2>\n"

unfoldable pub page_closing : Text
page_closing = text "\n  </section>\n</body>\n</html>\n"
