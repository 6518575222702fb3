-- ===== src/Assertion/Tests.antt =====
-- A table of two tests.
use kaiu.Base.{◌≡◌, refl, ◌+◌, false, none, some, List, [], ◌∷◌}
use mathlib.Core.Option
use kaiu.Assertion.State.{Entries, Call, sets, tries, passed, failed, skipped, unknown, run}
use kaiu.Assertion.Report.{
  Line, newline, heading, mark, note_of, passed_count, failed_count, print_report, print_lines,
  summary, put_pieces, put_buffer, increment, result_at, note_at,
}
use kaiu.Assertion.Printed.{number}
use kaiu.Assertion.Summary.{Shown, print_report-lem}
use kaiu.Assertion.Results.{result_of, verdict, run-verdict}

abbrev table : Entries
table =
    record { code = 1; result = unknown; note = [] }
    ∷ record { code = 2; result = unknown; note = [] }
    ∷ []

abbrev calls : List Call
calls = sets 2 failed [] ∷ tries 2 [] ∷ sets 1 passed [] ∷ sets 1 failed [] ∷ []

run-verdict_example :
    result_of 1 (run calls table) ≡ Option.map (λ r. verdict 1 r calls) (result_of 1 table)
run-verdict_example = run-verdict 1 calls table

-- A heading and two tests, one of which was skipped.
abbrev lines : List Line
lines =
    record { code = none; title = 72 ∷ [] }
    ∷ record { code = some 1; title = 65 ∷ [] }
    ∷ record { code = some 2; title = 66 ∷ [] }
    ∷ []

abbrev half : Entries
half =
    record { code = 1; result = passed; note = [] }
    ∷ record { code = 2; result = skipped; note = 33 ∷ [] }
    ∷ []

print_report-lem_example :
    Shown false 7 lines half ((print_report false 7 lines half).shown)
    × ((print_report false 7 lines half).returned
        ≡ number failed lines half + number unknown lines half)
print_report-lem_example = print_report-lem false 7 lines half

-- Neither the number of skipped tests nor the time is shown.
skipped_lost :
    (print_report false 7 lines half).shown
    ≡ newline
      ∷ heading (72 ∷ [])
      ∷ newline
      ∷ mark passed (65 ∷ [])
      ∷ newline
      ∷ mark skipped (66 ∷ [])
      ∷ note_of (33 ∷ [])
      ∷ newline
      ∷ newline
      ∷ passed_count 1
      ∷ newline
      ∷ failed_count 0
      ∷ newline
      ∷ []
unfolding print_report print_lines summary put_pieces put_buffer increment result_at note_at
skipped_lost = refl
