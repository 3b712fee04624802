-- ===== src/Client/Valid.antt =====
-- The reports of the client against the checks of the handler that takes them.
use kuberhealthy.Prelude.{◌≡◌, refl, not, any, List, [], ◌∷◌, Text, is_empty}
use kuberhealthy.Report.{new_report}
use kuberhealthy.Report.Handler.{is_valid}

-- The handler takes a report of the client exactly if none of its error messages is blank, and then
-- it counts it as OK exactly if there is no message: ReportFailure without messages reports success.
pub new_report-is_valid :
    (error_messages : List Text)
    → (is_valid (new_report error_messages) ≡ not (any is_empty error_messages))
      × ((new_report error_messages).ok ≡ is_empty error_messages)
unfolding new_report is_valid
new_report-is_valid [] = (refl, refl)
new_report-is_valid (e ∷ error_messages) = (refl, refl)
