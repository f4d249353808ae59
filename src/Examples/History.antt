-- ===== src/Examples/History.antt =====
-- The history of operations at concrete records.
use pb_launcher.Prelude.{Text, codes, List, [], ◌∷◌, none, ◌≡◌, ◌≢◌, refl}
use pb_launcher.Operations.{
  Page, OperationLog, success, error, only, first_page, total_pages, Act, set_status, next,
  filtered_operations, act, acts,
}

abbrev lower : Text → Text
lower t = t

abbrev started : OperationLog
started = record {
  id = codes "1";
  service = codes "s";
  operation = codes "start";
  status = success;
  message = none;
  created = [];
  service_name = none;
}

abbrev operations : List OperationLog
operations = started ∷ record started { status = error } ∷ []

abbrev user : List Act
user = next ∷ set_status (only error) ∷ next ∷ []

shown_run :
    filtered_operations lower (acts lower operations first_page user) operations
    ≡ record started { status = error } ∷ []
unfolding acts act total_pages
shown_run = refl

some_left : filtered_operations lower (acts lower operations first_page user) operations ≢ []
unfolding acts act total_pages
some_left = λ e. cc

abbrev of_s : Page
of_s = record first_page { selected_service_id = codes "s"; search = codes "st" }
