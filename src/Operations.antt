-- ===== src/Operations.antt =====
-- The history of operations: ui/src/pages/internal/OperationsPage.tsx, with the filters that
-- ui/src/services/services.ts sends (`fetchOperationLogs`, `fetchAllOperationLogs`).
-- `toLowerCase` goes by the tables of Unicode and is a parameter, `lower`; the text of the date of
-- seven days ago is one too.
pub mod Pages
pub mod Section
use pb_launcher.Prelude.{
  ℕ, zero, suc, ◌+◌, ◌-◌, ◌*◌, ◌/◌, Text, codes, List, [], ◌∷◌, ◌++◌, Bool, true, false, ◌&&◌, ◌||◌,
  Option, none, some, leb, ltb, ◌==◌, text_eq, includes, filter, take, drop, length, if◌then◌else◌,
}
use pb_launcher.Url.{is_truthy}
use pb_launcher.Collections.{or_default, service_filter}
use pb_launcher.Collections.Records.{ListOptions, quoted}

pub data OperationStatus : Type 0 where
  success error : OperationStatus

pub record OperationLog : Type 0 where
  pub id : Text
  pub service : Text
  pub operation : Text
  pub status : OperationStatus
  pub message : Option Text
  pub created : Text
  pub service_name : Option Text

abbrev pub since : Text → Text
since date = codes "created>=" ++ quoted date

-- `if (sinceDate) filter += …`
abbrev pub and_since : Option Text → Text
and_since none = []
and_since (some []) = []
and_since (some (c ∷ s)) = codes "&&" ++ since (c ∷ s)

abbrev pub log_fields : Text
log_fields = codes "id,service,operation,status,message,metadata,created"

unfoldable pub operation_log_options : Text → Text → Option Text → ListOptions
operation_log_options seven_days_ago service_id since_date = record {
  filter =
      some (
        service_filter service_id
        ++ (codes "&&" ++ (since seven_days_ago ++ and_since since_date)));
  expand = none;
  fields = some log_fields;
  sort = some (codes "-created");
}

-- `filter ? `(${filter})&&${baseFilter}` : baseFilter`
abbrev pub combined : Text → Option Text → Text
combined base none = base
combined base (some []) = base
combined base (some (c ∷ s)) = codes "(" ++ (c ∷ (s ++ (codes ")&&" ++ base)))

unfoldable pub all_operation_log_options : Text → Option Text → ListOptions
all_operation_log_options seven_days_ago f = record {
  filter = some (combined (since seven_days_ago) f);
  expand = some (codes "service");
  fields = some (log_fields ++ codes ",expand.service.id,expand.service.name");
  sort = some (codes "-created");
}

pub data StatusFilter : Type 0 where
  all_statuses : StatusFilter
  only : OperationStatus → StatusFilter

abbrev pub same_status : OperationStatus → OperationStatus → Bool
same_status success success = true
same_status success error = false
same_status error success = false
same_status error error = true

abbrev pub matches_status : StatusFilter → OperationStatus → Bool
matches_status all_statuses s = true
matches_status (only t) s = same_status s t

-- What the user has chosen: the service `all` stands for every service.
pub record Page : Type 0 where
  pub selected_service_id : Text
  pub search : Text
  pub status_filter : StatusFilter
  pub page : ℕ

abbrev pub first_page : Page
first_page = record {
  selected_service_id = codes "all";
  search = [];
  status_filter = all_statuses;
  page = 0;
}

abbrev pub page_size : ℕ
page_size = 25

-- `Math.ceil(length / PAGE_SIZE)`
unfoldable pub total_pages : {A : Type 0} → List A → ℕ
total_pages xs = (length xs + 24) / page_size

-- `slice(page * PAGE_SIZE, (page + 1) * PAGE_SIZE)`
unfoldable pub paginated : {A : Type 0} → ℕ → List A → List A
paginated page xs = take page_size (drop (page * page_size) xs)

-- A click or a key of the user.
pub data Act : Type 0 where
  set_search : Text → Act
  set_service : Text → Act
  set_status : StatusFilter → Act
  previous next : Act

module _ (lower : Text → Text) where
  abbrev pub matches_search : Text → OperationLog → Bool
  matches_search search op =
      text_eq search []
      || (includes (lower op.operation) (lower search)
          || (includes (lower (or_default op.message [])) (lower search)
              || includes (lower (or_default op.service_name [])) (lower search)))

  abbrev pub is_listed : Page → OperationLog → Bool
  is_listed p op =
      (text_eq p.selected_service_id (codes "all") || text_eq op.service p.selected_service_id)
      && (matches_search p.search op && matches_status p.status_filter op.status)

  abbrev pub filtered_operations : Page → List OperationLog → List OperationLog
  filtered_operations p ops = filter (is_listed p) ops

  -- The buttons of the pager, which are there from two pages on, are disabled at either end.
  abbrev pub turn_back : Page → Page
  turn_back p = if p.page == 0 then p else record p { page = p.page - 1 }

  abbrev pub turn_on : List OperationLog → Page → Page
  turn_on ops p =
      if leb (total_pages (filtered_operations p ops) - 1) p.page
      then p
      else record p { page = p.page + 1 }

  unfoldable pub act : List OperationLog → Page → Act → Page
  act ops p (set_search t) = record p { search = t; page = 0 }
  act ops p (set_service id) = record p { selected_service_id = id; page = 0 }
  act ops p (set_status s) = record p { status_filter = s; page = 0 }
  act ops p previous = turn_back p
  act ops p next = turn_on ops p

  unfoldable pub acts : List OperationLog → Page → List Act → Page
  acts ops p [] = p
  acts ops p (a ∷ more) = acts ops (act ops p a) more
