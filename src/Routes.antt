-- ===== src/Routes.antt =====
-- ui/src/routes/AppRoutes.tsx with the session of ui/src/hooks/useSession.ts: which page a location
-- shows. Which pattern of the table a location matches is up to the router: `Location` names the
-- patterns, `elsewhere` stands for a location that matches none of them by name.
pub mod Settled
use pb_launcher.Prelude.{
  ℕ, zero, suc, Text, Bool, true, false, not, Option, none, some, if◌then◌else◌,
}
use pb_launcher.Http.{Outcome, done, thrown, Thrown, ◌>>=◌, ◌>>◌}

pub data Location : Type 0 where
  login register index files operations uptime settings status elsewhere : Location
  service_detail : Text → Location

pub data Page : Type 0 where
  login_page register_page services_page files_page operations_page uptime_page : Page
  settings_page status_page : Page
  service_detail_page : Text → Page

-- What a route renders: a page, or a `Navigate` with `replace`.
pub data Element : Type 0 where
  page : Page → Element
  navigate : Location → Element

unfoldable pub private_route : Bool → Location → Element → Element
private_route user redirect_to children = if user then children else navigate redirect_to

unfoldable pub public_route : Bool → Element → Element
public_route user children = if not user then children else navigate index

-- The routes below `/`, in the layout of the dashboard.
unfoldable pub dashboard_route : Location → Element
dashboard_route index = page services_page
dashboard_route files = page files_page
dashboard_route operations = page operations_page
dashboard_route uptime = page uptime_page
dashboard_route settings = page settings_page
dashboard_route status = page status_page
dashboard_route (service_detail name) = page (service_detail_page name)
dashboard_route login = navigate index
dashboard_route register = navigate index
dashboard_route elsewhere = navigate index

abbrev pub redirect_of : Bool → Location
redirect_of is_setup_done = if is_setup_done then login else register

-- The page of the one public route that the table has.
unfoldable pub public_page : Bool → Location → Option Page
public_page true login = some login_page
public_page false register = some register_page
public_page is_setup_done l = none

unfoldable pub routes : Bool → Bool → Location → Element
routes is_setup_done user l = elim (public_page is_setup_done l) [
  | some p ↦ public_route user (page p)
  | none ↦ private_route user (redirect_of is_setup_done) (dashboard_route l)
]

-- The rendering that follows redirects, `fuel` of them at most.
unfoldable pub render : Bool → Bool → ℕ → Location → Option Page
render is_setup_done user zero l = elim (routes is_setup_done user l) [
  | page p ↦ some p
  | navigate to ↦ none
]
render is_setup_done user (suc fuel) l = elim (routes is_setup_done user l) [
  | page p ↦ some p
  | navigate to ↦ render is_setup_done user fuel to
]

-- `queryFn` of `adminExistsQuery`: the user is logged out where there was no setup.
unfoldable pub admin_exists : Outcome Bool → Outcome (Unit {0}) → Outcome Bool
admin_exists is_initial_setup_done logout = do
  setup_done ← is_initial_setup_done
  if setup_done then done true else logout >> done false

-- `AppRoutes`, once its query is settled: the view of an error, or the page of the location.
pub data App : Type 0 where
  error_view : Thrown → App
  shows : Option Page → App

unfoldable pub app_routes : Outcome Bool → Bool → ℕ → Location → App
app_routes (thrown e) user fuel l = error_view e
app_routes (done is_setup_done) user fuel l = shows (render is_setup_done user fuel l)
