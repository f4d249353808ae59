-- ===== src/Routes/Settled.antt =====
-- Redirects end, and where.
use pb_launcher.Prelude.{
  ℕ, zero, suc, Bool, true, false, some, ◌≡◌, refl, if◌then◌else◌, ◌⊎◌, inl, inr, arith,
}
use pb_launcher.Routes.{
  Location, page, navigate, index, files, operations, uptime, settings, status, service_detail,
  Page, login_page, register_page, services_page, files_page, operations_page, uptime_page,
  settings_page, status_page, service_detail_page, private_route, public_route, dashboard_route,
  routes, render, public_page, redirect_of,
}

-- The page of a location for a user: its own, or the list of services.
abbrev pub home : Location → Page
home files = files_page
home operations = operations_page
home uptime = uptime_page
home settings = settings_page
home status = status_page
home (service_detail name) = service_detail_page name
home l = services_page

-- What a visitor is let see.
abbrev pub allowed : Bool → Bool → Location → Page
allowed true false l = login_page
allowed false false l = register_page
allowed is_setup_done true l = home l

module _ (s u : Bool) where
  render_page :
      (fuel : ℕ) (l : Location) (p : Page) → routes s u l ≡ page p → render s u fuel l ≡ some p
  unfolding render
  render_page zero l p e = rw (e, render) refl
  render_page (suc fuel) l p e = rw (e, render) refl

  render_navigate :
      (fuel : ℕ) (l to : Location) (p : Page)
      → routes s u l ≡ navigate to
      → routes s u to ≡ page p
      → render s u (suc fuel) l ≡ some p
  unfolding render
  render_navigate fuel l to p e h = rw (e, render) (render_page fuel to p h)

-- Where a visitor is sent from a page that is not for them.
abbrev sent_to : Bool → Bool → Location
sent_to s u = if u then index else redirect_of s

decided :
    (s u : Bool) (l : Location)
    → (routes s u l ≡ page (allowed s u l))
      ⊎ ((routes s u l ≡ navigate (sent_to s u))
          × (routes s u (sent_to s u) ≡ page (allowed s u l)))
unfolding routes public_page private_route public_route dashboard_route
decided s u l = ground arith

-- Every location comes to a page after at most one redirect, whether the setup is done or not: without a
-- session it is the page of the login, or that of the registration before the setup is done, and
-- with one the page of the location, or the services where it has none.
pub render_settles :
    (is_setup_done user : Bool) (fuel : ℕ) (l : Location)
    → render is_setup_done user (suc fuel) l ≡ some (allowed is_setup_done user l)
render_settles s u fuel l = elim (decided s u l) [
  | inl e ↦ render_page s u (suc fuel) l (allowed s u l) e
  | inr (e, h) ↦ render_navigate s u fuel l (sent_to s u) (allowed s u l) e h
]
