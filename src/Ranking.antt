-- ===== src/Ranking.antt =====
-- ui/src/pages/internal/UptimePage.tsx: the services by the hours that they were active. The hours are
-- whole numbers of some unit, `toLowerCase` is a parameter.
pub mod Ranked
use pb_launcher.Prelude.{
  ℕ, zero, suc, ◌+◌, ◌-◌, ◌*◌, ◌/◌, Text, List, [], ◌∷◌, Bool, ◌||◌, ltb, leb, ◌==◌, includes,
  filter, take, drop, length, if◌then◌else◌,
}

-- The fields of a row of the view that the ranking reads.
pub record UptimeView : Type 0 where
  pub id : Text
  pub service_name : Text
  pub active_hours_24h : ℕ
  pub active_hours_7d : ℕ

pub data RangeDays : Type 0 where
  one_day seven_days : RangeDays

abbrev pub active_hours : RangeDays → UptimeView → ℕ
active_hours one_day v = v.active_hours_24h
active_hours seven_days v = v.active_hours_7d

-- `sort` with the difference of `b` and `a` is stable: rows that have as much keep their order.
unfoldable pub insert_row : RangeDays → UptimeView → List UptimeView → List UptimeView
insert_row r v [] = v ∷ []
insert_row r v (w ∷ ws) =
    let rest = insert_row r v ws in
    if ltb (active_hours r v) (active_hours r w) then w ∷ rest else v ∷ w ∷ ws

unfoldable pub sort_rows : RangeDays → List UptimeView → List UptimeView
sort_rows r [] = []
sort_rows r (v ∷ vs) = insert_row r v (sort_rows r vs)

pub record Page : Type 0 where
  pub search : Text
  pub range_days : RangeDays
  pub page : ℕ

abbrev pub first_page : Page
first_page = record { search = []; range_days = seven_days; page = 0 }

abbrev pub page_size : ℕ
page_size = 10

pub data Act : Type 0 where
  set_search : Text → Act
  set_range : RangeDays → Act
  previous next : Act

module _ (lower : Text → Text) where
  abbrev pub is_listed : Text → UptimeView → Bool
  is_listed search v =
      includes (lower v.service_name) (lower search) || includes (lower v.id) (lower search)

  unfoldable pub processed_data : Page → List UptimeView → List UptimeView
  processed_data p vs = sort_rows p.range_days (filter (is_listed p.search) vs)

  unfoldable pub total_pages : Page → List UptimeView → ℕ
  total_pages p vs = (length (processed_data p vs) + 9) / page_size

  unfoldable pub paginated : Page → List UptimeView → List UptimeView
  paginated p vs = take page_size (drop (p.page * page_size) (processed_data p vs))

  -- A search goes back to the first page, a change of the range stays where it is.
  unfoldable pub act : List UptimeView → Page → Act → Page
  act vs p (set_search t) = record p { search = t; page = 0 }
  act vs p (set_range r) = record p { range_days = r }
  act vs p previous = if p.page == 0 then p else record p { page = p.page - 1 }
  act vs p next = if leb (total_pages p vs - 1) p.page then p else record p { page = p.page + 1 }

  unfoldable pub acts : List UptimeView → Page → List Act → Page
  acts vs p [] = p
  acts vs p (a ∷ more) = acts vs (act vs p a) more
