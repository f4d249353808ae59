-- ===== src/Examples/Ranks.antt =====
-- The ranking of services at concrete rows.
use pb_launcher.Prelude.{ℕ, Text, codes, List, [], ◌∷◌, ◌≡◌, refl}
use pb_launcher.Ranking.{
  UptimeView, one_day, Act, set_range, set_search, next, first_page, processed_data, acts, act,
  sort_rows, insert_row, total_pages,
}

abbrev lower : Text → Text
lower t = t

abbrev row : ℕ → ℕ → UptimeView
row day week = record {
  id = codes "s";
  service_name = codes "web";
  active_hours_24h = day;
  active_hours_7d = week;
}

abbrev rows : List UptimeView
rows = row 1 9 ∷ row 5 7 ∷ []

abbrev user : List Act
user = set_search (codes "we") ∷ next ∷ set_range one_day ∷ []

ranked_run : processed_data lower (acts lower rows first_page user) rows ≡ row 5 7 ∷ row 1 9 ∷ []
unfolding processed_data acts act sort_rows insert_row total_pages
ranked_run = refl
