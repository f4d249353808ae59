-- ===== src/Examples/Sessions.antt =====
-- The session at a concrete login and logout.
use pb_launcher.Prelude.{codes, List, [], ◌∷◌, true, false, none, some, ◌⊎◌, ◌≡◌, ◌≤◌, refl}
use pb_launcher.Session.{AuthStore, Event, changed, fired, run_again, run, next, run_effect, opened}
use pb_launcher.Session.Current.{run_current}

abbrev signed_out : AuthStore
signed_out = record { is_valid = false; user_record = none }

abbrev signed_in : AuthStore
signed_in = record { is_valid = true; user_record = some (codes "u1") }

abbrev events : List Event
events = run_again ∷ changed signed_in ∷ fired ∷ changed signed_out ∷ fired ∷ []

run_current_example :
    (((run (opened signed_out) events).user
        ≡ (run (opened signed_out) events).auth_store.user_record)
      ⊎ (((run (opened signed_out) events).user ≡ none)
          × (((run (opened signed_out) events).auth_store ≡ signed_out)
              × (signed_out.is_valid ≡ false))))
    × ((run (opened signed_out) events).refreshes ≤ 1)
unfolding run next run_effect
run_current_example = run_current signed_out events refl
