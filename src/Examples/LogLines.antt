-- ===== src/Examples/LogLines.antt =====
-- The log view at concrete lines.
use pb_launcher.Prelude.{ℕ, codes, List, [], ◌∷◌, none, some, map, split, ◌≡◌, refl}
use pb_launcher.Logs.{
  ServiceLog, stdout, stderr, only, Event, loaded, polled, poll_failed, chosen, mounted,
  merge_logs_unique, next, run,
}
use pb_launcher.Logs.Export.{export_text, read_line, line_break, export_text_read}
use pb_launcher.Logs.Merge.{IsUnique}
use pb_launcher.Logs.Polling.{run-IsUnique}

abbrev line : ℕ → ServiceLog
line n = record { id = n; service_id = codes "s"; stream = stdout; message = []; timestamp = [] }

abbrev events : List Event
events =
    loaded (line 1 ∷ line 2 ∷ [])
    ∷ polled none (line 2 ∷ line 3 ∷ [])
    ∷ poll_failed
    ∷ chosen (only stderr)
    ∷ polled none (line 3 ∷ line 4 ∷ [])
    ∷ []

lines_run : map (λ (l : ServiceLog). l.id) (run mounted events).logs ≡ 1 ∷ 2 ∷ 3 ∷ 4 ∷ []
unfolding run next merge_logs_unique
lines_run = refl

run-IsUnique_example : IsUnique (run mounted events).logs
run-IsUnique_example =
    run-IsUnique events
      ((refl, (refl, tt)), ((refl, (refl, tt)), (tt, (tt, ((refl, (refl, tt)), tt)))))

export_text_read_example :
    map read_line (split (export_text (line 1 ∷ line 2 ∷ [])) line_break)
    ≡ map (λ (m : ServiceLog). some (m.stream, m.message)) (line 1 ∷ line 2 ∷ [])
export_text_read_example = export_text_read (line 1) (line 2 ∷ []) (tt, (tt, tt))
