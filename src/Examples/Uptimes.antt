-- ===== src/Examples/Uptimes.antt =====
-- The uptime of a service at concrete logs.
use pb_launcher.Prelude.{ℕ, ◌*◌, ◌-◌, ◌≤◌, Text, codes, List, [], ◌∷◌, ◌≡◌, refl, none, some, arith}
use pb_launcher.Prelude.Int.{ℤ, pos, ◌+ℤ◌, ◌-ℤ◌, ◌*ℤ◌}
use pb_launcher.Uptime.{
  OperationLog, window, successful_logs, insert_log, sort_logs, initial_state, sweep, sweep_step,
  close_sweep, total_active_ms, percent_of, stat_of, calculate_for_days, calculate_uptime_for_logs,
}
use pb_launcher.Uptime.Bounds.{
  active_count, IsProper, calculate_for_days-count, calculate_uptime-IsProper,
}

abbrev log_at : ℕ → Text → OperationLog
log_at t operation = record {
  id = [];
  created = pos t;
  operation = operation;
  status = codes "success";
  service = codes "s";
}

-- A service that was created at 100 and is looked at at 110.
abbrev history : List OperationLog
history = log_at 107 (codes "sleep") ∷ log_at 102 (codes "start") ∷ []

active_run :
    (calculate_for_days (successful_logs history none) (pos 110) (some (pos 100)) 1).active_ms
    ≡ pos 5
unfolding calculate_for_days successful_logs window total_active_ms initial_state sweep sweep_step
    close_sweep stat_of percent_of sort_logs insert_log ◌+ℤ◌ ◌-ℤ◌ ◌*ℤ◌
active_run = refl

abbrev recent : ℤ
recent = (window (pos 110) (some (pos 100)) 1).start

ten_ms : (window (pos 110) (some (pos 100)) 1).ms ≡ pos 10
unfolding window ◌-ℤ◌
ten_ms = refl

calculate_for_days-count_example :
    (calculate_for_days (successful_logs history none) (pos 110) (some (pos 100)) 1 ≡ record {
      percent = record {
        num = pos (active_count (successful_logs history none) recent 10 * 100);
        den = pos 10;
      };
      active_ms = pos (active_count (successful_logs history none) recent 10);
      inactive_ms = pos (10 - active_count (successful_logs history none) recent 10);
    })
    × (active_count (successful_logs history none) recent 10 ≤ 10)
calculate_for_days-count_example =
    calculate_for_days-count history none (pos 110) (some (pos 100)) 1 9 (omega arith) ten_ms

calculate_uptime-IsProper_example :
    IsProper (calculate_uptime_for_logs history none (pos 110) (some (pos 100))).last24h
    × IsProper (calculate_uptime_for_logs history none (pos 110) (some (pos 100))).last7d
    × IsProper (calculate_uptime_for_logs history none (pos 110) (some (pos 100))).last30d
calculate_uptime-IsProper_example =
    calculate_uptime-IsProper history none (pos 110) (some (pos 100)) (omega arith)

abbrev failed_start : OperationLog
failed_start = record (log_at 101 (codes "start")) { status = codes "error" }
