-- ===== src/Uptime.antt =====
-- ui/src/utils/uptime.ts: the uptime of a service, computed from its operation log.
-- Times and durations are whole milliseconds; a log's `created` stands for the time value of the
-- source's date text, `new Date(l.created).getTime()`. A percentage is an exact fraction.
pub mod Sort
pub mod Measure
pub mod Select
pub mod Bounds
use pb_launcher.Prelude.{
  ℕ, suc, Text, codes, List, [], ◌∷◌, Bool, true, false, ◌&&◌, ◌||◌, Option, none, some, text_eq,
  filter, if◌then◌else◌, ◌*◌,
}
use pb_launcher.Prelude.Int.{ℤ, pos, negsuc, ◌+ℤ◌, ◌-ℤ◌, ◌*ℤ◌, ltb_ℤ, leb_ℤ}

pub record OperationLog : Type 0 where
  pub id : Text
  pub created : ℤ
  pub operation : Text
  pub status : Text
  pub service : Text

pub record Percent : Type 0 where
  pub num : ℤ
  pub den : ℤ

pub record UptimeStat : Type 0 where
  pub percent : Percent
  pub active_ms : ℤ
  pub inactive_ms : ℤ

pub record UptimeStatsResult : Type 0 where
  pub last24h : UptimeStat
  pub last7d : UptimeStat
  pub last30d : UptimeStat

-- `serviceId == null || l.service === serviceId`
abbrev pub same_service : Option Text → OperationLog → Bool
same_service none l = true
same_service (some service_id) l = text_eq l.service service_id

abbrev pub counts_for : Option Text → OperationLog → Bool
counts_for service_id l = text_eq l.status (codes "success") && same_service service_id l

-- `Array.prototype.sort` is stable: a log goes before the later ones of the same time.
unfoldable pub insert_log : OperationLog → List OperationLog → List OperationLog
insert_log l [] = l ∷ []
insert_log l (m ∷ ms) = if leb_ℤ l.created m.created then l ∷ m ∷ ms else m ∷ insert_log l ms

unfoldable pub sort_logs : List OperationLog → List OperationLog
sort_logs [] = []
sort_logs (l ∷ ls) = insert_log l (sort_logs ls)

unfoldable pub successful_logs : List OperationLog → Option Text → List OperationLog
successful_logs logs service_id = sort_logs (filter (counts_for service_id) logs)

abbrev pub turns_on : OperationLog → Bool
turns_on l = text_eq l.operation (codes "start") || text_eq l.operation (codes "wakeup")

abbrev pub turns_off : OperationLog → Bool
turns_off l = text_eq l.operation (codes "stop") || text_eq l.operation (codes "sleep")

abbrev pub before : ℤ → OperationLog → Bool
before start l = ltb_ℤ l.created start

abbrev pub within : ℤ → OperationLog → Bool
within start l = leb_ℤ start l.created

-- The state at the start of the period, from the last log before it, or guessed from the first in it.
abbrev pub last_turns_on : OperationLog → List OperationLog → Bool
last_turns_on l [] = turns_on l
last_turns_on l (m ∷ ms) = last_turns_on m ms

abbrev pub first_turns_off : List OperationLog → Bool
first_turns_off [] = false
first_turns_off (l ∷ ls) = turns_off l

abbrev pub state_before : List OperationLog → List OperationLog → Bool
state_before [] in_period = first_turns_off in_period
state_before (l ∷ ls) in_period = last_turns_on l ls

unfoldable pub initial_state : List OperationLog → ℤ → Bool
initial_state logs start = state_before (filter (before start) logs) (filter (within start) logs)

-- The variables of the loop over the logs of the period.
pub record Sweep : Type 0 where
  pub is_active : Bool
  pub total_active : ℤ
  pub last_event : ℤ

abbrev pub next_state : Bool → OperationLog → Bool
next_state active l = if turns_on l then true else if turns_off l then false else active

unfoldable pub sweep_step : Sweep → OperationLog → Sweep
sweep_step s l = record {
  is_active = next_state s.is_active l;
  total_active =
      if s.is_active then s.total_active +ℤ (l.created -ℤ s.last_event) else s.total_active;
  last_event = l.created;
}

unfoldable pub sweep : Sweep → List OperationLog → Sweep
sweep s [] = s
sweep s (l ∷ ls) = sweep (sweep_step s l) ls

-- The time from the last log to now is added behind the loop.
unfoldable pub close_sweep : Sweep → ℤ → ℤ
close_sweep s now = if s.is_active then s.total_active +ℤ (now -ℤ s.last_event) else s.total_active

unfoldable pub total_active_ms : List OperationLog → ℤ → ℤ → ℤ
total_active_ms logs start now =
    close_sweep
      (sweep
        (record { is_active = initial_state logs start; total_active = pos 0; last_event = start })
        (filter (within start) logs))
      now

abbrev pub day_ms : ℕ
day_ms = 24 * 60 * 60 * 1000

pub record Window : Type 0 where
  pub start : ℤ
  pub ms : ℤ

-- A service that is younger than the period shortens it.
unfoldable pub window : ℤ → Option ℤ → ℕ → Window
window now none days = record { start = now -ℤ pos (days * day_ms); ms = pos (days * day_ms) }
window now (some created) days =
    if ltb_ℤ (now -ℤ pos (days * day_ms)) created
    then record { start = created; ms = now -ℤ created }
    else record { start = now -ℤ pos (days * day_ms); ms = pos (days * day_ms) }

abbrev pub max_zero : Percent → Percent
max_zero p = if ltb_ℤ p.num (pos 0) then record { num = pos 0; den = pos 1 } else p

abbrev pub min_hundred : Percent → Percent
min_hundred p = if ltb_ℤ (pos 100 *ℤ p.den) p.num then record { num = pos 100; den = pos 1 } else p

-- `Math.min(100, Math.max(0, (total / ms) * 100))`
unfoldable pub percent_of : ℤ → ℤ → Percent
percent_of total ms = min_hundred (max_zero (record { num = total *ℤ pos 100; den = ms }))

unfoldable pub stat_of : ℤ → ℤ → UptimeStat
stat_of total ms = record {
  percent = percent_of total ms;
  active_ms = total;
  inactive_ms = ms -ℤ total;
}

abbrev pub no_period : UptimeStat
no_period = record {
  percent = record { num = pos 100; den = pos 1 };
  active_ms = pos 0;
  inactive_ms = pos 0;
}

unfoldable pub calculate_for_days : List OperationLog → ℤ → Option ℤ → ℕ → UptimeStat
calculate_for_days logs now service_created days =
    let w = window now service_created days in
    if leb_ℤ w.ms (pos 0) then no_period else stat_of (total_active_ms logs w.start now) w.ms

unfoldable pub calculate_uptime_for_logs :
    List OperationLog → Option Text → ℤ → Option ℤ → UptimeStatsResult
calculate_uptime_for_logs logs service_id now service_created =
    let successful = successful_logs logs service_id in
    record {
      last24h = calculate_for_days successful now service_created 1;
      last7d = calculate_for_days successful now service_created 7;
      last30d = calculate_for_days successful now service_created 30;
    }
