-- ===== src/Uptime/Bounds.antt =====
-- What the statistics say: the active time of the period, exactly, and its share.
use pb_launcher.Prelude.{
  ℕ, zero, suc, ◌-◌, ◌*◌, ◌≤◌, Text, List, [], ◌∷◌, Bool, true, false, Option, none, some, ◌≡◌,
  refl, ap, ◌∙◌, arith, filter, Bool-cases, inl, inr, codes, text_eq, ◌||◌,
}
use pb_launcher.Prelude.Int.{
  ℤ, pos, negsuc, ◌+ℤ◌, ◌-ℤ◌, ◌*ℤ◌, ◌≤ℤ◌, ◌<ℤ◌, leb_ℤ, ltb_ℤ, int_laws, le→leb_ℤ, le→ltb_ℤ,
}
use pb_launcher.Uptime.{
  OperationLog, UptimeStat, window, within, counts_for, successful_logs, initial_state,
  total_active_ms, close_sweep, sweep, sweep_step, percent_of, stat_of, calculate_for_days,
  calculate_uptime_for_logs, turns_on, turns_off, day_ms, no_period,
}
use pb_launcher.Uptime.Sort.{
  IsSorted, sort_logs-IsSorted, sort_logs-All, filter-All, filter-SortedFrom,
}
use pb_launcher.Uptime.Measure.{UpTo, state_at, ms_of, count_active, sweep-count}

ms_of-le : (b : Bool) → ms_of b ≤ 1
ms_of-le true = omega arith
ms_of-le false = omega arith

pub count_active-le :
    (a : Bool) (ls : List OperationLog) (s : ℤ) (n : ℕ) → count_active a ls s n ≤ n
unfolding count_active
count_active-le a ls s zero = omega arith
count_active-le a ls s (suc n) =
    omega (arith, ms_of-le (state_at a ls s), count_active-le a ls (s +ℤ pos 1) n)

-- The period ends now, whether the service's creation cuts it short or not.
pub window_end :
    (now : ℤ) (created : Option ℤ) (days : ℕ)
    → now ≡ (window now created days).start +ℤ (window now created days).ms
unfolding window
window_end now none days = omega int_laws
window_end now (some c) days = elim (Bool-cases (ltb_ℤ (now -ℤ pos (days * day_ms)) c)) [
  | inl e ↦ rw e (omega int_laws)
  | inr e ↦ rw e (omega int_laws)
]

successful-IsSorted :
    (logs : List OperationLog) (id : Option Text) → IsSorted (successful_logs logs id)
unfolding successful_logs
successful-IsSorted logs id = sort_logs-IsSorted (filter (counts_for id) logs)

successful-UpTo :
    (now : ℤ) (logs : List OperationLog) (id : Option Text)
    → UpTo now logs
    → UpTo now (successful_logs logs id)
unfolding successful_logs
successful-UpTo now logs id h =
    sort_logs-All (λ l. l.created ≤ℤ now) (filter (counts_for id) logs)
      (filter-All (λ l. l.created ≤ℤ now) (counts_for id) logs h)

-- The active milliseconds of a period of `n`, counted one by one.
abbrev pub active_count : List OperationLog → ℤ → ℕ → ℕ
active_count ls start n = count_active (initial_state ls start) (filter (within start) ls) start n

add_zero_left : (k : ℕ) → pos 0 +ℤ pos k ≡ pos k
add_zero_left k = omega int_laws

total_active-count :
    (ls : List OperationLog) (start now : ℤ) (n : ℕ)
    → IsSorted ls
    → UpTo now ls
    → now ≡ start +ℤ pos n
    → total_active_ms ls start now ≡ pos (active_count ls start n)
unfolding total_active_ms
total_active-count ls start now n sorted upto e =
    sweep-count (initial_state ls start) (pos 0) start now n (filter (within start) ls)
      (filter-SortedFrom start ls sorted)
      (filter-All (λ l. l.created ≤ℤ now) (within start) ls upto) e
    ∙ add_zero_left _

mul_pos : (a b : ℕ) → pos a *ℤ pos b ≡ pos (a * b)
unfolding ◌*ℤ◌
mul_pos a b = ground arith

nonneg_test : (x : ℕ) → ltb_ℤ (pos x) (pos 0) ≡ false
nonneg_test x = ground arith

share_test : (k n : ℕ) → k ≤ n → ltb_ℤ (pos (100 * n)) (pos (k * 100)) ≡ false
share_test k n h = ground arith

percent_exact :
    (k n : ℕ) → k ≤ n → percent_of (pos k) (pos n) ≡ record { num = pos (k * 100); den = pos n }
unfolding percent_of
percent_exact k n h = rw (mul_pos k 100, nonneg_test (k * 100), mul_pos 100 n, share_test k n h)

sub_exact : (k n : ℕ) → k ≤ n → pos n -ℤ pos k ≡ pos (n - k)
sub_exact k n h = omega int_laws

stat_count :
    (ls : List OperationLog) (start now : ℤ) (n : ℕ)
    → IsSorted ls
    → UpTo now ls
    → now ≡ start +ℤ pos n
    → stat_of (total_active_ms ls start now) (pos n) ≡ record {
      percent = record { num = pos (active_count ls start n * 100); den = pos n };
      active_ms = pos (active_count ls start n);
      inactive_ms = pos (n - active_count ls start n);
    }
unfolding stat_of
stat_count ls start now n sorted upto e =
    let le = count_active-le (initial_state ls start) (filter (within start) ls) start n in
    rw (total_active-count ls start now n sorted upto e, percent_exact _ n le, sub_exact _ n le)

positive : (n : ℕ) → leb_ℤ (pos (suc n)) (pos 0) ≡ false
positive n = ground arith

-- Where no log is of the future and the period is not empty, the active time is the count of the
-- active milliseconds of the period, the inactive time is the rest, and the percentage is their
-- exact share.
pub calculate_for_days-count :
    (logs : List OperationLog) (id : Option Text) (now : ℤ) (created : Option ℤ) (days n : ℕ)
    → UpTo now logs
    → (window now created days).ms ≡ pos (suc n)
    → let ls = successful_logs logs id in
      let k = active_count ls (window now created days).start (suc n) in
      (calculate_for_days ls now created days ≡ record {
        percent = record { num = pos (k * 100); den = pos (suc n) };
        active_ms = pos k;
        inactive_ms = pos (suc n - k);
      })
      × (k ≤ suc n)
unfolding calculate_for_days
calculate_for_days-count logs id now created days n upto e =
    let ls = successful_logs logs id in
    let w = window now created days in
    (
      rw (e, positive n)
          (stat_count ls w.start now (suc n) (successful-IsSorted logs id)
            (successful-UpTo now logs id upto)
            (window_end now created days ∙ ap (λ m. w.start +ℤ m) e)),
      count_active-le _ _ _ (suc n),
    )

empty_period :
    (ls : List OperationLog) (now : ℤ) (created : Option ℤ) (days : ℕ) (ms : ℤ)
    → (window now created days).ms ≡ ms
    → leb_ℤ ms (pos 0) ≡ true
    → calculate_for_days ls now created days ≡ no_period
unfolding calculate_for_days
empty_period ls now created days ms e h = rw (e, h)

-- What a statistic promises: no negative time.
abbrev pub IsProper : UptimeStat → Type 0
IsProper u = (pos 0 ≤ℤ u.active_ms) × (pos 0 ≤ℤ u.inactive_ms)

IsProper-by_length :
    (logs : List OperationLog) (id : Option Text) (now : ℤ) (created : Option ℤ) (days : ℕ) (ms : ℤ)
    → UpTo now logs
    → (window now created days).ms ≡ ms
    → IsProper (calculate_for_days (successful_logs logs id) now created days)
IsProper-by_length logs id now created days (negsuc m) upto e =
    rw
      (empty_period (successful_logs logs id) now created days (negsuc m) e
        (le→leb_ℤ (negsuc m) (pos 0) (omega arith)))
      (omega arith)
IsProper-by_length logs id now created days (pos zero) upto e =
    rw (empty_period (successful_logs logs id) now created days (pos zero) e refl) (omega arith)
IsProper-by_length logs id now created days (pos (suc n)) upto e =
    rw (calculate_for_days-count logs id now created days n upto e).0 (omega arith)

-- Where no log is of the future, all three statistics have no negative time, also where the period
-- is empty because the service was created now or later.
pub calculate_uptime-IsProper :
    (logs : List OperationLog) (id : Option Text) (now : ℤ) (created : Option ℤ)
    → UpTo now logs
    → let r = calculate_uptime_for_logs logs id now created in
      IsProper r.last24h × IsProper r.last7d × IsProper r.last30d
unfolding calculate_uptime_for_logs
calculate_uptime-IsProper logs id now created upto = (
  IsProper-by_length logs id now created 1 _ upto refl,
  IsProper-by_length logs id now created 7 _ upto refl,
  IsProper-by_length logs id now created 30 _ upto refl,
)

days_positive : (d : ℕ) → leb_ℤ (pos (suc d * day_ms)) (pos 0) ≡ false
days_positive d = ground arith

stop_off : (l : OperationLog) → l.operation ≡ codes "stop" → turns_off l ≡ true
stop_off l e = ap (λ t. text_eq t (codes "stop") || text_eq t (codes "sleep")) e

stop_not_on : (l : OperationLog) → l.operation ≡ codes "stop" → turns_on l ≡ false
stop_not_on l e = ap (λ t. text_eq t (codes "start") || text_eq t (codes "wakeup")) e

sole_stop_total :
    (start now : ℤ) (l : OperationLog)
    → l.operation ≡ codes "stop"
    → start <ℤ l.created
    → total_active_ms (l ∷ []) start now ≡ pos 0 +ℤ (l.created -ℤ start)
unfolding total_active_ms initial_state close_sweep sweep sweep_step
sole_stop_total start now l op h = rw (
  le→ltb_ℤ l.created start (omega arith),
  le→leb_ℤ start l.created (omega arith),
  stop_off l op,
  stop_not_on l op,
)

-- One successful stop with a time of the future, as a clock that is ahead writes it, makes the
-- inactive time of any period negative.
pub future_stop_negative :
    (now : ℤ) (l : OperationLog) (d : ℕ)
    → l.operation ≡ codes "stop"
    → now <ℤ l.created
    → (calculate_for_days (l ∷ []) now none (suc d)).inactive_ms <ℤ pos 0
unfolding calculate_for_days stat_of window
future_stop_negative now l d op h =
    rw (days_positive d, sole_stop_total (now -ℤ pos (suc d * day_ms)) now l op (omega int_laws))
      (omega int_laws)
