-- ===== src/Logs.antt =====
-- The log view of ui/src/pages/internal/details_section/ServiceLogsSection.tsx (`LogsView`): the
-- first load, the polling loop, and `mergeLogsUnique`, as a state machine of what arrives. A scroll
-- position is in whole pixels.
pub mod Merge
pub mod Polling
pub mod Export
use pb_launcher.Prelude.{
  ℕ, ◌+◌, Text, codes, List, [], ◌∷◌, ◌++◌, Bool, true, false, ◌&&◌, ◌||◌, not, Option, none, some,
  ◌==◌, leb, any, filter, map, length, if◌then◌else◌,
}

pub data Stream : Type 0 where
  stdout stderr : Stream

pub record ServiceLog : Type 0 where
  pub id : ℕ
  pub service_id : Text
  pub stream : Stream
  pub message : Text
  pub timestamp : Text

-- `existingIds.has(log.id)` for the ids of a list of logs.
abbrev pub has_log : List ServiceLog → ServiceLog → Bool
has_log logs l = any (λ n. l.id == n) (map (λ (m : ServiceLog). m.id) logs)

unfoldable pub merge_logs_unique : List ServiceLog → List ServiceLog → List ServiceLog
merge_logs_unique current incoming = current ++ filter (λ l. not (has_log current l)) incoming

pub data StreamFilter : Type 0 where
  all_streams : StreamFilter
  only : Stream → StreamFilter

abbrev pub same_stream : Stream → Stream → Bool
same_stream stdout stdout = true
same_stream stdout stderr = false
same_stream stderr stdout = false
same_stream stderr stderr = true

abbrev pub filtered_logs : StreamFilter → List ServiceLog → List ServiceLog
filtered_logs all_streams logs = logs
filtered_logs (only s) logs = filter (λ l. same_stream l.stream s) logs

-- The container of the lines, while it is mounted.
pub record Scroll : Type 0 where
  pub scroll_top : ℕ
  pub client_height : ℕ
  pub scroll_height : ℕ

-- `scrollTop + clientHeight >= scrollHeight - 30`
abbrev pub near_bottom : Scroll → Bool
near_bottom c = leb c.scroll_height (c.scroll_top + c.client_height + 30)

abbrev pub follows : Option Scroll → Bool → Bool
follows none before = before
follows (some c) before = near_bottom c

-- The state of the view, the flag of the effect, and whether a round of the loop is scheduled or
-- under way.
pub record View : Type 0 where
  pub logs : List ServiceLog
  pub connected : Bool
  pub stream_filter : StreamFilter
  pub should_scroll : Bool
  pub is_active : Bool
  pub scheduled : Bool

-- What happens to a view that is mounted: the first load answers or fails, a round of the loop is
-- answered or fails, the user scrolls or chooses a stream, and the effect is cleaned up.
pub data Event : Type 0 where
  loaded : List ServiceLog → Event
  load_failed : Event
  polled : Option Scroll → List ServiceLog → Event
  poll_failed : Event
  scrolled : Scroll → Event
  chosen : StreamFilter → Event
  cleaned : Event

abbrev pub mounted : View
mounted = record {
  logs = [];
  connected = true;
  stream_filter = all_streams;
  should_scroll = true;
  is_active = true;
  scheduled = true;
}

abbrev pub is_empty : List ServiceLog → Bool
is_empty [] = true
is_empty (l ∷ ls) = false

unfoldable pub next : View → Event → View
next v (loaded init_logs) =
    if not v.is_active then v else record v { logs = init_logs; should_scroll = true }
next v load_failed = v
next v (polled c safe_logs) =
    if not v.is_active
    then v
    else let merged = merge_logs_unique v.logs safe_logs in
      record v {
        logs = merged;
        connected = true;
        should_scroll = (is_empty v.logs && not (is_empty merged)) || follows c v.should_scroll;
        scheduled = true;
      }
next v poll_failed = if not v.is_active then v else record v { connected = false; scheduled = true }
next v (scrolled c) = record v { should_scroll = near_bottom c }
next v (chosen f) = record v { stream_filter = f }
next v cleaned = record v { is_active = false; scheduled = false }

-- What happens one after the other, for one service id.
unfoldable pub run : View → List Event → View
run v [] = v
run v (e ∷ es) = run (next v e) es
