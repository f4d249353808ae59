-- ===== src/Status.antt =====
-- ui/src/pages/internal/StatusPage.tsx: the time that the host is up, and the colours of a load.
-- The time is a whole number of seconds; `String` of a number is a parameter, `show`.
pub mod Shown
use pb_launcher.Prelude.{
  ℕ, Text, codes, List, [], ◌∷◌, ◌++◌, map, ltb, ◌==◌, ◌&&◌, ◌+◌, ◌*◌, ◌/◌, ◌%◌, Bool, join,
  if◌then◌else◌,
}

-- A part of the text: a number and the letter of its unit.
pub record Part : Type 0 where
  pub amount : ℕ
  pub unit : ℕ

abbrev pub part : ℕ → ℕ → Part
part n u = record { amount = n; unit = u }

unfoldable pub days : ℕ → ℕ
days seconds = seconds / (3600 * 24)

unfoldable pub hours : ℕ → ℕ
hours seconds = (seconds % (3600 * 24)) / 3600

unfoldable pub minutes : ℕ → ℕ
minutes seconds = (seconds % 3600) / 60

-- The `parts` that are pushed.
unfoldable pub uptime_parts : ℕ → List Part
uptime_parts seconds =
    let d = days seconds in
    let h = hours seconds in
    let m = minutes seconds in
    (if ltb 0 d then part d b'd' ∷ [] else [])
    ++ ((if ltb 0 h then part h b'h' ∷ [] else [])
        ++ ((if ltb 0 m then part m b'm' ∷ [] else [])
            ++ (if (d == 0) && ((h == 0) && (m == 0)) then part (seconds % 60) b's' ∷ [] else [])))

unfoldable pub format_uptime : (ℕ → Text) → ℕ → Text
format_uptime show seconds =
    if seconds == 0
    then codes "0s"
    else join (map (λ (p : Part). show p.amount ++ p.unit ∷ []) (uptime_parts seconds)) b' '

pub data Color : Type 0 where
  success warning error : Color

unfoldable pub get_status_color : ℕ → Color
get_status_color percent =
    if ltb percent 70 then success else (if ltb percent 85 then warning else error)
