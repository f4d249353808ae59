-- ===== src/Status/Shown.antt =====
-- What the text of a time says.
use pb_launcher.Prelude.{
  ℕ, List, [], ◌∷◌, Bool, ltb, ◌==◌, ◌+◌, ◌*◌, ◌%◌, ◌≤◌, ◌<◌, ◌≡◌, ◌≢◌, arith, all, true, ◌||◌,
  if◌then◌else◌,
}
use pb_launcher.Status.{Part, days, hours, minutes, uptime_parts}

-- The seconds of a unit, apart from the code.
abbrev pub seconds_of : ℕ → ℕ
seconds_of u =
    if u == b'd' then 86400 else (if u == b'h' then 3600 else (if u == b'm' then 60 else 1))

-- Whether a part is less than one of the next larger unit.
abbrev pub is_carried : Part → Bool
is_carried p = p.unit == b'd' || ltb p.amount (if p.unit == b'h' then 24 else 60)

abbrev pub total : List Part → ℕ
total [] = 0
total (p ∷ ps) = p.amount * seconds_of p.unit + total ps

split_seconds :
    (n : ℕ)
    → (n ≡ days n * 86400 + hours n * 3600 + minutes n * 60 + n % 60)
      × (hours n < 24)
      × (minutes n < 60)
      × (n % 60 < 60)
unfolding days hours minutes
split_seconds n = (omega arith, omega arith, omega arith, omega arith)

-- The parts add up to the time, but for less than a minute, and under a minute to the time; there is
-- one at least, and no part is as much as one of the next larger unit.
pub uptime_parts-total :
    (n : ℕ)
    → (total (uptime_parts n) ≤ n)
      × (n < total (uptime_parts n) + 60)
      × (n < 60 → total (uptime_parts n) ≡ n)
      × (all is_carried (uptime_parts n) ≡ true)
      × (uptime_parts n ≢ [])
unfolding uptime_parts
uptime_parts-total n =
    let (e, h, m, s) = split_seconds n in
    (
      ground (arith, e, h, m, s),
      ground (arith, e, h, m, s),
      λ l. ground (arith, e, h, m, s, l),
      ground (arith, e, h, m, s),
      λ l. ground (arith, l),
    )
