-- ===== src/Snapshots.antt =====
-- The sizes and the default names of ui/src/pages/internal/details_section/SnapshotsSection.tsx.
-- `formatSize` has copies in other pages. A size is a whole number of bytes below 2 ^ 53, so that
-- its quotients by powers of two are exact and `toFixed` rounds the true value, half up. `String`
-- of a number is a parameter, `show`.
pub mod Sizes
pub mod Named
use pb_launcher.Prelude.{
  ℕ, ◌+◌, ◌-◌, ◌*◌, ◌/◌, ◌%◌, Text, codes, List, [], ◌∷◌, ◌++◌, Option, none, some, ltb, length,
  if◌then◌else◌,
}

pub data Size : Type 0 where
  bytes : ℕ → Size
  kilobytes megabytes : ℕ → Size

-- `toFixed(1)` of the quotient is a whole number of tenths.
unfoldable pub shown_size : ℕ → Size
shown_size size =
    if ltb size 1024
    then bytes size
    else (if ltb size 1048576
        then kilobytes ((10 * size + 512) / 1024)
        else megabytes ((10 * size + 524288) / 1048576))

-- A point in local time, with the fields as `Date` gives them: January is month 0.
pub record LocalDate : Type 0 where
  pub full_year : ℕ
  pub month : ℕ
  pub date : ℕ
  pub hours : ℕ
  pub minutes : ℕ

-- `String(n).padStart(2, "0")`
abbrev pub pad_start : Text → Text
pad_start [] = b'0' ∷ b'0' ∷ []
pad_start (c ∷ []) = b'0' ∷ c ∷ []
pad_start (c ∷ d ∷ s) = c ∷ d ∷ s

module _ (show : ℕ → Text) where
  abbrev pub one_decimal : ℕ → Text
  one_decimal t = show (t / 10) ++ (b'.' ∷ show (t % 10))

  unfoldable pub format_size : ℕ → Text
  format_size size = elim (shown_size size) [
    | bytes n ↦ show n ++ codes " B"
    | kilobytes t ↦ one_decimal t ++ codes " KB"
    | megabytes t ↦ one_decimal t ++ codes " MB"
  ]

  abbrev pub pad : ℕ → Text
  pad n = pad_start (show n)

  unfoldable pub date_str : LocalDate → Text
  date_str d =
      show d.full_year
      ++ (b'-'
          ∷ (pad (d.month + 1)
              ++ (b'-' ∷ (pad d.date ++ (b'-' ∷ (pad d.hours ++ (b'-' ∷ pad d.minutes)))))))

  unfoldable pub default_snapshot_name : Option Text → LocalDate → Text
  default_snapshot_name none d = []
  default_snapshot_name (some name) d = name ++ (b'-' ∷ date_str d)
