-- ===== src/Snapshots/Sizes.antt =====
-- How near a size is shown by `formatSize` of
-- ui/src/pages/internal/details_section/SnapshotsSection.tsx.
use pb_launcher.Prelude.{ℕ, ◌+◌, ◌*◌, ◌≤◌, arith}
use pb_launcher.Snapshots.{Size, bytes, kilobytes, megabytes, shown_size}

-- The bytes in a unit, and the tenths of a byte that a size says.
abbrev pub unit_of : Size → ℕ
unit_of (bytes n) = 1
unit_of (kilobytes t) = 1024
unit_of (megabytes t) = 1048576

abbrev pub said : Size → ℕ
said (bytes n) = 10 * n
said (kilobytes t) = t * 1024
said (megabytes t) = t * 1048576

-- A size is shown with an error of at most a twentieth of its unit, and a larger file is never said
-- to be smaller, across the units too.
pub shown_size_near :
    (size larger : ℕ)
    → size ≤ larger
    → (2 * said (shown_size size) ≤ 20 * size + unit_of (shown_size size))
      × ((20 * size ≤ 2 * said (shown_size size) + unit_of (shown_size size))
          × (said (shown_size size) ≤ said (shown_size larger)))
unfolding shown_size
shown_size_near size larger h = ground arith
