-- ===== src/Snapshots/Named.antt =====
-- The default names of snapshots in
-- ui/src/pages/internal/details_section/SnapshotsSection.tsx, told apart.
use pb_launcher.Prelude.{
  ℕ, ◌+◌, ◌/◌, ◌%◌, ◌≤◌, ◌<◌, Text, [], ◌∷◌, ◌++◌, some, ◌≡◌, refl, ap, arith, length,
  length-append,
}
use native.Mathlib.Decide.{dec_lt}
use pb_launcher.Snapshots.{LocalDate, pad, date_str, default_snapshot_name}

-- What `String` does on whole numbers.
pub record IsDecimal (show : ℕ → Text) : Type 0 where
  pub one_digit : (n : ℕ) → n < 10 → show n ≡ (48 + n) ∷ []
  pub two_digits : (n : ℕ) → 10 ≤ n → n < 100 → show n ≡ (48 + n / 10) ∷ (48 + n % 10) ∷ []
  pub injective : (m n : ℕ) → show m ≡ show n → m ≡ n

pub record IsDate (d : LocalDate) : Type 0 where
  pub month : d.month < 12
  pub date : d.date < 32
  pub hours : d.hours < 24
  pub minutes : d.minutes < 60

append_cancel : (a b c d : Text) → length b ≡ length d → a ++ b ≡ c ++ d → (a ≡ c) × (b ≡ d)
append_cancel [] b [] d l h = (refl, h)
append_cancel [] b (x ∷ c) d l h = absurd (omega (arith, length-append (x ∷ c) d, ap length h))
append_cancel (x ∷ a) b [] d l h = absurd (omega (arith, length-append (x ∷ a) b, ap length h))
append_cancel (x ∷ a) b (y ∷ c) d l h = ground (arith, append_cancel a b c d l)

-- Two digits, the dash before them and what follows.
abbrev dashed : ℕ → Text → Text
dashed n rest = b'-' ∷ (48 + n / 10) ∷ (48 + n % 10) ∷ rest

abbrev day_and_time : LocalDate → Text
day_and_time d = dashed (d.month + 1) (dashed d.date (dashed d.hours (dashed d.minutes [])))

dashed-eq : (m n : ℕ) (s t : Text) → dashed m s ≡ dashed n t → (m ≡ n) × (s ≡ t)
dashed-eq m n s t h = ground arith

module _ (show : ℕ → Text) (dec : IsDecimal show) where
  pad_lem : (n : ℕ) → n < 100 → pad show n ≡ (48 + n / 10) ∷ (48 + n % 10) ∷ []
  pad_lem n h = elim (dec_lt n 10) [
    | yes p ↦ rw (dec.one_digit n p) (ground arith)
    | no p ↦ rw (dec.two_digits n (omega arith) h) refl
  ]

  date_str_lem : (d : LocalDate) → IsDate d → date_str show d ≡ show d.full_year ++ day_and_time d
  unfolding date_str
  date_str_lem d v =
      rw
        (
          pad_lem (d.month + 1) (omega (arith, v.month)),
          pad_lem d.date (omega (arith, v.date)),
          pad_lem d.hours (omega (arith, v.hours)),
          pad_lem d.minutes (omega (arith, v.minutes)),
        )
        refl

  date_str-injective :
      (d e : LocalDate) → IsDate d → IsDate e → date_str show d ≡ date_str show e → d ≡ e
  date_str-injective d e v w h =
      let parts =
        append_cancel (show d.full_year) (day_and_time d) (show e.full_year) (day_and_time e) refl
          (rw (← date_str_lem d v, ← date_str_lem e w) h) in
      let months = dashed-eq (d.month + 1) (e.month + 1) _ _ parts.1 in
      let dates = dashed-eq d.date e.date _ _ months.1 in
      let hours = dashed-eq d.hours e.hours _ _ dates.1 in
      let minutes = dashed-eq d.minutes e.minutes _ _ hours.1 in
      ground (
        arith,
        dec.injective d.full_year e.full_year parts.0,
        months.0,
        dates.0,
        hours.0,
        minutes.0,
      )

  -- Where `String` of a number has its decimal digits, two snapshots of a service that are asked for
  -- in different minutes get different default names.
  pub default_snapshot_name-injective :
      (name : Text) (d e : LocalDate)
      → IsDate d
      → IsDate e
      → default_snapshot_name show (some name) d ≡ default_snapshot_name show (some name) e
      → d ≡ e
  unfolding default_snapshot_name
  default_snapshot_name-injective name d e v w h = date_str-injective d e v w (tail_eq name h)
    where
      tail_eq : (n : Text) {s t : Text} → n ++ (b'-' ∷ s) ≡ n ++ (b'-' ∷ t) → s ≡ t
      tail_eq [] h = cc
      tail_eq (c ∷ n) h = tail_eq n (cc)
