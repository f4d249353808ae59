-- ===== src/Examples/Offers.antt =====
-- The buttons and the snapshots of a service at concrete inputs.
use pb_launcher.Prelude.{
  ℕ, ◌+◌, ◌*◌, ◌/◌, ◌%◌, ◌≤◌, ◌≡◌, ◌↔◌, true, refl, Text, codes, [], ◌∷◌, false, none, ltb,
  if◌then◌else◌, arith,
}
use pb_launcher.Collections.{ServiceDto}
use pb_launcher.Collections.Records.{stopped}
use pb_launcher.Cards.{
  create_snapshot, clone, card_offers, general_offers, snapshots_offers, PendingCalls,
}
use pb_launcher.Cards.Offered.{IsAtRest, offered-IsAllowed}
use pb_launcher.Snapshots.{LocalDate, shown_size, format_size}
use pb_launcher.Snapshots.Sizes.{unit_of, said, shown_size_near}
use pb_launcher.Snapshots.Named.{IsDecimal, IsDate, default_snapshot_name-injective}

abbrev lower : Text → Text
lower t = t

abbrev shop : ServiceDto
shop = record {
  id = codes "s1";
  name = codes "shop";
  status = stopped;
  pb_install = [];
  boot_user_email = [];
  boot_user_password = [];
  last_started = [];
  restart_policy = [];
  error_message = [];
  ip = [];
  port = 0;
  created = [];
  repository = [];
  repository_id = [];
  release_id = [];
  release_version = [];
  domains = [];
  cpu_quota = none;
  memory_limit = none;
  current_snapshot_id = none;
  current_snapshot_applied_at = none;
}

abbrev calm : PendingCalls
calm = record {
  command_pending = false;
  create_pending = false;
  restore_pending = false;
  download_pending = false;
  delete_pending = false;
}

offered-IsAllowed_example :
    (stopped ≡ stopped) × ((general_offers shop.status false clone ≡ true) ↔ IsAtRest shop.status)
unfolding general_offers snapshots_offers card_offers
offered-IsAllowed_example = offered-IsAllowed shop create_snapshot false calm refl

shown_size_near_example :
    (2 * said (shown_size 1536) ≤ 20 * 1536 + unit_of (shown_size 1536))
    × ((20 * 1536 ≤ 2 * said (shown_size 1536) + unit_of (shown_size 1536))
        × (said (shown_size 1536) ≤ said (shown_size 2000000)))
shown_size_near_example = shown_size_near 1536 2000000 (omega arith)

-- Numbers below 100 as they are written, and others as one unit.
abbrev show : ℕ → Text
show n =
    if ltb n 10
    then (48 + n) ∷ []
    else (if ltb n 100 then (48 + n / 10) ∷ (48 + n % 10) ∷ [] else (48 + n) ∷ [])

size_run : format_size show 1536 ≡ codes "1.5 KB"
unfolding format_size shown_size
size_run = refl

show-IsDecimal : IsDecimal show
show-IsDecimal = record {
  one_digit = λ n h. ground arith;
  two_digits = λ n h k. ground arith;
  injective = λ m n h. ground arith;
}

abbrev noon : LocalDate
noon = record { full_year = 2026; month = 10; date = 25; hours = 12; minutes = 5 }

noon-IsDate : IsDate noon
noon-IsDate = record {
  month = omega arith;
  date = omega arith;
  hours = omega arith;
  minutes = omega arith;
}

default_snapshot_name-injective_example : noon ≡ noon
default_snapshot_name-injective_example =
    default_snapshot_name-injective show show-IsDecimal (codes "shop") noon noon noon-IsDate
      noon-IsDate refl
