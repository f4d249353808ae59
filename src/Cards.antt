-- ===== src/Cards.antt =====
-- What the user is offered for a service, by its status: the card of
-- ui/src/pages/internal/components/ServiceCard.tsx, the general section
-- (ui/src/pages/internal/details_section/GeneralSection.tsx), the snapshots section
-- (SnapshotsSection.tsx, beside it), and which cards ui/src/pages/internal/ServicesPage.tsx lists.
-- A button is offered where it is rendered and enabled. `toLowerCase` is a parameter.
pub mod Offered
use pb_launcher.Prelude.{
  ℕ, Text, codes, List, [], ◌∷◌, Bool, true, false, not, ◌&&◌, ◌||◌, Option, none, some, text_eq,
  includes, filter, any, ◌-◌, if◌then◌else◌,
}
use pb_launcher.Collections.{ServiceDto}
use pb_launcher.Collections.Records.{
  Status, idle, pending, running, stopped, failure, restoring, sleeping, DomainDto,
}

pub data Button : Type 0 where
  start stop restart clone change_password delete : Button
  stop_now create_snapshot restore_snapshot download_snapshot delete_snapshot : Button

abbrev pub status_text : Status → Text
status_text idle = codes "idle"
status_text pending = codes "pending"
status_text running = codes "running"
status_text stopped = codes "stopped"
status_text failure = codes "failure"
status_text restoring = codes "restoring"
status_text sleeping = codes "sleeping"

abbrev pub is_pending_text : Option Text → Bool
is_pending_text none = false
is_pending_text (some t) = text_eq t (codes "pending")

abbrev pub waits_for_cert : DomainDto → Bool
waits_for_cert d =
    text_eq d.use_https (codes "yes")
    && (is_pending_text d.cert_status || is_pending_text d.x_cert_request_state)

unfoldable pub has_pending_cert : ServiceDto → Bool
has_pending_cert service = any waits_for_cert service.domains

-- `status === "running" || status === "sleeping"`
abbrev pub is_up : Status → Bool
is_up running = true
is_up sleeping = true
is_up _ = false

abbrev pub is_pending : Status → Bool
is_pending pending = true
is_pending _ = false

abbrev pub is_stopped : Status → Bool
is_stopped stopped = true
is_stopped _ = false

abbrev pub is_running : Status → Bool
is_running running = true
is_running _ = false

-- `isRunning`, `isPending` and `isStopped` of the card.
unfoldable pub card_started : ServiceDto → Bool
card_started service = is_up service.status && not (has_pending_cert service)

unfoldable pub card_waiting : ServiceDto → Bool
card_waiting service =
    is_pending service.status || (is_up service.status && has_pending_cert service)

abbrev pub card_off : Status → Bool
card_off stopped = true
card_off idle = true
card_off _ = false

abbrev pub card_label : Status → Text
card_label running = codes "Running"
card_label sleeping = codes "Sleeping"
card_label pending = codes "Pending"
card_label idle = codes "Idle"
card_label failure = codes "Failure"
card_label stopped = codes "Stopped"
card_label restoring = codes "Restoring"

unfoldable pub card_status_label : ServiceDto → Text
card_status_label service =
    if has_pending_cert service && is_up service.status
    then codes "Pending SSL"
    else card_label service.status

unfoldable pub card_offers : ServiceDto → Button → Bool
card_offers service clone = card_off service.status
card_offers service start = card_off service.status
card_offers service stop = card_started service
card_offers service _ = false

-- The link to the administration: the first URL, while the service is up.
unfoldable pub admin_url : ServiceDto → List Text → Option Text
admin_url service [] = none
admin_url service (url ∷ urls) = if card_started service then some url else none

-- `isStopped` of the section: a failed service is off here.
abbrev pub general_off : Status → Bool
general_off stopped = true
general_off idle = true
general_off failure = true
general_off _ = false

-- `status.charAt(0).toUpperCase() + status.slice(1)`, for a status in lower case
abbrev pub capital : Text → Text
capital [] = []
capital (c ∷ s) = (c - 32) ∷ s

unfoldable pub general_status_label : Status → Text
general_status_label status = capital (status_text status)

abbrev pub can_delete : Status → Bool
can_delete status = general_off status

unfoldable pub general_offers : Status → Bool → Button → Bool
general_offers status is_command_pending start = general_off status && not is_command_pending
general_offers status is_command_pending restart = is_up status && not is_command_pending
general_offers status is_command_pending stop = is_up status && not is_command_pending
general_offers status is_command_pending clone = general_off status
general_offers status is_command_pending change_password = general_off status
general_offers status is_command_pending delete = can_delete status
general_offers status is_command_pending _ = false

-- `canCreate` is `isStopped`; each mutation has its own flag `isPending`.
pub record PendingCalls : Type 0 where
  pub command_pending : Bool
  pub create_pending : Bool
  pub restore_pending : Bool
  pub download_pending : Bool
  pub delete_pending : Bool

-- The buttons of a row.
abbrev pub row_offers : Status → PendingCalls → Button → Bool
row_offers status p download_snapshot = not p.download_pending
row_offers status p restore_snapshot = not (p.restore_pending || not (is_stopped status))
row_offers status p delete_snapshot = not p.delete_pending
row_offers status p _ = false

unfoldable pub snapshots_offers : Status → PendingCalls → Button → Bool
snapshots_offers status p stop =
    not (is_stopped status) && not (p.command_pending || is_pending status)
snapshots_offers status p start = is_stopped status && not (p.command_pending || is_pending status)
snapshots_offers status p restart =
    not (p.command_pending || (is_pending status || not (is_running status)))
snapshots_offers status p create_snapshot = not (not (is_stopped status) || p.create_pending)
snapshots_offers status p stop_now = not (is_stopped status) && not p.command_pending
snapshots_offers status p b = row_offers status p b

pub data StatusFilter : Type 0 where
  all_services running_only stopped_only : StatusFilter

abbrev pub has_status : StatusFilter → ServiceDto → Bool
has_status all_services service = true
has_status running_only service = is_running service.status
has_status stopped_only service = is_stopped service.status

module _ (lower : Text → Text) where
  abbrev pub matches_query : Text → ServiceDto → Bool
  matches_query query service =
      includes service.id (lower query) || includes (lower service.name) (lower query)

  unfoldable pub filtered : Text → StatusFilter → List ServiceDto → List ServiceDto
  filtered query status_filter services =
      filter (has_status status_filter) (filter (matches_query query) services)
