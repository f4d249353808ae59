-- ===== src/Examples/Questions.antt =====
-- The question before a command at concrete clicks.
use pb_launcher.Prelude.{codes, List, [], ◌∷◌, ◌≡◌, ◌⊎◌, refl, true, false}
use pb_launcher.Collections.Writes.{start, stop}
use pb_launcher.Confirm.{
  Asked, Click, command, handle_delete, handle_start, ask, handle_confirm, handle_cancel, title_of,
  message_of, sent_of, execute_command, closed_modal, click, clicks,
}
use pb_launcher.Confirm.Answered.{Answers, clicks_answered}

abbrev session : List Click
session =
    handle_start (codes "a")
    ∷ ask (record { kind = handle_delete; service_id = codes "a" })
    ∷ handle_cancel
    ∷ execute_command (codes "b") stop
    ∷ handle_confirm
    ∷ handle_confirm
    ∷ ask (record { kind = handle_delete; service_id = codes "b" })
    ∷ []

session_run :
    (clicks closed_modal session).sent ≡ command (codes "a") start ∷ command (codes "b") stop ∷ []
unfolding clicks click
session_run = refl

clicks_answered_example :
    (((clicks closed_modal session).is_open ≡ true)
      × ((a : Asked) × (((clicks closed_modal session).title ≡ title_of a.kind)
            × ((clicks closed_modal session).message ≡ message_of a.kind)
            × Answers (clicks closed_modal session) (sent_of a ∷ []))))
    ⊎ (((clicks closed_modal session).is_open ≡ false) × Answers (clicks closed_modal session) [])
clicks_answered_example = clicks_answered session
