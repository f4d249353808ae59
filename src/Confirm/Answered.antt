-- ===== src/Confirm/Answered.antt =====
-- What the buttons of the question do.
use mathlib.Core.List.{append-nil}
use pb_launcher.Prelude.{List, [], ◌∷◌, ◌++◌, Bool, true, false, ◌⊎◌, inl, inr, ◌≡◌, refl, ap, ◌∙◌}
use pb_launcher.Confirm.{
  Sent, Asked, Modal, Click, handle_start, ask, handle_confirm, handle_cancel, Resolve, initial,
  waits, settled, title_of, message_of, sent_of, sent_by, settle, closed_modal, click, clicks,
}

-- An open modal shows the question of a handler that awaits it; with a closed one nobody waits.
abbrev pub IsAsking : Modal → Type 0
IsAsking m =
    (m.is_open ≡ true)
    × ((a : Asked) × ((m.resolve ≡ waits a)
          × (m.title ≡ title_of a.kind)
          × (m.message ≡ message_of a.kind)))

abbrev pub IsIdle : Modal → Type 0
IsIdle m = (m.is_open ≡ false) × ((value : Bool) → sent_by m.resolve value ≡ [])

none_settled : (r : Resolve) (value : Bool) → sent_by (settle r) value ≡ []
none_settled initial value = refl
none_settled (waits a) value = refl
none_settled (settled a) value = refl

click-IsAsking :
    (m : Modal) (c : Click) → IsAsking m ⊎ IsIdle m → IsAsking (click m c) ⊎ IsIdle (click m c)
unfolding click
click-IsAsking m (handle_start s) (inl h) = inl h
click-IsAsking m (handle_start s) (inr h) = inr h
click-IsAsking m (ask a) h = inl (refl, (a, (refl, refl, refl)))
click-IsAsking m handle_confirm h = inr (refl, none_settled m.resolve)
click-IsAsking m handle_cancel h = inr (refl, none_settled m.resolve)

clicks_from :
    (m : Modal) (cs : List Click)
    → IsAsking m ⊎ IsIdle m
    → IsAsking (clicks m cs) ⊎ IsIdle (clicks m cs)
unfolding clicks
clicks_from m [] h = h
clicks_from m (c ∷ cs) h = clicks_from (click m c) cs (click-IsAsking m c h)

-- What is sent by a confirmation and by a cancellation.
abbrev pub Answers : Modal → List Sent → Type 0
Answers m done =
    ((click m handle_confirm).sent ≡ m.sent ++ done) × ((click m handle_cancel).sent ≡ m.sent)

asking-Answers : (m : Modal) (a : Asked) → m.resolve ≡ waits a → Answers m (sent_of a ∷ [])
unfolding click
asking-Answers m a e = (
  ap (λ r. m.sent ++ sent_by r true) e,
  ap (λ r. m.sent ++ sent_by r false) e ∙ append-nil m.sent,
)

idle-Answers : (m : Modal) → ((value : Bool) → sent_by m.resolve value ≡ []) → Answers m []
unfolding click
idle-Answers m idle =
    (ap (λ s. m.sent ++ s) (idle true), ap (λ s. m.sent ++ s) (idle false) ∙ append-nil m.sent)

-- After any clicks, either the modal is open with the title and the message of one handler, whose
-- command or deletion a confirmation sends once and a cancellation does not, or it is closed and
-- neither button sends anything.
pub clicks_answered :
    (cs : List Click)
    → (((clicks closed_modal cs).is_open ≡ true)
        × ((a : Asked) × (((clicks closed_modal cs).title ≡ title_of a.kind)
              × ((clicks closed_modal cs).message ≡ message_of a.kind)
              × Answers (clicks closed_modal cs) (sent_of a ∷ []))))
      ⊎ (((clicks closed_modal cs).is_open ≡ false) × Answers (clicks closed_modal cs) [])
clicks_answered cs = elim (clicks_from closed_modal cs (inr (refl, λ v. refl))) [
  | inl (o, (a, (r, t, s))) ↦ inl (o, (a, (t, s, asking-Answers (clicks closed_modal cs) a r)))
  | inr (o, idle) ↦ inr (o, idle-Answers (clicks closed_modal cs) idle)
]
