-- ===== src/Console/Ready.antt =====
-- Whatever happens, the console takes the next command after an answer.
use pb_launcher.Prelude.{
  Text, List, [], ◌∷◌, ◌++◌, join, All, Bool, true, false, Option, none, some, ◌≡◌, ◌≢◌, ap, sym,
  ◌∙◌, refl, trim, text_eq, Bool-cases, inl, inr, if◌then◌else◌,
}
use pb_launcher.Http.{Outcome, Thrown}
use pb_launcher.Console.{
  Console, opened, Event, typed, submit, answered, clear, CliResult, handle_send_command, next, run,
}
use pb_launcher.Console.Words.{IsWord, split-join}

abbrev pub is_running : Option (List Text) → Bool
is_running none = false
is_running (some parts) = true

-- The spinner is there exactly while a command has no answer.
abbrev IsHonest : Console → Type 0
IsHonest c = c.loading ≡ is_running c.running

if_Honest : (b : Bool) (x y : Console) → IsHonest x → IsHonest y → IsHonest (if b then x else y)
if_Honest true x y h k = h
if_Honest false x y h k = k

handle-IsHonest : (c : Console) (t : Text) → IsHonest c → IsHonest (handle_send_command c t)
unfolding handle_send_command
handle-IsHonest c t h = elim (Bool-cases (text_eq (trim t) [])) [
  | inl e ↦ rw e h
  | inr e ↦ rw e refl
]

join_full : (w : Text) (ws : List Text) → w ≢ [] → text_eq (join (w ∷ ws) b' ') [] ≡ false
join_full [] ws h = absurd (h refl)
join_full (c ∷ w) [] h = refl
join_full (c ∷ w) (v ∷ ws) h = refl

module _ (message_of : Thrown → Text) where
  answer_ready :
      (c : Console) (r : Outcome CliResult) (o : Option (List Text))
      → c.running ≡ o
      → IsHonest c
      → let d = next message_of c (answered r) in
        (d.loading ≡ false) × (d.running ≡ none) × (d.calls ≡ c.calls)
  unfolding next
  answer_ready c r none e h = (rw e (h ∙ ap is_running e), rw e refl, rw e refl)
  answer_ready c r (some parts) e h = (rw e refl, rw e refl, rw e refl)

  next-IsHonest : (c : Console) (v : Event) → IsHonest c → IsHonest (next message_of c v)
  unfolding next
  next-IsHonest c (typed t) h = if_Honest c.loading _ _ h h
  next-IsHonest c submit h = if_Honest c.loading _ _ h (handle-IsHonest c c.command h)
  next-IsHonest c (answered r) h =
      let (l, n, same) = answer_ready c r c.running refl h in l ∙ ap is_running (sym n)
  next-IsHonest c clear h = h

  run-IsHonest : (c : Console) (vs : List Event) → IsHonest c → IsHonest (run message_of c vs)
  unfolding run
  run-IsHonest c [] h = h
  run-IsHonest c (v ∷ vs) h = run-IsHonest (next message_of c v) vs (next-IsHonest c v h)

  abbrev Sends : Console → Text → List Text → Type 0
  Sends c t ws =
      let sent = next message_of (next message_of c (typed t)) submit in
      (sent.running ≡ some ws) × (sent.calls ≡ c.calls ++ ws ∷ [])

  ready-Sends :
      (c : Console) (t w : Text) (ws : List Text)
      → c.loading ≡ false
      → All IsWord (w ∷ ws)
      → trim t ≡ join (w ∷ ws) b' '
      → Sends c t (w ∷ ws)
  unfolding next handle_send_command
  ready-Sends c t w ws l h e =
      rw (l, e, join_full w ws h.0.some_text, split-join w ws h) (refl, refl)

  -- After any events, once a command that is still running is answered, by a result or by an error,
  -- the spinner is gone, and words that are then typed, with one blank between them and any
  -- around them, are sent as the arguments of the next command, the only one after those before.
  pub answered_sends :
      (name : Text) (vs : List Event) (r : Outcome CliResult) (t w : Text) (ws : List Text)
      → All IsWord (w ∷ ws)
      → trim t ≡ join (w ∷ ws) b' '
      → let c = run message_of (opened name) vs in
        let ready = next message_of c (answered r) in
        let sent = next message_of (next message_of ready (typed t)) submit in
        (ready.loading ≡ false)
        × (sent.running ≡ some (w ∷ ws))
        × (sent.calls ≡ c.calls ++ (w ∷ ws) ∷ [])
  answered_sends name vs r t w ws h e =
      let c = run message_of (opened name) vs in
      let (l, n, same) = answer_ready c r c.running refl (run-IsHonest (opened name) vs refl) in
      let (runs, called) = ready-Sends (next message_of c (answered r)) t w ws l h e in
      (l, runs, called ∙ ap (λ cs. cs ++ (w ∷ ws) ∷ []) same)
