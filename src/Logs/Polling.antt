-- ===== src/Logs/Polling.antt =====
-- The log view over what arrives.
use mathlib.Core.Path.{subst}
use pb_launcher.Prelude.{
  List, [], ◌∷◌, Bool, false, not, All, ◌≡◌, refl, sym, if◌then◌else◌, Bool-cases, inl, inr,
}
use pb_launcher.Logs.{
  View, Event, loaded, load_failed, polled, poll_failed, scrolled, chosen, cleaned, mounted,
  near_bottom, next, run,
}
use pb_launcher.Logs.Merge.{IsUnique, merge_logs_unique-IsUnique}

-- The answers of the service have no id twice.
abbrev pub IsAnswer : Event → Type 0
IsAnswer (loaded ls) = IsUnique ls
IsAnswer (polled c ls) = IsUnique ls
IsAnswer load_failed = Unit
IsAnswer poll_failed = Unit
IsAnswer (scrolled c) = Unit
IsAnswer (chosen f) = Unit
IsAnswer cleaned = Unit

next-IsUnique : (v : View) (e : Event) → IsUnique v.logs → IsAnswer e → IsUnique (next v e).logs
unfolding next
next-IsUnique v (loaded ls) u a = elim (Bool-cases v.is_active) [ inl t ↦ rw t a | inr f ↦ rw f u ]
next-IsUnique v load_failed u a = u
next-IsUnique v (polled c ls) u a = elim (Bool-cases v.is_active) [
  | inl t ↦ rw t (merge_logs_unique-IsUnique v.logs ls u a)
  | inr f ↦ rw f u
]
next-IsUnique v poll_failed u a = elim (Bool-cases v.is_active) [ inl t ↦ rw t u | inr f ↦ rw f u ]
next-IsUnique v (scrolled c) u a = u
next-IsUnique v (chosen f) u a = u
next-IsUnique v cleaned u a = u

run_from :
    (v : View) (es : List Event) → IsUnique v.logs → All IsAnswer es → IsUnique (run v es).logs
unfolding run
run_from v [] u a = u
run_from v (e ∷ es) u (ae, a) = run_from (next v e) es (next-IsUnique v e u ae) a

-- In whatever order the first load, the rounds of the loop, failures and clicks come, no line is
-- shown twice, provided that no single answer has an id twice.
pub run-IsUnique : (es : List Event) → All IsAnswer es → IsUnique (run mounted es).logs
run-IsUnique es a = run_from mounted es tt a

skip : (b : Bool) (x y : View) → b ≡ false → (if not b then x else y) ≡ x
skip b x y e = rw e refl

-- What an event that comes to a view without its effect does to the lines, the connection and the
-- loop: nothing.
abbrev Still : View → View → Type 0
Still v w = (w.logs ≡ v.logs) × (w.connected ≡ v.connected) × (w.scheduled ≡ false)

stays :
    (v : View) (es : List Event) → v.is_active ≡ false → v.scheduled ≡ false → Still v (run v es)
unfolding run next
stays v [] h k = (refl, refl, k)
stays v (loaded ls ∷ es) h k =
    subst (λ w. Still v (run w es)) (sym (skip v.is_active v _ h)) (stays v es h k)
stays v (load_failed ∷ es) h k = stays v es h k
stays v (polled c ls ∷ es) h k =
    subst (λ w. Still v (run w es)) (sym (skip v.is_active v _ h)) (stays v es h k)
stays v (poll_failed ∷ es) h k =
    subst (λ w. Still v (run w es)) (sym (skip v.is_active v _ h)) (stays v es h k)
stays v (scrolled c ∷ es) h k = stays (record v { should_scroll = near_bottom c }) es h k
stays v (chosen f ∷ es) h k = stays (record v { stream_filter = f }) es h k
stays v (cleaned ∷ es) h k = stays (record v { is_active = false; scheduled = false }) es refl refl

-- After the clean-up no answer that is still under way changes the lines or the connection, and no
-- round is scheduled again.
pub run_cleaned :
    (v : View) (es : List Event)
    → ((run v (cleaned ∷ es)).logs ≡ v.logs)
      × ((run v (cleaned ∷ es)).connected ≡ v.connected)
      × ((run v (cleaned ∷ es)).scheduled ≡ false)
unfolding run next
run_cleaned v es = stays (record v { is_active = false; scheduled = false }) es refl refl
