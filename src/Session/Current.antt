-- ===== src/Session/Current.antt =====
-- When the user of the session is the one of the store.
use pb_launcher.Prelude.{
  ℕ, zero, suc, ◌≤◌, ◌≡◌, refl, List, [], ◌∷◌, true, false, none, ◌⊎◌, inl, inr, arith, Bool-cases,
}
use pb_launcher.Session.{
  AuthStore, Session, Event, changed, fired, run_again, first_session, run_effect, fire, next, run,
  opened,
}

-- With no timer left the user is that of the store, or nobody while the store is as it was at first
-- and not valid; and the token is refreshed once at most.
record IsCurrent (first : AuthStore) (s : Session) : Type 0 where
  pub copied :
      s.timers ≡ 0
      → (s.user ≡ s.auth_store.user_record)
        ⊎ ((s.user ≡ none) × ((s.auth_store ≡ first) × (first.is_valid ≡ false)))
  pub once : (s.refreshes ≤ 1) × (s.ensure_once ≡ true → s.refreshes ≡ 0)

effect-IsCurrent :
    (first : AuthStore) (s : Session) → IsCurrent first s → IsCurrent first (run_effect s)
unfolding run_effect
effect-IsCurrent first s c = elim (Bool-cases s.auth_store.is_valid) [
  | inl v ↦ elim (Bool-cases s.ensure_once) [
    | inl o ↦ rw (v, o) (record { copied = λ h. inl refl; once = ground (arith, c.once) })
    | inr o ↦ rw (v, o) (record { copied = λ h. inl refl; once = ground (arith, c.once, o) })
  ]
  | inr v ↦ elim (Bool-cases s.ensure_once) [
    | inl o ↦ simp (v, o) (record { copied = c.copied; once = ground (arith, c.once) })
    | inr o ↦ simp (v, o) (record { copied = c.copied; once = c.once })
  ]
]

fire-IsCurrent :
    (first : AuthStore) (n : ℕ) (s : Session) → IsCurrent first s → IsCurrent first (fire n s)
fire-IsCurrent first zero s c = c
fire-IsCurrent first (suc n) s c = record { copied = λ h. inl refl; once = c.once }

next-IsCurrent :
    (first : AuthStore) (s : Session) (e : Event) → IsCurrent first s → IsCurrent first (next s e)
unfolding next
next-IsCurrent first s (changed store) c = record {
  copied = λ h. absurd (omega (arith, h));
  once = c.once;
}
next-IsCurrent first s fired c = fire-IsCurrent first s.timers s c
next-IsCurrent first s run_again c = effect-IsCurrent first s c

run-IsCurrent :
    (first : AuthStore) (s : Session) (es : List Event)
    → IsCurrent first s
    → IsCurrent first (run s es)
unfolding run
run-IsCurrent first s [] c = c
run-IsCurrent first s (e ∷ es) c = run-IsCurrent first (next s e) es (next-IsCurrent first s e c)

first-IsCurrent : (store : AuthStore) → IsCurrent store (first_session store)
first-IsCurrent store = elim (Bool-cases store.is_valid) [
  | inl v ↦ rw v (record { copied = λ h. inl refl; once = (omega arith, λ h. refl) })
  | inr v ↦ simp v (record { copied = λ h. inr (refl, (refl, v)); once = (omega arith, λ h. refl) })
]

-- Whatever logins, refreshes and logouts change the store, when every timer has fired the user of
-- the session is the one of the store, or there is none while the store has not changed since the
-- page was opened with a token that was not valid; and the token is refreshed at most once.
pub run_current :
    (store : AuthStore) (es : List Event)
    → (run (opened store) es).timers ≡ 0
    → (((run (opened store) es).user ≡ (run (opened store) es).auth_store.user_record)
        ⊎ (((run (opened store) es).user ≡ none)
            × (((run (opened store) es).auth_store ≡ store) × (store.is_valid ≡ false))))
      × ((run (opened store) es).refreshes ≤ 1)
run_current store es h =
    let c =
      run-IsCurrent store (opened store) es
        (effect-IsCurrent store (first_session store) (first-IsCurrent store)) in
    (c.copied h, c.once.0)
