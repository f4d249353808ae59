-- ===== src/Cards/Offered.antt =====
-- The buttons of the card, the general section and the snapshots section of a service, compared.
use pb_launcher.Prelude.{
  Text, List, [], ◌∷◌, Bool, true, false, not, ◌||◌, ◌≡◌, refl, arith, filter, All, Bool-cases, inl,
  inr, or_true, ◌≢◌, ◌↔◌,
}
use pb_launcher.Collections.{ServiceDto}
use pb_launcher.Collections.Records.{
  Status, idle, pending, running, stopped, failure, restoring, sleeping,
}
use pb_launcher.Cards.{
  Button, start, stop, clone, change_password, delete, create_snapshot, restore_snapshot, restart,
  stop_now, download_snapshot, delete_snapshot, has_pending_cert, running_only, stopped_only,
  filtered, matches_query, card_offers, general_offers, snapshots_offers, PendingCalls,
  card_started,
}

-- The service neither runs nor is on its way to another status.
abbrev pub IsAtRest : Status → Type 0
IsAtRest idle = Unit
IsAtRest stopped = Unit
IsAtRest failure = Unit
IsAtRest _ = ⊥

abbrev pub IsUp : Status → Type 0
IsUp running = Unit
IsUp sleeping = Unit
IsUp _ = ⊥

-- The statuses for each action. For a snapshot the back end requires a service that is stopped, and
-- nothing else (`CreateSnapshot` and `RestoreSnapshot` of internal/backup/manager.go).
abbrev pub IsAllowed : Button → Status → Type 0
IsAllowed create_snapshot s = s ≡ stopped
IsAllowed restore_snapshot s = s ≡ stopped
IsAllowed start s = IsAtRest s
IsAllowed clone s = IsAtRest s
IsAllowed change_password s = IsAtRest s
IsAllowed delete s = IsAtRest s
IsAllowed restart s = IsUp s
IsAllowed stop s = (s ≢ stopped) × (s ≢ pending)
IsAllowed stop_now s = s ≢ stopped
IsAllowed download_snapshot s = Unit
IsAllowed delete_snapshot s = Unit

general_offers-IsAllowed :
    (b : Button) (s : Status) (c : Bool) → general_offers s c b ≡ true → IsAllowed b s
unfolding general_offers
general_offers-IsAllowed b s c h = ground arith

snapshots_offers-IsAllowed :
    (b : Button) (s : Status) (p : PendingCalls) → snapshots_offers s p b ≡ true → IsAllowed b s
unfolding snapshots_offers
snapshots_offers-IsAllowed b s p h = ground arith

general_clone_iff : (s : Status) (c : Bool) → (general_offers s c clone ≡ true) ↔ IsAtRest s
unfolding general_offers
general_clone_iff idle c = (λ h. tt, λ h. refl)
general_clone_iff pending c = (λ h. cc, λ h. absurd h)
general_clone_iff running c = (λ h. cc, λ h. absurd h)
general_clone_iff stopped c = (λ h. tt, λ h. refl)
general_clone_iff failure c = (λ h. tt, λ h. refl)
general_clone_iff restoring c = (λ h. cc, λ h. absurd h)
general_clone_iff sleeping c = (λ h. cc, λ h. absurd h)

-- Where the card offers something, the general section does.
card_general :
    (service : ServiceDto) (b : Button)
    → card_offers service b ≡ true
    → general_offers service.status false b ≡ true
unfolding card_offers general_offers card_started
card_general service b h = ground arith

-- The card, the general section and the snapshots section offer to make or restore a snapshot of
-- a service that is stopped only; to start, clone or delete it or change its password only if it is
-- stopped, idle or has failed; to restart it only if it runs or sleeps; to stop it only if it is
-- neither stopped nor pending; and to stop it at once only if it is not stopped. The general section
-- offers to clone a service exactly if it is stopped, idle or has failed.
pub offered-IsAllowed :
    (service : ServiceDto) (b : Button) (c : Bool) (p : PendingCalls)
    → (card_offers service b
        || (general_offers service.status c b || snapshots_offers service.status p b))
      ≡ true
    → IsAllowed b service.status
      × ((general_offers service.status c clone ≡ true) ↔ IsAtRest service.status)
offered-IsAllowed service b c p h = (allowed, general_clone_iff service.status c)
  where
    allowed : IsAllowed b service.status
    allowed = elim (or_true _ _ h) [
      | inl card ↦ general_offers-IsAllowed b service.status false (card_general service b card)
      | inr rest ↦ elim (or_true _ _ rest) [
        | inl general ↦ general_offers-IsAllowed b service.status c general
        | inr snapshots ↦ snapshots_offers-IsAllowed b service.status p snapshots
      ]
    ]

abbrev pub IsOnCard : Button → Type 0
IsOnCard start = Unit
IsOnCard stop = Unit
IsOnCard clone = Unit
IsOnCard _ = ⊥

card_offers-failure :
    (service : ServiceDto) (b : Button)
    → card_offers service b ≡ true
    → (service.status ≢ failure) × (b ≡ stop → has_pending_cert service ≡ false)
unfolding card_offers card_started
card_offers-failure service b h = ground arith

general_card :
    (service : ServiceDto) (b : Button)
    → IsOnCard b
    → general_offers service.status false b ≡ true
    → service.status ≢ failure
    → (b ≡ stop → has_pending_cert service ≡ false)
    → card_offers service b ≡ true
unfolding card_offers card_started general_offers
general_card service b o h f c = ground (arith, c)

-- While no command is on its way, the card offers to start, stop or clone a service exactly if the
-- general section does, the service has not failed, and, for stopping it, no certificate of its
-- domains is on its way.
pub card_offers_iff :
    (service : ServiceDto) (b : Button)
    → IsOnCard b
    → (card_offers service b ≡ true) ↔ (
        (general_offers service.status false b ≡ true)
        × ((service.status ≢ failure) × (b ≡ stop → has_pending_cert service ≡ false)))
card_offers_iff service b o = (
  λ h. (card_general service b h, card_offers-failure service b h),
  λ h. general_card service b o h.0 h.1.0 h.1.1,
)

All-filter {ℓ κ} :
    {A : Type ℓ} (P : A → Type κ) (p : A → Bool) (xs : List A)
    → ((x : A) → p x ≡ true → P x)
    → All P (filter p xs)
All-filter P p [] h = tt
All-filter P p (x ∷ xs) h = elim (Bool-cases (p x)) [
  | inl e ↦ rw e (h x e, All-filter P p xs h)
  | inr e ↦ rw e (All-filter P p xs h)
]

module _ (lower : Text → Text) where
  -- Whatever is searched for, each card listed as stopped offers to start and to clone its service,
  -- and each card listed as running offers to stop it, unless it waits for a certificate.
  pub filtered-card_offers :
      (query : Text) (services : List ServiceDto)
      → All
          (λ s. (card_offers s start ≡ true) × (card_offers s clone ≡ true))
          (filtered lower query stopped_only services)
        × All
            (λ s. card_offers s stop ≡ not (has_pending_cert s))
            (filtered lower query running_only services)
  unfolding filtered card_offers card_started
  filtered-card_offers query services = (
    All-filter _ _ (filter (matches_query lower query) services) (λ s h. ground arith),
    All-filter _ _ (filter (matches_query lower query) services) (λ s h. ground arith),
  )
