-- ===== src/Repositories/Saved.antt =====
-- What the form of a repository writes.
use pb_launcher.Prelude.{
  ℕ, ◌≡◌, refl, Text, codes, List, [], ◌∷◌, true, false, some, text_eq, arith, Option-cases, inl,
  inr,
}
use pb_launcher.Prelude.Int.{pos}
use pb_launcher.Http.{Outcome}
use pb_launcher.Http.Values.{Json, Fields, string, number, object, field, end, lookup_field}
use pb_launcher.Collections.Records.{Sdk}
use pb_launcher.Repositories.{
  SyncStatus, RepositoryPayload, RepositoryDto, FormState, Edit, set_value, set_retention,
  default_repository_id, at_least_one, first_state, edited, save_repository, update_repository,
  saved_fields, spread_fields, status_text,
}

edited-spread :
    (number_of : Text → ℕ) (s : FormState) (es : List Edit)
    → (edited number_of s es).spread ≡ s.spread
unfolding edited
edited-spread number_of s [] = refl
edited-spread number_of s (e ∷ es) =
    edited-spread number_of (record s { payload = set_value number_of s.payload e }) es

lookup_status :
    (r : RepositoryDto) (s : SyncStatus)
    → r.last_sync_status ≡ some s
    → lookup_field (spread_fields (some r)) (codes "last_sync_status") ≡ string (status_text s)
lookup_status r s k = elim (Option-cases r.last_sync_at) [
  | inl e ↦ rw (e, k) refl
  | inr (t, e) ↦ rw (e, k) refl
]

first_state-spread : (r : RepositoryDto) → (first_state (some r)).spread ≡ some r
unfolding first_state
first_state-spread r = refl

at_least_one_again : (n : ℕ) → at_least_one (at_least_one n) ≡ at_least_one n
at_least_one_again n = ground arith

module _ (number_of : Text → ℕ) (sdk : Sdk) where
  abbrev pub saved : RepositoryDto → List Edit → Outcome Json
  saved r es = save_repository sdk (some r) (edited number_of (first_state (some r)) es)

  -- What is typed last as the retention, or what it was before.
  abbrev pub typed_retention : ℕ → Edit → ℕ
  typed_retention n (set_retention v) = number_of v
  typed_retention n _ = n

  abbrev pub last_retention : ℕ → List Edit → ℕ
  last_retention n [] = n
  last_retention n (e ∷ es) = last_retention (typed_retention n e) es

  set_value-retention :
      (p : RepositoryPayload) (n : ℕ) (e : Edit)
      → at_least_one p.retention ≡ at_least_one n
      → at_least_one (set_value number_of p e).retention ≡ at_least_one (typed_retention n e)
  unfolding set_value
  set_value-retention p n (set_retention v) h = at_least_one_again (number_of v)
  set_value-retention p n _ h = h

  edited-retention :
      (s : FormState) (n : ℕ) (es : List Edit)
      → at_least_one s.payload.retention ≡ at_least_one n
      → at_least_one (edited number_of s es).payload.retention ≡ at_least_one (last_retention n es)
  unfolding edited
  edited-retention s n [] h = h
  edited-retention s n (e ∷ es) h =
      edited-retention (record s { payload = set_value number_of s.payload e })
        (typed_retention n e) es (set_value-retention s.payload n e h)

  first-retention :
      (r : RepositoryDto)
      → at_least_one (first_state (some r)).payload.retention ≡ at_least_one r.payload.retention
  unfolding first_state
  first-retention r = at_least_one_again r.payload.retention

  -- Whatever is typed, saving the form of the default repository updates it with its retention only,
  -- which is what was typed last for it, or what it was, and 1 instead of 0.
  pub default_saved :
      (r : RepositoryDto) (es : List Edit)
      → text_eq r.id default_repository_id ≡ true
      → saved r es
        ≡ update_repository sdk r.id (
            object (
              field
                (codes "retention")
                (number (pos (at_least_one (last_retention r.payload.retention es))))
                end))
  unfolding save_repository
  default_saved r es h =
      rw (h, edited-retention (first_state (some r)) r.payload.retention es (first-retention r))
        refl

  -- Whatever is typed, saving the form of another repository writes back the state of its
  -- synchronisation as it was when the form was opened.
  pub saved_status :
      (r : RepositoryDto) (es : List Edit) (s : SyncStatus)
      → text_eq r.id default_repository_id ≡ false
      → r.last_sync_status ≡ some s
      → (fs : Fields) × ((saved r es ≡ update_repository sdk r.id (object fs))
          × (lookup_field fs (codes "last_sync_status") ≡ string (status_text s)))
  unfolding save_repository
  saved_status r es s h k = (
    saved_fields (edited number_of (first_state (some r)) es),
    (
      rw h refl,
      rw (edited-spread number_of (first_state (some r)) es, first_state-spread r)
          (lookup_status r s k),
    ),
  )
