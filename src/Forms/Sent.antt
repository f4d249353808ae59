-- ===== src/Forms/Sent.antt =====
-- What the forms send.
use pb_launcher.Prelude.{
  ℕ, Text, [], ◌∷◌, Bool, true, false, ◌&&◌, not, Option, none, some, text_eq, text_eq→eq, trim,
  trim_again, ◌≡◌, ◌≢◌, ◌≤◌, leb, length, refl, ap, arith, Bool-cases, inl, inr, if◌then◌else◌,
}
use pb_launcher.Http.{Fetch, Client, Outcome}
use pb_launcher.Http.Values.{Json}
use pb_launcher.Url.{is_truthy}
use pb_launcher.Services.Backup.{restore_backup, clone_service, create_snapshot}
use pb_launcher.Services.System.{upsert_superuser}
use pb_launcher.Forms.{
  ignored, calls, with_name, is_valid, submit_snapshot, submit_restore, submit_clone,
  submit_password,
}

-- The call is made with a name that is not empty and has no blanks around it.
abbrev pub SendsName : (Text → Outcome Json) → Outcome Json → Type 0
SendsName call o = (n : Text) × ((n ≢ []) × (trim n ≡ n) × (o ≡ call n))

calls-inj : (a b : Outcome Json) → calls a ≡ calls b → b ≡ a
calls-inj a b h = cc

name_sent :
    (m name : Text) (call : Text → Outcome Json) (o : Outcome Json)
    → with_name m name call ≡ calls o
    → SendsName call o
unfolding with_name
name_sent m name call o h = elim (Bool-cases (text_eq (trim name) [])) [
  | inl e ↦ cc (rw e at h)
  | inr e ↦ (
    trim name,
    ((λ k. cc (e, ap (λ t. text_eq t []) k)), trim_again name, calls-inj _ o (rw e at h)),
  )
]

valid_sent :
    (b : Bool) (x o : Outcome Json)
    → (if b then calls x else ignored) ≡ calls o
    → (b ≡ true) × (o ≡ x)
valid_sent true x o h = (refl, calls-inj x o h)
valid_sent false x o h = cc

and_parts : (a b : Bool) → a && b ≡ true → (a ≡ true) × (b ≡ true)
and_parts true b h = (refl, h)
and_parts false b h = cc

long_enough : (n : ℕ) → leb 8 n ≡ true → 8 ≤ n
long_enough n h = ground (arith, h)

confirmed :
    (password confirm : Text)
    → confirm ≢ []
    → not (is_truthy confirm && not (text_eq password confirm)) ≡ true
    → password ≡ confirm
confirmed password [] k h = absurd (k refl)
confirmed password (c ∷ confirm) k h = text_eq→eq password (c ∷ confirm) (not_not _ h)
  where
    not_not : (b : Bool) → not (not b) ≡ true → b ≡ true
    not_not true h = refl
    not_not false h = cc

module _ (pb : Client) (fetch : Fetch) where
  restore_sent :
      (file : Option Text) (name : Text) (o : Outcome Json)
      → submit_restore pb fetch file name ≡ calls o
      → (f : Text) × ((file ≡ some f) × SendsName (restore_backup pb fetch f) o)
  unfolding submit_restore
  restore_sent none name o h = cc
  restore_sent (some f) name o h = (f, (refl, name_sent _ name (restore_backup pb fetch f) o h))

  password_sent :
      (id password confirm : Text) (o : Outcome Json)
      → submit_password pb fetch id password confirm ≡ calls o
      → (8 ≤ length password)
        × (confirm ≢ [] → password ≡ confirm)
        × (o ≡ upsert_superuser pb fetch id (some password))
  unfolding submit_password
  password_sent id password confirm o h =
      let (valid, same) = valid_sent (is_valid pb fetch password confirm) _ o h in
      let (long, no_error) = and_parts _ _ valid in
      (long_enough (length password) long, (λ k. confirmed password confirm k no_error), same)

  -- The calls that the forms make, for a snapshot, for a backup of which a file is chosen and for a
  -- clone, have a name that is not empty and has no blanks around it; a password is sent as it was
  -- typed, of eight characters at least and equal to its confirmation, unless that is empty.
  pub forms_sent :
      (id name comment password confirm : Text) (file : Option Text) (o : Outcome Json)
      → (submit_snapshot pb fetch id name comment ≡ calls o
          → SendsName (λ n. create_snapshot pb fetch id n (some (trim comment))) o)
        × (submit_clone pb fetch id name ≡ calls o → SendsName (clone_service pb fetch id) o)
        × (submit_restore pb fetch file name ≡ calls o
            → (f : Text) × ((file ≡ some f) × SendsName (restore_backup pb fetch f) o))
        × (submit_password pb fetch id password confirm ≡ calls o
            → (8 ≤ length password)
              × (confirm ≢ [] → password ≡ confirm)
              × (o ≡ upsert_superuser pb fetch id (some password)))
  unfolding submit_snapshot submit_clone
  forms_sent id name comment password confirm file o = (
    name_sent _ name _ o,
    name_sent _ name (clone_service pb fetch id) o,
    restore_sent file name o,
    password_sent id password confirm o,
  )
