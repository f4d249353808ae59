-- ===== src/Forms.antt =====
-- The forms of ui/src/pages/internal/forms that ask for the name of a snapshot or of an instance
-- (SnapshotNameForm.tsx with the call of SnapshotsSection.tsx, RestoreBackupForm.tsx,
-- CloneServiceForm.tsx), and the password form of
-- ui/src/pages/internal/components/ChangePasswordModal.tsx.
pub mod Sent
use pb_launcher.Prelude.{
  Text, codes, List, [], ◌∷◌, Bool, ◌&&◌, not, Option, none, some, text_eq, trim, leb, length,
  if◌then◌else◌,
}
use pb_launcher.Http.{Fetch, Client, Outcome}
use pb_launcher.Http.Values.{Json}
use pb_launcher.Url.{is_truthy}
use pb_launcher.Services.Backup.{restore_backup, clone_service, create_snapshot}
use pb_launcher.Services.System.{upsert_superuser}

-- What a submission does: nothing, a toast that asks for something, or a call.
pub data Submission : Type 0 where
  ignored : Submission
  asked : Text → Submission
  calls : Outcome Json → Submission

-- `const trimmedName = name.trim(); if (trimmedName === "") …`
unfoldable pub with_name : Text → Text → (Text → Outcome Json) → Submission
with_name empty_message name call =
    if text_eq (trim name) [] then asked empty_message else calls (call (trim name))

module _ (pb : Client) (fetch : Fetch) where
  unfoldable pub submit_snapshot : Text → Text → Text → Submission
  submit_snapshot service_id name comment =
      with_name (codes "Ingresa un nombre para el snapshot") name
        (λ n. create_snapshot pb fetch service_id n (some (trim comment)))

  unfoldable pub submit_restore : Option Text → Text → Submission
  submit_restore none name = asked (codes "Selecciona un archivo de snapshot (.zip)")
  submit_restore (some file) name =
      with_name (codes "Ingresa un nombre para la instancia") name (restore_backup pb fetch file)

  unfoldable pub submit_clone : Text → Text → Submission
  submit_clone service_id name =
      with_name (codes "Enter an instance name") name (clone_service pb fetch service_id)

  -- Whether the two passwords are said to differ; nothing is said before the second is typed.
  abbrev pub has_error : Text → Text → Bool
  has_error password confirm = is_truthy confirm && not (text_eq password confirm)

  abbrev pub is_valid : Text → Text → Bool
  is_valid password confirm = leb 8 (length password) && not (has_error password confirm)

  unfoldable pub submit_password : Text → Text → Text → Submission
  submit_password service_id password confirm =
      if is_valid password confirm
      then calls (upsert_superuser pb fetch service_id (some password))
      else ignored
