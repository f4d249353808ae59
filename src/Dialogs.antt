-- ===== src/Dialogs.antt =====
-- The forms by which files come into a service, NewFileModal.tsx, NewFolderModal.tsx, RenameModal.tsx
-- and UploadFilesModal.tsx of ui/src/pages/internal/components, the message of an error
-- (ui/src/utils/errors.ts), and the modals that are open (ui/src/components/modal/ModalProvider.tsx).
-- A disabled field or button is not part of the model: a submission is one of any text.
pub mod Below
pub mod Submitted
pub mod Stack
pub mod Upload
use pb_launcher.Prelude.{
  Text, codes, List, [], ◌∷◌, ◌++◌, reverse, Bool, true, false, starts_with, trim, drop, length,
  ltb, text_eq, if◌then◌else◌,
}
use pb_launcher.Http.{Fetch, Client, Outcome, done, thrown, Thrown, http_error, plain_error}
use pb_launcher.Http.Values.{Json}
use pb_launcher.Services.Files.{save_file, create_folder, rename_file, upload_files}
use pb_launcher.Tree.{slash}

-- The message of an error that the engine throws by itself is a parameter.
unfoldable pub get_error_message : (Thrown → Json) → Thrown → Json
get_error_message native (http_error status message payload) = message
get_error_message native (plain_error message) = message
get_error_message native e = native e

-- What a submission comes to: a toast of the form, a toast of a failed call, or the call of what the
-- page handed over, `onCreated`, `onRenamed` or `onUploaded`, after which the modal closes.
pub data Told : Type 0 where
  asked_again : Text → Told
  failed : Json → Told
  told : Text → Told

-- `onSuccess` and `onError` of a mutation.
unfoldable pub settle : (Thrown → Json) → Outcome (Unit {0}) → Text → Told
settle native (done _) path = told path
settle native (thrown e) path = failed (get_error_message native e)

-- The path below the folder that is chosen in the list.
unfoldable pub final_path : Text → Text → Text
final_path folder clean =
    folder ++ slash ∷ (if starts_with clean (slash ∷ []) then drop 1 clean else clean)

-- `replace(/^\/|\/$/g, "")`
unfoldable pub strip_slash : Text → Text
strip_slash [] = []
strip_slash (c ∷ s) = if starts_with (c ∷ s) (slash ∷ []) then s else c ∷ s

unfoldable pub clean_sub : Text → Text
clean_sub subfolder = reverse (strip_slash (reverse (strip_slash (trim subfolder))))

unfoldable pub dest_path : Text → Text → Text
dest_path folder subfolder =
    let sub = clean_sub subfolder in if ltb 0 (length sub) then folder ++ slash ∷ sub else folder

module _ (encode : Text → Text) (pb : Client) (fetch : Fetch) (native : Thrown → Json) where
  unfoldable pub submit_new_file : Text → Text → Text → Told
  submit_new_file service_id folder file_path =
      let path = final_path folder (trim file_path) in
      if text_eq (trim file_path) []
      then asked_again (codes "La ruta es obligatoria")
      else settle native (save_file encode pb fetch service_id path []) path

  unfoldable pub submit_new_folder : Text → Text → Text → Told
  submit_new_folder service_id folder folder_path =
      let path = final_path folder (trim folder_path) in
      if text_eq (trim folder_path) []
      then asked_again (codes "La ruta es obligatoria")
      else settle native (create_folder encode pb fetch service_id path) path

  -- `now` is what the field has when the call succeeds.
  unfoldable pub submit_rename : Text → Text → Text → Text → Told
  submit_rename service_id current_path new_path now =
      if text_eq (trim new_path) []
      then asked_again (codes "La nueva ruta es obligatoria")
      else (if text_eq (trim new_path) current_path
          then asked_again (codes "La ruta no ha cambiado")
          else settle native (rename_file encode pb fetch service_id current_path (trim new_path))
              now)

  -- Nothing is handed to `onUploaded`; the destination stands for the folder that was uploaded to.
  unfoldable pub submit_upload : Text → Text → Text → List Text → Told
  submit_upload service_id folder subfolder files =
      if ltb 0 (length files)
      then settle native (upload_files pb fetch service_id (dest_path folder subfolder) files)
          (dest_path folder subfolder)
      else asked_again (codes "Debe seleccionar al menos un archivo")
