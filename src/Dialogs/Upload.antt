-- ===== src/Dialogs/Upload.antt =====
-- The list of files in ui/src/pages/internal/components/UploadFilesModal.tsx, over what the user
-- drops, chooses and takes off it. A file is modelled as in Services/Files. The zone takes no pointer
-- and the input is disabled unless the service is stopped, so no event comes then.
pub mod Kept
use pb_launcher.Prelude.{
  ℕ, zero, suc, ◌+◌, Text, List, [], ◌∷◌, ◌++◌, Bool, true, false, not, ◌==◌, length, ltb,
  if◌then◌else◌,
}

pub record UploadForm : Type 0 where
  pub files : List Text
  pub is_drag_active : Bool
  pub upload_progress : ℕ

-- `dragenter`, `dragover` and `dragleave`, the rest of the events by their handlers.
pub data Event : Type 0 where
  drag_enter drag_over drag_leave : Event
  drop choose : List Text → Event
  remove : ℕ → Event
  clear : Event
  progress : ℕ → Event
  upload_failed : Event

abbrev pub handle_drag : Event → UploadForm → UploadForm
handle_drag drag_enter f = record f { is_drag_active = true }
handle_drag drag_over f = record f { is_drag_active = true }
handle_drag drag_leave f = record f { is_drag_active = false }
handle_drag _ f = f

abbrev pub append_files : List Text → UploadForm → UploadForm
append_files new f = if ltb 0 (length new) then record f { files = f.files ++ new } else f

abbrev pub handle_drop : List Text → UploadForm → UploadForm
handle_drop new f = append_files new (record f { is_drag_active = false })

abbrev pub handle_file_change : List Text → UploadForm → UploadForm
handle_file_change new f = append_files new f

-- `files.filter((_, i) => i !== index)`, from an index on
abbrev pub filter_from : ℕ → ℕ → List Text → List Text
filter_from i index [] = []
filter_from i index (file ∷ files) =
    if not (i == index)
    then file ∷ filter_from (i + 1) index files
    else filter_from (i + 1) index files

abbrev pub handle_remove_file : ℕ → UploadForm → UploadForm
handle_remove_file index f = record f { files = filter_from 0 index f.files }

abbrev pub empty_form : UploadForm
empty_form = record { files = []; is_drag_active = false; upload_progress = 0 }

unfoldable pub next : UploadForm → Event → UploadForm
next f drag_enter = handle_drag drag_enter f
next f drag_over = handle_drag drag_over f
next f drag_leave = handle_drag drag_leave f
next f (drop new) = handle_drop new f
next f (choose new) = handle_file_change new f
next f (remove index) = handle_remove_file index f
next f clear = record f { files = [] }
next f (progress n) = record f { upload_progress = n }
next f upload_failed = record f { upload_progress = 0 }

unfoldable pub run : UploadForm → List Event → UploadForm
run f [] = f
run f (e ∷ es) = run (next f e) es
