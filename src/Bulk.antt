-- ===== src/Bulk.antt =====
-- The files that are ticked in ui/src/pages/internal/FilesPage.tsx: the set of keys `id::path`, and
-- the bulk download and deletion (`handleBulkDownload`, `bulkDeleteMutation`), which split the keys.
pub mod Targets
pub mod Deleted
pub mod Section
use pb_launcher.Prelude.{
  ℕ, Text, codes, List, [], ◌∷◌, ◌++◌, Bool, true, false, ◌&&◌, Option, none, some, ◌==◌, text_eq,
  find, push_head, if◌then◌else◌,
}
use pb_launcher.Http.{Fetch, Client, Outcome, done, ◌>>=◌, ◌>>◌}
use pb_launcher.Tree.{FileEntry, add, delete}
use pb_launcher.Services.Files.{Download, delete_file, download_file_in_browser}

abbrev pub colon : ℕ
colon = b':'

-- `${service.id}::${f.path}`
abbrev pub full_path_key : Text → Text → Text
full_path_key service_id path = service_id ++ colon ∷ colon ∷ path

-- A tick of the box of a file.
unfoldable pub on_tick : Bool → Text → List Text → List Text
on_tick checked key prev = if checked then add prev key else delete prev key

-- `p.split("::")`
unfoldable pub split_colons : Text → List Text
split_colons [] = [] ∷ []
split_colons (c ∷ []) = (c ∷ []) ∷ []
split_colons (c ∷ d ∷ s) =
    let next = split_colons (d ∷ s) in
    let behind = split_colons s in
    if (c == colon) && (d == colon) then [] ∷ behind else push_head c next

-- `const [serviceId, filePath] = …`: a part that is missing is undefined, which is written into a
-- URL as the text `undefined`.
abbrev pub first_two : List Text → Text × Text
first_two [] = (codes "undefined", codes "undefined")
first_two (a ∷ []) = (a, codes "undefined")
first_two (a ∷ b ∷ ps) = (a, b)

unfoldable pub target_of : Text → Text × Text
target_of p = first_two (split_colons p)

abbrev pub is_dir_in : Option (List FileEntry) → Text → Bool
is_dir_in none path = false
is_dir_in (some files) path = elim (find (λ (f : FileEntry). text_eq f.path path) files) [
  | none ↦ false
  | some entry ↦ entry.is_dir
]

-- The loop that collects `pathsToDownload`; `cached` gives the query data of the files of a service.
unfoldable pub paths_to_download : (Text → Option (List FileEntry)) → List Text → List (Text × Text)
paths_to_download cached [] = []
paths_to_download cached (p ∷ ps) =
    let rest = paths_to_download cached ps in
    if is_dir_in (cached (target_of p).0) (target_of p).1 then rest else target_of p ∷ rest

-- What a bulk download comes to: nothing was ticked, only folders were, or the files one by one.
pub data BulkDownload : Type 0 where
  nothing_selected : BulkDownload
  only_folders : BulkDownload
  downloads : Outcome (List Download) → BulkDownload

module _ (encode : Text → Text) (pb : Client) (fetch : Fetch) where
  unfoldable pub download_each : List (Text × Text) → Outcome (List Download)
  download_each [] = done []
  download_each ((service_id, path) ∷ items) = do
    d ← download_file_in_browser encode pb fetch service_id path
    ds ← download_each items
    done (d ∷ ds)

  abbrev pub download_items : List (Text × Text) → BulkDownload
  download_items [] = only_folders
  download_items (i ∷ items) = downloads (download_each (i ∷ items))

  unfoldable pub handle_bulk_download : (Text → Option (List FileEntry)) → List Text → BulkDownload
  handle_bulk_download cached [] = nothing_selected
  handle_bulk_download cached (p ∷ ps) = download_items (paths_to_download cached (p ∷ ps))

  unfoldable pub bulk_delete : List Text → Outcome (Unit {0})
  bulk_delete [] = done tt
  bulk_delete (p ∷ ps) =
      let (service_id, path) = target_of p in
      delete_file encode pb fetch service_id path >> bulk_delete ps
