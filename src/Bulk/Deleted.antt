-- ===== src/Bulk/Deleted.antt =====
-- Which files a bulk deletion and a bulk download act on.
use pb_launcher.Prelude.{
  Text, List, [], ◌∷◌, ◌++◌, Bool, true, false, Option, map, All, ◌≡◌, refl, filter, not,
  if◌then◌else◌,
}
use pb_launcher.Http.{Fetch, Client, Outcome, done, ◌>>◌}
use pb_launcher.Tree.{FileEntry}
use pb_launcher.Services.Files.{delete_file}
use pb_launcher.Bulk.{colon, full_path_key, is_dir_in, paths_to_download, bulk_delete}
use pb_launcher.Bulk.Targets.{IsId, IsPath, target_of-full_path_key, target_of_front}

abbrev pub key_of : Text × Text → Text
key_of (id, path) = full_path_key id path

abbrev pub IsFile : Text × Text → Type 0
IsFile (id, path) = IsId id × IsPath path

-- What the code does not have: the cached entry of a ticked file says whether it is a folder.
abbrev pub is_folder : (Text → Option (List FileEntry)) → Text × Text → Bool
is_folder cached (id, path) = is_dir_in (cached id) path

-- Deletes the files in their order up to the first failure.
abbrev pub delete_all : (Text → Text) → Client → Fetch → List (Text × Text) → Outcome (Unit {0})
delete_all encode pb fetch [] = done tt
delete_all encode pb fetch ((id, path) ∷ files) =
    delete_file encode pb fetch id path >> delete_all encode pb fetch files

-- The deletion of ticked files, of ids without a colon and paths without two in a row, deletes these
-- files, one by one in the order they were ticked, up to the first failure.
pub bulk_delete_ticked :
    (encode : Text → Text) (pb : Client) (fetch : Fetch) (files : List (Text × Text))
    → All IsFile files
    → bulk_delete encode pb fetch (map key_of files) ≡ delete_all encode pb fetch files
unfolding bulk_delete
bulk_delete_ticked encode pb fetch [] h = refl
bulk_delete_ticked encode pb fetch ((id, path) ∷ files) ((hi, hp), h) =
    rw (target_of-full_path_key id path hi hp, bulk_delete_ticked encode pb fetch files h) refl

if_not : {A : Type 0} (b : Bool) (x y : A) → (if b then x else y) ≡ (if not b then y else x)
if_not true x y = refl
if_not false x y = refl

-- Of such files, a bulk download takes those that are not cached as folders, in their order.
pub paths_to_download_ticked :
    (cached : Text → Option (List FileEntry)) (files : List (Text × Text))
    → All IsFile files
    → paths_to_download cached (map key_of files) ≡ filter (λ f. not (is_folder cached f)) files
unfolding paths_to_download
paths_to_download_ticked cached [] h = refl
paths_to_download_ticked cached ((id, path) ∷ files) ((hi, hp), h) =
    rw (target_of-full_path_key id path hi hp, paths_to_download_ticked cached files h)
      (if_not (is_dir_in (cached id) path) _ _)

-- The deletion of a ticked file whose path has two colons in a row deletes the path in front of them
-- instead.
pub bulk_delete_cut :
    (encode : Text → Text) (pb : Client) (fetch : Fetch) (id a b : Text)
    → IsId id
    → IsPath (a ++ colon ∷ [])
    → bulk_delete encode pb fetch (full_path_key id (a ++ colon ∷ colon ∷ b) ∷ [])
      ≡ (delete_file encode pb fetch id a >> done tt)
unfolding bulk_delete
bulk_delete_cut encode pb fetch id a b h k = rw (target_of_front id a b h k) refl
