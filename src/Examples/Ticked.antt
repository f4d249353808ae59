-- ===== src/Examples/Ticked.antt =====
-- The bulk operations on ticked files.
use pb_launcher.Prelude.{Text, codes, List, [], ◌∷◌, Option, some, map, true, ◌≡◌, refl, arith}
use pb_launcher.Tree.{FileEntry}
use pb_launcher.Bulk.{full_path_key, target_of, split_colons, bulk_delete, handle_bulk_download}
use pb_launcher.Bulk.Targets.{IsId}
use pb_launcher.Bulk.Deleted.{IsFile}
use pb_launcher.Bulk.Section.{IsListed, section_bulk_delete, section_bulk_download, section_agrees}
use pb_launcher.Examples.Calls.{encode, local, one_file}

abbrev ticked : List (Text × Text)
ticked = (codes "s", codes "d") ∷ (codes "s", codes "a:b") ∷ []

abbrev folder_d : FileEntry
folder_d = record { path = codes "d"; size = 0; updated_at = []; is_dir = true }

abbrev listed : List FileEntry
listed = folder_d ∷ []

abbrev cached : Text → Option (List FileEntry)
cached id = some listed

s-IsId : IsId (codes "s")
s-IsId = (λ e. omega arith, tt)

d-IsFile : IsFile (codes "s", codes "d")
d-IsFile = (s-IsId, refl)

ab-IsFile : IsFile (codes "s", codes "a:b")
ab-IsFile = (s-IsId, refl)

cut_run : target_of (full_path_key (codes "s") (codes "a::b")) ≡ (codes "s", codes "a")
unfolding target_of split_colons
cut_run = refl

d-IsListed : IsListed encode local one_file listed (codes "d")
d-IsListed = (folder_d, refl)

section_agrees_example :
    (section_bulk_delete encode local one_file (codes "s") (codes "d" ∷ [])
      ≡ bulk_delete encode local one_file (map (full_path_key (codes "s")) (codes "d" ∷ [])))
    × (section_bulk_download encode local one_file (codes "s") listed (codes "d" ∷ [])
        ≡ handle_bulk_download encode local one_file cached
            (map (full_path_key (codes "s")) (codes "d" ∷ [])))
section_agrees_example =
    section_agrees encode local one_file (codes "s") listed cached (codes "d" ∷ []) s-IsId
      (refl, tt) refl (d-IsListed, tt)
