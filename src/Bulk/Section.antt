-- ===== src/Bulk/Section.antt =====
-- The ticked files of ui/src/pages/internal/details_section/FileManagerSection.tsx, which are the
-- paths of one service, and their bulk operations beside those of the page of all services.
use pb_launcher.Prelude.{
  Text, List, [], ◌∷◌, Bool, true, false, not, Option, none, some, map, filter, find, All, text_eq,
  ◌≡◌, refl, ap, if◌then◌else◌, sym, ◌∙◌,
}
use pb_launcher.Http.{Fetch, Client, Outcome, done, ◌>>◌}
use pb_launcher.Tree.{FileEntry}
use pb_launcher.Services.Files.{delete_file}
use pb_launcher.Bulk.{
  full_path_key, paths_to_download, download_items, handle_bulk_download, bulk_delete, BulkDownload,
  nothing_selected, is_dir_in,
}
use pb_launcher.Bulk.Targets.{IsId, IsPath}
use pb_launcher.Bulk.Deleted.{
  key_of, IsFile, delete_all, is_folder, bulk_delete_ticked, paths_to_download_ticked,
}

-- `entry && !entry.is_dir`
abbrev pub is_downloaded : List FileEntry → Text → Bool
is_downloaded files p = elim (find (λ (f : FileEntry). text_eq f.path p) files) [
  | none ↦ false
  | some entry ↦ not entry.is_dir
]

listed_folder :
    (files : List FileEntry) (p : Text) (e : FileEntry)
    → find (λ (f : FileEntry). text_eq f.path p) files ≡ some e
    → is_dir_in (some files) p ≡ e.is_dir
listed_folder files p e found =
    ap
      (λ (o : Option FileEntry). elim o as (λ x. Bool) [ none ↦ false | some entry ↦ entry.is_dir ])
      found

listed_download :
    (files : List FileEntry) (p : Text) (e : FileEntry)
    → find (λ (f : FileEntry). text_eq f.path p) files ≡ some e
    → is_downloaded files p ≡ not e.is_dir
listed_download files p e found =
    ap
      (λ (o : Option FileEntry). elim o as (λ x. Bool) [
        | none ↦ false
        | some entry ↦ not entry.is_dir
      ])
      found

module _ (encode : Text → Text) (pb : Client) (fetch : Fetch) where
  unfoldable pub section_bulk_download : Text → List FileEntry → List Text → BulkDownload
  section_bulk_download service_id files [] = nothing_selected
  section_bulk_download service_id files (p ∷ ps) =
      download_items encode pb fetch
        (map (λ q. (service_id, q)) (filter (is_downloaded files) (p ∷ ps)))

  unfoldable pub section_bulk_delete : Text → List Text → Outcome (Unit {0})
  section_bulk_delete service_id [] = done tt
  section_bulk_delete service_id (p ∷ ps) =
      delete_file encode pb fetch service_id p >> section_bulk_delete service_id ps

  -- The boxes that are ticked: those of listed files.
  abbrev pub IsListed : List FileEntry → Text → Type 0
  IsListed files p = (e : FileEntry) × (find (λ (f : FileEntry). text_eq f.path p) files ≡ some e)

  section_delete_all :
      (id : Text) (ps : List Text)
      → section_bulk_delete id ps ≡ delete_all encode pb fetch (map (λ q. (id, q)) ps)
  unfolding section_bulk_delete
  section_delete_all id [] = refl
  section_delete_all id (p ∷ ps) =
      ap (λ m. delete_file encode pb fetch id p >> m) (section_delete_all id ps)

  ticked_files :
      (id : Text) (ps : List Text) → IsId id → All IsPath ps → All IsFile (map (λ q. (id, q)) ps)
  ticked_files id [] h k = tt
  ticked_files id (p ∷ ps) h k = ((h, k.0), ticked_files id ps h k.1)

  map_keys :
      (id : Text) (ps : List Text) → map key_of (map (λ q. (id, q)) ps) ≡ map (full_path_key id) ps
  map_keys id [] = refl
  map_keys id (p ∷ ps) = ap (λ ks. full_path_key id p ∷ ks) (map_keys id ps)

  kept_file :
      (id : Text) (b : Bool) (p : Text) (r : List (Text × Text)) (q : List Text)
      → r ≡ map (λ u. (id, u)) q
      → (if not b then (id, p) ∷ r else r) ≡ map (λ u. (id, u)) (if not b then p ∷ q else q)
  kept_file id true p r q h = h
  kept_file id false p r q h = ap (λ t. (id, p) ∷ t) h

  filter_listed :
      (id : Text) (files : List FileEntry) (cached : Text → Option (List FileEntry))
      (ps : List Text)
      → cached id ≡ some files
      → All (IsListed files) ps
      → filter (λ f. not (is_folder cached f)) (map (λ q. (id, q)) ps)
        ≡ map (λ q. (id, q)) (filter (is_downloaded files) ps)
  filter_listed id files cached [] c h = refl
  filter_listed id files cached (p ∷ ps) c ((e, found), h) =
      rw (c, listed_folder files p e found, listed_download files p e found)
        (kept_file id e.is_dir p _ _ (filter_listed id files cached ps c h))

  section_downloads :
      (id : Text) (files : List FileEntry) (cached : Text → Option (List FileEntry))
      (ps : List Text)
      → IsId id
      → All IsPath ps
      → cached id ≡ some files
      → All (IsListed files) ps
      → section_bulk_download id files ps
        ≡ handle_bulk_download encode pb fetch cached (map (full_path_key id) ps)
  unfolding section_bulk_download handle_bulk_download
  section_downloads id files cached [] i h c k = refl
  section_downloads id files cached (p ∷ ps) i h c k = ap (download_items encode pb fetch) (
      sym (filter_listed id files cached (p ∷ ps) c k)
      ∙ sym (
          paths_to_download_ticked cached (map (λ q. (id, q)) (p ∷ ps))
            (ticked_files id (p ∷ ps) i h))
      ∙ ap (paths_to_download cached) (map_keys id (p ∷ ps)))

  -- The section of a service and the page of all services act alike on the same ticked files, of an
  -- id without a colon and paths without two in a row: they delete the same, and they download the
  -- same if the list that the page has cached for the service is the one of the section and has
  -- the ticked files.
  pub section_agrees :
      (id : Text) (files : List FileEntry) (cached : Text → Option (List FileEntry))
      (ps : List Text)
      → IsId id
      → All IsPath ps
      → cached id ≡ some files
      → All (IsListed files) ps
      → (section_bulk_delete id ps ≡ bulk_delete encode pb fetch (map (full_path_key id) ps))
        × (section_bulk_download id files ps
            ≡ handle_bulk_download encode pb fetch cached (map (full_path_key id) ps))
  section_agrees id files cached ps i h c k = (
    section_delete_all id ps
        ∙ sym (bulk_delete_ticked encode pb fetch (map (λ q. (id, q)) ps) (ticked_files id ps i h))
        ∙ ap (bulk_delete encode pb fetch) (map_keys id ps),
    section_downloads id files cached ps i h c k,
  )
