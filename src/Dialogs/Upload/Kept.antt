-- ===== src/Dialogs/Upload/Kept.antt =====
-- The list of files of the upload dialog, beside a record of all files that were ever added, in which
-- a file that is taken off is crossed out.
use pb_launcher.Prelude.{
  ℕ, zero, suc, ◌+◌, ◌<◌, Text, codes, ltb, length, List, [], ◌∷◌, ◌++◌, append-nil, Bool, true,
  false, map, ◌≡◌, refl, sym, ap, ◌∙◌, arith, if◌then◌else◌,
}
use pb_launcher.Http.{Fetch, Client, Thrown}
use pb_launcher.Http.Values.{Json}
use pb_launcher.Dialogs.{Told, asked_again, settle, dest_path, submit_upload}
use pb_launcher.Services.Files.{upload_files}
use pb_launcher.Dialogs.Upload.{
  UploadForm, Event, drag_enter, drag_over, drag_leave, drop, choose, remove, clear, progress,
  upload_failed, filter_from, append_files, empty_form, next, run,
}

-- A file that was added, and whether it is on the list still.
pub record Added : Type 0 where
  pub file : Text
  pub on_list : Bool

abbrev pub kept : List Added → List Text
kept [] = []
kept (a ∷ as') = if a.on_list then a.file ∷ kept as' else kept as'

abbrev pub added : List Text → List Added
added new = map (λ f. record { file = f; on_list = true }) new

-- The file that stands at an index of the list is crossed out.
abbrev pub cross_out : ℕ → List Added → List Added
cross_out n [] = []
cross_out zero (a ∷ as') =
    if a.on_list then record a { on_list = false } ∷ as' else a ∷ cross_out zero as'
cross_out (suc n) (a ∷ as') = if a.on_list then a ∷ cross_out n as' else a ∷ cross_out (suc n) as'

abbrev pub noted : List Added → Event → List Added
noted as' (drop new) = as' ++ added new
noted as' (choose new) = as' ++ added new
noted as' (remove n) = cross_out n as'
noted as' clear = map (λ (a : Added). record a { on_list = false }) as'
noted as' _ = as'

abbrev pub history : List Added → List Event → List Added
history as' [] = as'
history as' (e ∷ es) = history (noted as' e) es

kept-append : (xs ys : List Added) → kept (xs ++ ys) ≡ kept xs ++ kept ys
kept-append [] ys = refl
kept-append (a ∷ xs) ys = ground (arith, kept-append xs ys)

kept-added : (new : List Text) → kept (added new) ≡ new
kept-added [] = refl
kept-added (f ∷ new) = ap (◌∷◌ f) (kept-added new)

kept-clear : (xs : List Added) → kept (map (λ (a : Added). record a { on_list = false }) xs) ≡ []
kept-clear [] = refl
kept-clear (a ∷ xs) = kept-clear xs

-- Behind the index nothing is left out.
filter_from-behind : (i n : ℕ) (files : List Text) → n < i → filter_from i n files ≡ files
filter_from-behind i n [] h = refl
filter_from-behind i n (f ∷ files) h =
    ground (arith, filter_from-behind (i + 1) n files (omega arith))

filter_from-suc :
    (i n : ℕ) (files : List Text) → filter_from (i + 1) (n + 1) files ≡ filter_from i n files
filter_from-suc i n [] = refl
filter_from-suc i n (f ∷ files) = ground (arith, filter_from-suc (i + 1) n files)

kept-cross_out : (n : ℕ) (xs : List Added) → kept (cross_out n xs) ≡ filter_from 0 n (kept xs)
kept-cross_out n [] = refl
kept-cross_out zero (a ∷ xs) =
    ground (arith, kept-cross_out zero xs, filter_from-behind 1 0 (kept xs) (omega arith))
kept-cross_out (suc n) (a ∷ xs) =
    ground (arith, kept-cross_out n xs, kept-cross_out (suc n) xs, filter_from-suc 0 n (kept xs))

append_files_lem : (new : List Text) (f : UploadForm) → (append_files new f).files ≡ f.files ++ new
append_files_lem [] f = sym (append-nil f.files)
append_files_lem (a ∷ new) f = ground arith

appended :
    (f : UploadForm) (xs : List Added) (new : List Text)
    → f.files ≡ kept xs
    → (append_files new f).files ≡ kept (xs ++ added new)
appended f xs new h =
    append_files_lem new f
    ∙ ap (λ l. l ++ new) h
    ∙ sym (kept-append xs (added new) ∙ ap (λ l. kept xs ++ l) (kept-added new))

next_kept :
    (f : UploadForm) (xs : List Added) (e : Event)
    → f.files ≡ kept xs
    → (next f e).files ≡ kept (noted xs e)
unfolding next
next_kept f xs drag_enter h = h
next_kept f xs drag_over h = h
next_kept f xs drag_leave h = h
next_kept f xs (drop new) h = appended (record f { is_drag_active = false }) xs new h
next_kept f xs (choose new) h = appended f xs new h
next_kept f xs (remove n) h = ap (filter_from 0 n) h ∙ sym (kept-cross_out n xs)
next_kept f xs clear h = sym (kept-clear xs)
next_kept f xs (progress n) h = h
next_kept f xs upload_failed h = h

run_kept :
    (f : UploadForm) (xs : List Added) (es : List Event)
    → f.files ≡ kept xs
    → (run f es).files ≡ kept (history xs es)
unfolding run
run_kept f xs [] h = h
run_kept f xs (e ∷ es) h = run_kept (next f e) (noted xs e) es (next_kept f xs e h)

some_length : (f : Text) (files : List Text) → ltb 0 (length (f ∷ files)) ≡ true
some_length f files = ground arith

module _ (encode : Text → Text) (pb : Client) (fetch : Fetch) (native : Thrown → Json) where
  -- What is to be done with the files: one upload of all of them, or a question where there is none.
  abbrev pub upload_of : Text → Text → List Text → Told
  upload_of service_id path [] = asked_again (codes "Debe seleccionar al menos un archivo")
  upload_of service_id path (f ∷ files) =
      settle native (upload_files pb fetch service_id path (f ∷ files)) path

  submit_upload_lem :
      (service_id folder subfolder : Text) (files : List Text)
      → submit_upload encode pb fetch native service_id folder subfolder files
        ≡ upload_of service_id (dest_path folder subfolder) files
  unfolding submit_upload
  submit_upload_lem service_id folder subfolder [] = refl
  submit_upload_lem service_id folder subfolder (f ∷ files) = rw (some_length f files) refl

  -- Whatever is dropped, chosen, taken off and cleared, a submission uploads in one call, to the
  -- destination, the files that were added and not taken off since, each as often as it was added
  -- and in the order of adding; where none is left it calls nothing and asks for a file.
  pub submit_upload_kept :
      (service_id folder subfolder : Text) (es : List Event)
      → submit_upload encode pb fetch native service_id folder subfolder (run empty_form es).files
        ≡ upload_of service_id (dest_path folder subfolder) (kept (history [] es))
  submit_upload_kept service_id folder subfolder es =
      submit_upload_lem service_id folder subfolder (run empty_form es).files
      ∙ ap (upload_of service_id (dest_path folder subfolder)) (run_kept empty_form [] es refl)
