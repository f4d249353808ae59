-- ===== src/Examples/Editing.antt =====
-- The editor of the files at a concrete service.
use pb_launcher.Prelude.{
  Text, codes, List, [], ◌∷◌, ◌++◌, true, false, none, some, ◌≡◌, ◌↔◌, refl, map,
}
use pb_launcher.Editor.{
  Target, Editor, closed_editor, select, save, next, has_changes, settle, is_binary_path,
  is_image_file, run,
}
use pb_launcher.Editor.Calm.{Store, Act, open_file, edit, keep, worked, performs, performs_saved}
use pb_launcher.Editor.Section.{
  Click, select_path, content_arrived, typed_text, save_clicked, closed_section, section_run,
}
use pb_launcher.Editor.Agree.{Steady, on_page, event_of, section_run_agrees}
use pb_launcher.Editor.Switched.{select-save}

abbrev lower : Text → Text
lower t = t

-- What is there now.
abbrev seen : Text → Text → Text
seen clicked now = now

abbrev main_js : Target
main_js = record { service_id = codes "s1"; path = codes "pb_hooks/main.pb.js" }

abbrev other_js : Target
other_js = record { service_id = codes "s1"; path = codes "pb_hooks/other.pb.js" }

abbrev files : Store
files t = codes "old"

abbrev user : List Act
user =
    open_file main_js false none
    ∷ edit true (codes "new")
    ∷ keep true
    ∷ edit true (codes "newer")
    ∷ []

performs_saved_example : (has_changes (worked lower seen files user).editor ≡ false) ↔ (
    (worked lower seen files user).editor.contents.editor
    ≡ (worked lower seen files user).files main_js)
unfolding performs next settle is_binary_path is_image_file
performs_saved_example = performs_saved lower seen (λ a. refl) user files main_js refl refl refl

abbrev changed : Editor
changed = record closed_editor {
  selected = some main_js;
  loaded = some (codes "old");
  contents = record { editor = codes "new"; original = codes "old" };
}

select-save_example :
    (next lower seen (next lower seen changed (select other_js false none)) (save true)).requests
    ≡ [] ++ (other_js, codes "new") ∷ []
unfolding is_binary_path is_image_file
select-save_example =
    select-save lower seen changed main_js other_js refl refl refl refl refl refl refl refl

abbrev clicks : List Click
clicks =
    select_path (codes "main.js") false none
    ∷ content_arrived (codes "old")
    ∷ typed_text true (codes "new")
    ∷ save_clicked true
    ∷ []

clicks-Steady : Steady (codes "s1") lower seen closed_section clicks
clicks-Steady = (λ h. absurd (cc), (tt, (tt, (tt, tt))))

section_run_agrees_example :
    on_page (codes "s1") (section_run (codes "s1") lower seen closed_section clicks)
    ≡ run lower seen closed_editor (map (event_of (codes "s1")) clicks)
section_run_agrees_example = section_run_agrees (codes "s1") lower seen clicks clicks-Steady
