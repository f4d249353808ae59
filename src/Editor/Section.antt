-- ===== src/Editor/Section.antt =====
-- The editor of ui/src/pages/internal/details_section/FileManagerSection.tsx, which shows the files
-- of one service, beside that of the page of all services. A click on the selected path sets the
-- path that is set already, so no effect runs; the list of files tells at once what is a folder.
use pb_launcher.Prelude.{
  Text, List, [], ◌∷◌, ◌++◌, Bool, true, false, ◌&&◌, ◌||◌, not, Option, none, some, text_eq,
  if◌then◌else◌,
}
use pb_launcher.Editor.{
  Target, Contents, no_contents, data_effect, selection_effect, differ, is_some, is_loaded,
  is_binary_path, is_image_file,
}

pub record SectionEditor : Type 0 where
  pub selected_path : Option Text
  pub is_dir_selected : Bool
  pub is_binary_file : Bool
  pub loaded : Option Text
  pub contents : Contents
  pub saving : Option (Target × Text)
  pub requests : List (Target × Text)

abbrev pub closed_section : SectionEditor
closed_section = record {
  selected_path = none;
  is_dir_selected = false;
  is_binary_file = false;
  loaded = none;
  contents = no_contents;
  saving = none;
  requests = [];
}

-- What happens to the section, as on the page; a row stands for its path.
pub data Click : Type 0 where
  select_path : Text → Bool → Option Text → Click
  listed_as : Bool → Click
  content_arrived : Text → Click
  typed_text : Bool → Text → Click
  save_clicked : Bool → Click
  file_saved save_refused file_deleted : Click

abbrev pub is_path : Option Text → Text → Bool
is_path none p = false
is_path (some s) p = text_eq s p

-- Both effects, for a path that is selected, and for a list that says that it is a folder or none.
unfoldable pub section_effects : SectionEditor → Text → Bool → Option Text → Bool → SectionEditor
section_effects e p d data_ changed =
    let binary = not d && is_binary_path p in
    let first = selection_effect binary d e.contents in
    let second =
      if changed || differ e.is_dir_selected d
      then data_effect e.is_binary_file d data_ first
      else first in
    record e {
      selected_path = some p;
      is_dir_selected = d;
      is_binary_file = binary;
      loaded = data_;
      contents =
          if differ e.is_binary_file binary then data_effect binary d data_ second else second;
    }

module _ (service_id : Text) (lower : Text → Text) (seen : Text → Text → Text) where
  abbrev pub section_can_save : Bool → SectionEditor → Bool
  section_can_save is_stopped e = elim e.selected_path [
    | none ↦ false
    | some p ↦
        (not e.is_dir_selected && (not e.is_binary_file && not (is_image_file lower p)))
        && (is_stopped
            && (not (text_eq e.contents.editor e.contents.original)
                && elim e.saving [ none ↦ true | some v ↦ false ]))
  ]

  abbrev pub section_handle_save : SectionEditor → SectionEditor
  section_handle_save e = elim e.selected_path [
    | none ↦ e
    | some p ↦
        let t : Target = record { service_id = service_id; path = p } in
        record e {
          saving = some (t, e.contents.editor);
          requests = e.requests ++ (t, e.contents.editor) ∷ [];
        }
  ]

  abbrev pub section_on_saved : SectionEditor → SectionEditor
  section_on_saved e = elim e.saving [
    | none ↦ e
    | some (t, text) ↦ record e {
      contents = record { editor = e.contents.editor; original = seen text e.contents.editor };
      saving = none;
    }
  ]

  unfoldable pub section_next : SectionEditor → Click → SectionEditor
  section_next e (select_path p d data_) =
      if is_path e.selected_path p
      then e
      else section_effects e p d data_ (is_some e.loaded || is_some data_)
  section_next e (listed_as d) = elim e.selected_path [
    | none ↦ e
    | some p ↦ if differ e.is_dir_selected d then section_effects e p d e.loaded false else e
  ]
  section_next e (content_arrived text) = if is_loaded e.loaded text then e else record e {
    loaded = some text;
    contents = data_effect e.is_binary_file e.is_dir_selected (some text) e.contents;
  }
  section_next e (typed_text is_stopped text) =
      if is_stopped && (is_some e.loaded && (not e.is_dir_selected && not e.is_binary_file))
      then record e { contents = record { editor = text; original = e.contents.original } }
      else e
  section_next e (save_clicked is_stopped) =
      if section_can_save is_stopped e then section_handle_save e else e
  section_next e file_saved = section_on_saved e
  section_next e save_refused = record e { saving = none }
  section_next e file_deleted = record closed_section { saving = e.saving; requests = e.requests }

  unfoldable pub section_run : SectionEditor → List Click → SectionEditor
  section_run e [] = e
  section_run e (c ∷ cs) = section_run (section_next e c) cs
