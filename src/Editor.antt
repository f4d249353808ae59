-- ===== src/Editor.antt =====
-- The editor of ui/src/pages/internal/FilesPage.tsx: the file that is selected, what the query of its
-- content has, what is typed and what is saved. An effect of React is a function of what it reads,
-- run after each event whose values it depends on. What `onSuccess` of the mutation reads, the text
-- of the click or the text of now, is up to React Query: `seen` of the two.
pub mod Calm
pub mod Switched
pub mod Section
pub mod Agree
use pb_launcher.Prelude.{
  Text, codes, List, [], ◌∷◌, ◌++◌, Bool, true, false, ◌&&◌, ◌||◌, not, Option, none, some, text_eq,
  any, split, ends_with, if◌then◌else◌,
}
use pb_launcher.Tree.{last_of}

pub record Target : Type 0 where
  pub service_id : Text
  pub path : Text

abbrev pub same_target : Target → Target → Bool
same_target a b = text_eq a.service_id b.service_id && text_eq a.path b.path

-- The endings of the files that are not opened as text.
abbrev pub binary_endings : List Text
binary_endings =
    codes ".db"
    ∷ codes ".png"
    ∷ codes ".jpg"
    ∷ codes ".jpeg"
    ∷ codes ".gif"
    ∷ codes ".ico"
    ∷ codes ".zip"
    ∷ []

unfoldable pub is_binary_path : Text → Bool
is_binary_path path = any (ends_with path) binary_endings

abbrev pub image_endings : List Text
image_endings =
    codes "png"
    ∷ codes "jpg"
    ∷ codes "jpeg"
    ∷ codes "gif"
    ∷ codes "ico"
    ∷ codes "svg"
    ∷ codes "webp"
    ∷ []

-- `toLowerCase` is a parameter, `lower`.
unfoldable pub is_image_file : (Text → Text) → Text → Bool
is_image_file lower path = any (text_eq (last_of (split (lower path) b'.'))) image_endings

-- `editorContent` and `originalContent`.
pub record Contents : Type 0 where
  pub editor : Text
  pub original : Text

-- `data` of the query of the selected file is `loaded`; `saving` has the variables of the mutation
-- while it is pending, and `requests` every call of `saveFile`.
pub record Editor : Type 0 where
  pub selected : Option Target
  pub is_dir : Bool
  pub is_binary : Bool
  pub loaded : Option Text
  pub contents : Contents
  pub saving : Option (Target × Text)
  pub requests : List (Target × Text)

abbrev pub no_contents : Contents
no_contents = record { editor = []; original = [] }

abbrev pub closed_editor : Editor
closed_editor = record {
  selected = none;
  is_dir = false;
  is_binary = false;
  loaded = none;
  contents = no_contents;
  saving = none;
  requests = [];
}

abbrev pub has_changes : Editor → Bool
has_changes e = not (text_eq e.contents.editor e.contents.original)

-- The effect that copies the data of the query.
abbrev pub data_effect : Bool → Bool → Option Text → Contents → Contents
data_effect is_binary is_dir none c = c
data_effect is_binary is_dir (some t) c =
    if is_binary || is_dir then c else record { editor = t; original = t }

-- The effect of the selection, as far as the contents go.
abbrev pub selection_effect : Bool → Bool → Contents → Contents
selection_effect is_binary is_dir c = if is_binary || is_dir then no_contents else c

abbrev pub differ : Bool → Bool → Bool
differ a b = if a then not b else b

-- The data of two queries are two objects, unless neither has any.
abbrev pub is_some : Option Text → Bool
is_some none = false
is_some (some t) = true

-- Data that are equal to those of before are the same object, and no effect runs.
abbrev pub is_loaded : Option Text → Text → Bool
is_loaded none text = false
is_loaded (some t) text = text_eq t text

abbrev pub is_selected : Option Target → Target → Bool
is_selected none t = false
is_selected (some s) t = same_target s t

-- A selection or a change of the list: both effects run on the values of the render, with the
-- `isBinaryFile` of before, and the second again where that has changed.
unfoldable pub settle : Editor → Target → Bool → Option Text → Bool → Editor
settle e t d data_ changed =
    let binary = not d && is_binary_path t.path in
    let first = selection_effect binary d e.contents in
    let second =
      if changed || differ e.is_dir d then data_effect e.is_binary d data_ first else first in
    record e {
      selected = some t;
      is_dir = d;
      is_binary = binary;
      loaded = data_;
      contents = if differ e.is_binary binary then data_effect binary d data_ second else second;
    }

-- What happens to the page: a row is clicked, whose query has some data already or none; the list
-- says that the selected path is a folder or is none; content arrives; the user types or saves,
-- while the service is stopped or not; a save succeeds or fails; the selected file was deleted.
pub data Event : Type 0 where
  select : Target → Bool → Option Text → Event
  listed : Bool → Event
  arrived : Text → Event
  typed : Bool → Text → Event
  save : Bool → Event
  save_done save_failed deleted : Event

module _ (lower : Text → Text) (seen : Text → Text → Text) where
  -- The button is there for a text, and enabled while the service is stopped.
  abbrev pub can_save : Bool → Editor → Bool
  can_save is_stopped e = elim e.selected [
    | none ↦ false
    | some t ↦
        (not e.is_dir && (not e.is_binary && not (is_image_file lower t.path)))
        && (is_stopped && (has_changes e && elim e.saving [ none ↦ true | some v ↦ false ]))
  ]

  -- `handleSave`
  abbrev pub handle_save : Editor → Editor
  handle_save e = elim e.selected [
    | none ↦ e
    | some t ↦ record e {
      saving = some (t, e.contents.editor);
      requests = e.requests ++ (t, e.contents.editor) ∷ [];
    }
  ]

  -- `onSuccess` of the mutation.
  abbrev pub on_saved : Editor → Editor
  on_saved e = elim e.saving [
    | none ↦ e
    | some (t, text) ↦ record e {
      contents = record { editor = e.contents.editor; original = seen text e.contents.editor };
      saving = none;
    }
  ]

  -- The text is shown once it is loaded, and never for a folder or a binary file; an image that is
  -- not among the binary files may hide it.
  abbrev pub can_type : Editor → Bool
  can_type e = is_some e.loaded && (not e.is_dir && not e.is_binary)

  unfoldable pub next : Editor → Event → Editor
  next e (select t d data_) =
      if is_selected e.selected t
      then settle e t d e.loaded false
      else settle e t d data_ (is_some e.loaded || is_some data_)
  next e (listed d) = elim e.selected [
    | none ↦ e
    | some t ↦ if differ e.is_dir d then settle e t d e.loaded false else e
  ]
  next e (arrived text) = if is_loaded e.loaded text then e else record e {
    loaded = some text;
    contents = data_effect e.is_binary e.is_dir (some text) e.contents;
  }
  next e (typed is_stopped text) =
      if is_stopped && can_type e
      then record e { contents = record { editor = text; original = e.contents.original } }
      else e
  next e (save is_stopped) = if can_save is_stopped e then handle_save e else e
  next e save_done = on_saved e
  next e save_failed = record e { saving = none }
  next e deleted = record closed_editor { saving = e.saving; requests = e.requests }

  unfoldable pub run : Editor → List Event → Editor
  run e [] = e
  run e (v ∷ vs) = run (next e v) vs
