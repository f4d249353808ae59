-- ===== src/Editor/Switched.antt =====
-- The editor where another file is selected before the content of it is there.
use pb_launcher.Prelude.{
  Text, [], ◌∷◌, ◌++◌, true, false, ◌≡◌, refl, some, none, Option, Bool, ◌||◌, ap, if◌then◌else◌,
  arith,
}
use pb_launcher.Editor.{
  Target, same_target, is_binary_path, is_image_file, Contents, Editor, has_changes, select, save,
  next, settle, is_selected, is_some,
}

if_same : {A : Type 0} (b : Bool) (x : A) → (if b then x else x) ≡ x
if_same true x = refl
if_same false x = refl

unloaded : Editor → Target → Contents → Editor
unloaded e t c = record e {
  selected = some t;
  is_dir = false;
  is_binary = false;
  loaded = none;
  contents = c;
}

settle-unloaded :
    (e : Editor) (t : Target) (changed : Bool)
    → e.is_dir ≡ false
    → e.is_binary ≡ false
    → is_binary_path t.path ≡ false
    → settle e t false none changed ≡ unloaded e t e.contents
unfolding settle unloaded
settle-unloaded e t changed not_dir not_binary path =
    rw (not_dir, not_binary, path) (ap (unloaded e t) (if_same (changed || false) e.contents))

is_other :
    (o : Option Target) (a b : Target)
    → o ≡ some a
    → same_target a b ≡ false
    → is_selected o b ≡ false
is_other o a b at other = rw at other

module _ (lower : Text → Text) (seen : Text → Text → Text) where
  switch :
      (e : Editor) (a b : Target)
      → e.selected ≡ some a
      → e.is_dir ≡ false
      → e.is_binary ≡ false
      → same_target a b ≡ false
      → is_binary_path b.path ≡ false
      → next lower seen e (select b false none) ≡ unloaded e b e.contents
  unfolding next unloaded
  switch e a b at not_dir not_binary other path =
      rw (is_other e.selected a b at other)
        (settle-unloaded e b (is_some e.loaded || false) not_dir not_binary path)

  save_unloaded :
      (e : Editor) (b : Target)
      → e.saving ≡ none
      → has_changes e ≡ true
      → is_image_file lower b.path ≡ false
      → (next lower seen (unloaded e b e.contents) (save true)).requests
        ≡ e.requests ++ (b, e.contents.editor) ∷ []
  unfolding next unloaded
  save_unloaded e b idle changes image = ground (arith, image, idle, changes)

  -- A text file that is not an image is selected, stopped, while another one has unsaved changes and no save is
  -- pending; until the content of the new one is there, or if its query fails, a save sends the
  -- text of the other file to it.
  pub select-save :
      (e : Editor) (a b : Target)
      → e.selected ≡ some a
      → e.is_dir ≡ false
      → e.is_binary ≡ false
      → e.saving ≡ none
      → has_changes e ≡ true
      → same_target a b ≡ false
      → is_binary_path b.path ≡ false
      → is_image_file lower b.path ≡ false
      → (next lower seen (next lower seen e (select b false none)) (save true)).requests
        ≡ e.requests ++ (b, e.contents.editor) ∷ []
  select-save e a b at not_dir not_binary idle changes other path image =
      rw (switch e a b at not_dir not_binary other path) (save_unloaded e b idle changes image)
