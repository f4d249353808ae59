-- ===== src/Tree.antt =====
-- The file tree of ui/src/pages/internal/FilesPage.tsx (`ServiceFileTree`), which
-- ui/src/pages/internal/details_section/FileManagerSection.tsx repeats: which folders are open and
-- which files are shown. A `Set<string>` is a list in order of insertion, each text once.
pub mod Visible
pub mod Toggle
pub mod Closed
pub mod Child
pub mod Names
use pb_launcher.Prelude.{
  ℕ, zero, suc, ◌+◌, ◌-◌, ◌*◌, Text, codes, List, [], ◌∷◌, ◌++◌, Bool, true, false, not, any,
  filter, take, length, split, join, text_eq, starts_with, includes, leb, if◌then◌else◌, map,
}

abbrev pub slash : ℕ
slash = b'/'

-- `set.has(path)`
abbrev pub has : List Text → Text → Bool
has paths path = any (text_eq path) paths

-- `set.delete(path)`
abbrev pub delete : List Text → Text → List Text
delete paths path = filter (λ p. not (text_eq path p)) paths

-- `set.add(path)`
abbrev pub add : List Text → Text → List Text
add paths path = if has paths path then paths else paths ++ path ∷ []

-- Closing a folder closes the folders below it too.
unfoldable pub toggle_path : Text → List Text → List Text
toggle_path path prev =
    if has prev path
    then filter (λ p. not (starts_with p (path ++ slash ∷ []))) (delete prev path)
    else add prev path

-- The loop over the parents, from `parts.slice(0, i)` on.
unfoldable pub check_parents : List Text → List Text → ℕ → ℕ → Bool
check_parents expanded parts i zero = true
check_parents expanded parts i (suc rounds) =
    let rest = check_parents expanded parts (suc i) rounds in
    if not (has expanded (join (take i parts) slash)) then false else rest

unfoldable pub is_path_visible : Text → List Text → Bool
is_path_visible path expanded =
    let parts = split path slash in
    if leb (length parts) 1 then true else check_parents expanded parts 1 (length parts - 1)

abbrev pub last_part : Text → List Text → Text
last_part p [] = p
last_part p (q ∷ ps) = last_part q ps

abbrev pub last_of : List Text → Text
last_of [] = []
last_of (p ∷ ps) = last_part p ps

-- `parts[parts.length - 1]` of `path.split("/")`, which has a part.
unfoldable pub get_file_name : Text → Text
get_file_name path = last_of (split path slash)

-- `Math.max(parts.length - 1, 0) * 16`
unfoldable pub indent_for : Text → ℕ
indent_for path = (length (split path slash) - 1) * 16

pub record FileEntry : Type 0 where
  pub path : Text
  pub size : ℕ
  pub updated_at : Text
  pub is_dir : Bool
