-- ===== src/Tree/Names.antt =====
-- The name and the indent of a row.
use pb_launcher.Prelude.{
  ℕ, ◌+◌, Text, List, [], ◌∷◌, ◌++◌, false, ◌≡◌, ◌≢◌, refl, arith, split, length-append, length_pos,
  split-ne-nil, split-append, ◌==◌,
}
use pb_launcher.Tree.{slash, last_of, last_part, get_file_name, indent_for}
use pb_launcher.Tree.Child.{IsName}

split_name : (name : Text) → IsName name → split name slash ≡ name ∷ []
split_name [] h = refl
split_name (c ∷ name) h = rw (differs c h.0, split_name name h.1)
  where
    differs : (c : ℕ) → c ≢ slash → (c == slash) ≡ false
    differs c h = ground arith

last_part-append : (p : Text) (ps : List Text) (q : Text) → last_part p (ps ++ q ∷ []) ≡ q
last_part-append p [] q = refl
last_part-append p (r ∷ ps) q = last_part-append r ps q

last_of-append : (ps : List Text) (q : Text) → last_of (ps ++ q ∷ []) ≡ q
last_of-append [] q = refl
last_of-append (p ∷ ps) q = last_part-append p ps q

-- A row shows the name behind the last slash, one step of 16 pixels further in than its folder.
pub row_of_child :
    (p name : Text)
    → IsName name
    → (get_file_name (p ++ slash ∷ name) ≡ name)
      × (indent_for (p ++ slash ∷ name) ≡ indent_for p + 16)
unfolding get_file_name indent_for
row_of_child p name h =
    let pos = length_pos (split p slash) (split-ne-nil slash p) in
    rw (split-append slash p name, split_name name h)
      (
        last_of-append (split p slash) name,
        omega (arith, length-append (split p slash) (name ∷ [])),
      )
