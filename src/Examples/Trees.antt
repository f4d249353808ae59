-- ===== src/Examples/Trees.antt =====
-- The file tree at concrete paths.
use pb_launcher.Prelude.{Text, codes, List, [], ◌∷◌, true, false, ◌≡◌, ◌↔◌, refl, arith}
use pb_launcher.Tree.{slash, has, toggle_path, is_path_visible, check_parents}
use pb_launcher.Tree.Visible.{Above, is_path_visible_iff}
use pb_launcher.Tree.Toggle.{toggle_path_changes}
use pb_launcher.Tree.Closed.{IsClosed, toggle_path-IsClosed}

abbrev opened : List Text
opened = codes "a" ∷ codes "a/b" ∷ codes "c" ∷ []

closing_run : toggle_path (codes "a") opened ≡ codes "c" ∷ []
unfolding toggle_path
closing_run = refl

shown_run : is_path_visible (codes "a/b/f") opened ≡ true
unfolding is_path_visible check_parents
shown_run = refl

is_path_visible_iff_example :
    (is_path_visible (codes "a/b/f") opened ≡ true)
    ↔ ((a : Text) → Above a (codes "a/b/f") → has opened a ≡ true)
is_path_visible_iff_example = is_path_visible_iff (codes "a/b/f") opened

toggle_path_changes_example :
    (has opened (codes "a") ≡ true
      → Above (codes "a") (codes "a/b/f")
      → is_path_visible (codes "a/b/f") (toggle_path (codes "a") opened) ≡ false)
    × ((Above (codes "a") (codes "a/b/f") → ⊥)
        → is_path_visible (codes "a/b/f") (toggle_path (codes "a") opened)
          ≡ is_path_visible (codes "a/b/f") opened)
toggle_path_changes_example = toggle_path_changes (codes "a") (codes "a/b/f") opened

nothing_open : IsClosed []
nothing_open q h = cc

a_shown : is_path_visible (codes "a") [] ≡ true
unfolding is_path_visible
a_shown = refl

toggle_path-IsClosed_example : IsClosed (toggle_path (codes "a") [])
toggle_path-IsClosed_example = toggle_path-IsClosed (codes "a") [] nothing_open a_shown

f_not_slash : b'f' ≡ slash → ⊥
f_not_slash e = omega arith
