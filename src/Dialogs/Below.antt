-- ===== src/Dialogs/Below.antt =====
-- The folder that a path leads to, once its `.` and `..` segments are resolved, as the server does
-- before it opens a file.
use pb_launcher.Prelude.{
  Text, codes, List, [], ◌∷◌, ◌++◌, append-nil, append_assoc, false, ◌||◌, any, split, split-append,
  text_eq, ◌==◌, Bool-cases, inl, inr, ◌≡◌, refl, sym, ap, ◌∙◌, arith, if◌then◌else◌,
}
use pb_launcher.Tree.{slash}
use pb_launcher.Dialogs.{final_path}

-- The last segment is left; above the first there is nothing, and the server refuses what leads there.
abbrev pub parent : List Text → List Text
parent [] = []
parent (s ∷ []) = []
parent (s ∷ t ∷ ss) = s ∷ parent (t ∷ ss)

-- A segment entered from a folder: an empty one and `.` stay, and `..` leaves.
abbrev pub enter : List Text → Text → List Text
enter here s =
    if text_eq [] s || text_eq (codes ".") s
    then here
    else (if text_eq (codes "..") s then parent here else here ++ s ∷ [])

abbrev pub walk : List Text → List Text → List Text
walk here [] = here
walk here (s ∷ ss) = walk (enter here s) ss

-- The folders that a path leads through.
abbrev pub resolved : Text → List Text
resolved path = walk [] (split path slash)

abbrev pub IsBelow : Text → Text → Type 0
IsBelow folder path = (rest : List Text) × (resolved path ≡ resolved folder ++ rest)

walk-append : (here ss ts : List Text) → walk here (ss ++ ts) ≡ walk (walk here ss) ts
walk-append here [] ts = refl
walk-append here (s ∷ ss) ts = walk-append (enter here s) ss ts

-- A segment other than `..` adds at most itself.
enter_more :
    (here : List Text) (s : Text)
    → text_eq (codes "..") s ≡ false
    → (more : List Text) × (enter here s ≡ here ++ more)
enter_more here s n = elim (Bool-cases (text_eq [] s || text_eq (codes ".") s)) [
  | inl e ↦ ([], rw e (sym (append-nil here)))
  | inr e ↦ (s ∷ [], rw (e, n) refl)
]

walk_more :
    (here ss : List Text)
    → any (text_eq (codes "..")) ss ≡ false
    → (rest : List Text) × (walk here ss ≡ here ++ rest)
walk_more here [] n = ([], sym (append-nil here))
walk_more here (s ∷ ss) n =
    let (more, e) = enter_more here s (ground (arith, n)) in
    let (rest, f) = walk_more (enter here s) ss (ground (arith, n)) in
    (more ++ rest, f ∙ ap (λ l. l ++ rest) e ∙ append_assoc here more rest)

joined-IsBelow :
    (folder r : Text)
    → any (text_eq (codes "..")) (split r slash) ≡ false
    → IsBelow folder (folder ++ slash ∷ r)
joined-IsBelow folder r n =
    let (rest, e) = walk_more (resolved folder) (split r slash) n in
    (
      rest,
      ap (walk []) (split-append slash folder r)
          ∙ walk-append [] (split folder slash) (split r slash)
          ∙ e,
    )

pub final_path-IsBelow :
    (folder clean : Text)
    → any (text_eq (codes "..")) (split clean slash) ≡ false
    → IsBelow folder (final_path folder clean)
unfolding final_path
final_path-IsBelow folder [] n = joined-IsBelow folder [] n
final_path-IsBelow folder (c ∷ clean) n = elim (Bool-cases (c == slash)) [
  | inl e ↦ rw e (joined-IsBelow folder clean (ground (arith, n, e)))
  | inr e ↦ rw e (joined-IsBelow folder (c ∷ clean) n)
]
