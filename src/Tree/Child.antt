-- ===== src/Tree/Child.antt =====
-- What is shown directly below a folder.
use mathlib.Core.Path.{subst}
use pb_launcher.Prelude.{
  Text, List, [], ◌∷◌, ◌++◌, Bool, true, ◌&&◌, ◌≡◌, ◌≢◌, ◌⊎◌, refl, sym, arith, inl, inr, All,
  eq_of_tests, and_true,
}
use pb_launcher.Tree.{slash, has, is_path_visible}
use pb_launcher.Tree.Visible.{Above, is_path_visible_iff}
use pb_launcher.Tree.Toggle.{Above-trans}

abbrev pub IsName : Text → Type 0
IsName = All (λ c. c ≢ slash)

no_slash : (a rest name : Text) → IsName name → name ≡ a ++ slash ∷ rest → ⊥
no_slash [] rest [] h e = cc
no_slash [] rest (c ∷ name) h e = h.0 (ground arith)
no_slash (d ∷ a) rest [] h e = cc
no_slash (d ∷ a) rest (c ∷ name) h e = no_slash a rest name h.1 (ground arith)

-- The folders above a child are its folder and those above that.
Above-child :
    (a p name : Text)
    → IsName name
    → (rest : Text) → p ++ slash ∷ name ≡ a ++ slash ∷ rest
    → (a ≡ p) ⊎ Above a p
Above-child [] [] name h rest e = inl refl
Above-child [] (c ∷ p) name h rest e = inr (p, ground arith)
Above-child (d ∷ a) [] name h rest e = absurd (no_slash a rest name h (ground arith))
Above-child (d ∷ a) (c ∷ p) name h rest e = elim (Above-child a p name h rest (ground arith)) [
  | inl f ↦ inl (ground (arith, f))
  | inr (r, f) ↦ inr (r, ground (arith, f))
]

-- A path of a folder and a name without a slash is shown exactly if the folder is open and shown.
pub visible_child :
    (p name : Text) (es : List Text)
    → IsName name
    → is_path_visible (p ++ slash ∷ name) es ≡ has es p && is_path_visible p es
visible_child p name es h =
    eq_of_tests _ _
      (λ v.
        let all = (is_path_visible_iff (p ++ slash ∷ name) es).0 v in
        both (all p (name, refl)) (
          (is_path_visible_iff p es).1
            (λ a above. all a (Above-trans a p (p ++ slash ∷ name) above (name, refl)))))
      (λ v.
        let (opened, shown) = and_true _ _ v in
        (is_path_visible_iff (p ++ slash ∷ name) es).1 (λ a above.
          elim (Above-child a p name h above.0 above.1) [
            | inl e ↦ subst (λ t. has es t ≡ true) (sym e) opened
            | inr up ↦ (is_path_visible_iff p es).0 shown a up
          ]))
  where
    both : {a b : Bool} → a ≡ true → b ≡ true → (a && b) ≡ true
    both e f = ground arith
