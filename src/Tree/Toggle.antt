-- ===== src/Tree/Toggle.antt =====
-- Opening and closing a folder.
use mathlib.Core.Path.{subst}
use mathlib.Core.Bool.{false≢true}
use pb_launcher.Prelude.{
  Text, List, [], ◌∷◌, ◌++◌, Bool, true, false, not, ◌&&◌, ◌||◌, ◌≡◌, ◌≢◌, ◌↔◌, refl, ap, sym, ◌∙◌,
  arith, filter, text_eq, text_eq→eq, text_eq_refl, starts_with, if◌then◌else◌, Bool-cases, inl,
  inr, append_assoc, eq_of_tests, and_true, ◌==◌,
}
use pb_launcher.Tree.{slash, has, delete, toggle_path, is_path_visible}
use pb_launcher.Tree.Visible.{Above, is_path_visible_iff}

and_false : (b : Bool) → (b && false) ≡ false
and_false b = ground arith

-- A text starts with another exactly if that is a prefix.
starts_split : (q p : Text) → starts_with q p ≡ true → (r : Text) × (q ≡ p ++ r)
starts_split q [] h = (q, refl)
starts_split [] (d ∷ p) h = cc
starts_split (c ∷ q) (d ∷ p) h =
    let (e, k) = and_true (c == d) (starts_with q p) h in
    let (r, f) = starts_split q p k in (r, ground (arith, f))

starts_prefix : (p r : Text) → starts_with (p ++ r) p ≡ true
starts_prefix [] r = refl
starts_prefix (c ∷ p) r = ground (arith, starts_prefix p r)

-- A path is below a folder exactly by the test that the code makes.
pub below_iff : (p q : Text) → (starts_with q (p ++ slash ∷ []) ≡ true) ↔ Above p q
below_iff p q = (
  λ h. let (r, e) = starts_split q (p ++ slash ∷ []) h in (r, e ∙ append_assoc p (slash ∷ []) r),
  λ a.
      subst (λ t. starts_with t (p ++ slash ∷ []) ≡ true)
        (append_assoc p (slash ∷ []) a.0 ∙ sym a.1) (starts_prefix (p ++ slash ∷ []) a.0),
)

pub text_eq_ne : (s t : Text) → s ≢ t → text_eq s t ≡ false
text_eq_ne s t h = elim (Bool-cases (text_eq s t)) [
  | inl e ↦ absurd (h (text_eq→eq s t e))
  | inr e ↦ e
]

has-filter : (p : Text → Bool) (es : List Text) (q : Text) → has (filter p es) q ≡ p q && has es q
has-filter p [] q = ground arith
has-filter p (x ∷ es) q = elim (Bool-cases (text_eq q x)) [
  | inl e ↦ ground (arith, has-filter p es q, ap p (text_eq→eq q x e))
  | inr e ↦ ground (arith, has-filter p es q)
]

pub has-append : (es fs : List Text) (q : Text) → has (es ++ fs) q ≡ has es q || has fs q
has-append [] fs q = refl
has-append (x ∷ es) fs q = ground (arith, has-append es fs q)

or_nil : (a b : Bool) → (a || (b || false)) ≡ (a || b)
or_nil a b = ground arith

-- Which folders are open after a click on `p`.
pub has-toggle_path :
    (p : Text) (es : List Text) (q : Text)
    → has (toggle_path p es) q ≡ (
        if has es p
        then not (starts_with q (p ++ slash ∷ [])) && (not (text_eq p q) && has es q)
        else has es q || text_eq q p)
unfolding toggle_path
has-toggle_path p es q = elim (Bool-cases (has es p)) [
  | inl e ↦ rw e (
      has-filter (λ t. not (starts_with t (p ++ slash ∷ []))) (delete es p) q
      ∙ ap (λ b. not (starts_with q (p ++ slash ∷ [])) && b)
          (has-filter (λ t. not (text_eq p t)) es q))
  | inr e ↦ rw e (has-append es (p ∷ []) q ∙ or_nil (has es q) (text_eq q p))
]

-- What stands above a path stands above or is what does not contain it.
pub Above-trans : (a p q : Text) → Above a p → Above p q → Above a q
Above-trans a p q (r, e) (t, f) =
    (r ++ (slash ∷ t), f ∙ ap (λ u. u ++ slash ∷ t) e ∙ append_assoc a (slash ∷ r) (slash ∷ t))

test_false : (b : Bool) → (b ≡ true → ⊥) → b ≡ false
test_false true h = absurd (h refl)
test_false false h = refl

-- A click on an open folder hides everything below it.
pub toggle_path_hides :
    (p q : Text) (es : List Text)
    → has es p ≡ true
    → Above p q
    → is_path_visible q (toggle_path p es) ≡ false
toggle_path_hides p q es h above = test_false _ λ v.
    let open_still = (is_path_visible_iff q (toggle_path p es)).0 v p above in
    false≢true (sym closed ∙ open_still)
  where
    closed : has (toggle_path p es) p ≡ false
    closed = has-toggle_path p es p ∙ rw (h, text_eq_refl p) (and_false _)

settle : (b c : Bool) → (if b then not false && (not false && c) else (c || false)) ≡ c
settle b c = ground arith

same-Above :
    (p q a : Text) (es : List Text)
    → (Above p q → ⊥)
    → Above a q
    → has (toggle_path p es) a ≡ has es a
same-Above p q a es out above =
    let not_it = text_eq_ne p a (λ e. out (subst (λ t. Above t q) (sym e) above)) in
    let not_it' = text_eq_ne a p (λ e. out (subst (λ t. Above t q) e above)) in
    let not_below =
      test_false (starts_with a (p ++ slash ∷ []))
        (λ h. out (Above-trans p a q ((below_iff p a).0 h) above)) in
    has-toggle_path p es a ∙ rw (not_it, not_it', not_below) (settle (has es p) (has es a))

-- Opening or closing a folder changes nothing of what is shown outside it.
pub toggle_path_keeps :
    (p q : Text) (es : List Text)
    → (Above p q → ⊥)
    → is_path_visible q (toggle_path p es) ≡ is_path_visible q es
toggle_path_keeps p q es out =
    eq_of_tests _ _
      (λ v. (is_path_visible_iff q es).1 (λ a above.
        sym (same-Above p q a es out above)
        ∙ (is_path_visible_iff q (toggle_path p es)).0 v a above))
      (λ v.
        (is_path_visible_iff q (toggle_path p es)).1
          (λ a above. same-Above p q a es out above ∙ (is_path_visible_iff q es).0 v a above))

-- A click on an open folder hides everything below it, and opening or closing a folder changes
-- nothing of what is shown outside it.
pub toggle_path_changes :
    (p q : Text) (es : List Text)
    → (has es p ≡ true → Above p q → is_path_visible q (toggle_path p es) ≡ false)
      × ((Above p q → ⊥) → is_path_visible q (toggle_path p es) ≡ is_path_visible q es)
toggle_path_changes p q es = (toggle_path_hides p q es, toggle_path_keeps p q es)
