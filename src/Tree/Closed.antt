-- ===== src/Tree/Closed.antt =====
-- The open folders are closed upwards: above an open folder every folder is open.
use mathlib.Core.Bool.{false≢true}
use pb_launcher.Prelude.{
  ℕ, Text, List, [], ◌∷◌, ◌++◌, Bool, true, false, not, ◌&&◌, ◌||◌, ◌≡◌, refl, ap, sym, ◌∙◌, arith,
  filter, text_eq, text_eq→eq, text_eq_refl, starts_with, Bool-cases, inl, inr, and_true, or_true,
  length, length-append, append-nil,
}
use mathlib.Core.Path.{subst}
use pb_launcher.Tree.{slash, has, delete, toggle_path, is_path_visible}
use pb_launcher.Tree.Visible.{Above, is_path_visible_iff}
use pb_launcher.Tree.Toggle.{below_iff, has-toggle_path, toggle_path_keeps, has-append}

abbrev pub IsClosed : List Text → Type 0
IsClosed es = (q : Text) → has es q ≡ true → is_path_visible q es ≡ true

not-Above_self : (p : Text) → Above p p → ⊥
not-Above_self p (r, e) = absurd (omega (arith, ap (length {A = ℕ}) e, length-append p (slash ∷ r)))

-- Where every open folder is shown, a click on a folder that is shown keeps it so: no folder stays
-- open below one that is closed.
pub toggle_path-IsClosed :
    (p : Text) (es : List Text)
    → IsClosed es
    → is_path_visible p es ≡ true
    → IsClosed (toggle_path p es)
toggle_path-IsClosed p es closed shown q h = elim (Bool-cases (has es p)) [
  | inl e ↦
      let kept = and_true _ _ (sym (at_open e) ∙ h) in
      let (differs, old) = and_true _ _ kept.1 in
      toggle_path_keeps p q es (λ above. not_both _ kept.0 ((below_iff p q).1 above)) ∙ closed q old
  | inr e ↦ elim (or_true _ _ (sym (at_shut e) ∙ h)) [
    | inl old ↦
        toggle_path_keeps p q es
          (λ above. false≢true (sym e ∙ (is_path_visible_iff q es).0 (closed q old) p above))
        ∙ closed q old
    | inr same ↦
        let eq = text_eq→eq q p same in
        toggle_path_keeps p q es (λ above. not-Above_self p (subst (λ t. Above p t) eq above))
        ∙ ap (λ t. is_path_visible t es) eq
        ∙ shown
  ]
]
  where
    at_open :
        has es p ≡ true
        → has (toggle_path p es) q
          ≡ not (starts_with q (p ++ slash ∷ [])) && (not (text_eq p q) && has es q)
    at_open e = has-toggle_path p es q ∙ rw e

    at_shut : has es p ≡ false → has (toggle_path p es) q ≡ has es q || text_eq q p
    at_shut e = has-toggle_path p es q ∙ rw e

    not_both : (b : Bool) → not b ≡ true → b ≡ true → ⊥
    not_both b f g = ground arith

filter_all :
    (f : Text → Bool) (es : List Text)
    → ((x : Text) → has es x ≡ true → f x ≡ true)
    → filter f es ≡ es
filter_all f [] h = refl
filter_all f (x ∷ es) h =
    rw (h x (rw (text_eq_refl x)))
      (ap (λ t. x ∷ t) (filter_all f es (λ y k. h y (rw k (or_true_right (text_eq y x))))))
  where
    or_true_right : (b : Bool) → (b || true) ≡ true
    or_true_right b = ground arith

filter-append :
    (f : Text → Bool) (es fs : List Text) → filter f (es ++ fs) ≡ filter f es ++ filter f fs
filter-append f [] fs = refl
filter-append f (x ∷ es) fs = elim (Bool-cases (f x)) [
  | inl e ↦ rw e (ap (λ t. x ∷ t) (filter-append f es fs))
  | inr e ↦ rw e (filter-append f es fs)
]

toggle_shut : (p : Text) (es : List Text) → has es p ≡ false → toggle_path p es ≡ es ++ p ∷ []
unfolding toggle_path
toggle_shut p es h = rw h

toggle_open :
    (p : Text) (es : List Text)
    → has es p ≡ true
    → toggle_path p es ≡ filter (λ q. not (starts_with q (p ++ slash ∷ []))) (delete es p)
unfolding toggle_path
toggle_open p es h = rw h

added : (p : Text) (es : List Text) → has (es ++ p ∷ []) p ≡ true
added p es = has-append es (p ∷ []) p ∙ rw (text_eq_refl p) (any_true (has es p))
  where
    any_true : (b : Bool) → (b || true) ≡ true
    any_true b = ground arith

drop_added :
    (p : Text) (es : List Text)
    → filter (λ q. not (text_eq p q)) es ++ filter (λ q. not (text_eq p q)) (p ∷ [])
      ≡ filter (λ q. not (text_eq p q)) es
drop_added p es = rw (text_eq_refl p) (append-nil _)

not_of_false : (b : Bool) → (b ≡ true → ⊥) → not b ≡ true
not_of_false true h = absurd (h refl)
not_of_false false h = refl

other :
    (p q : Text) (es : List Text) → has es p ≡ false → has es q ≡ true → not (text_eq p q) ≡ true
other p q es h k = not_of_false _ (λ e. false≢true (sym h ∙ ap (has es) (text_eq→eq p q e) ∙ k))

-- Where every open folder is shown, opening a folder that is not open and closing it again gives the
-- open folders of before, in their order.
pub toggle_path_twice :
    (p : Text) (es : List Text)
    → IsClosed es
    → has es p ≡ false
    → toggle_path p (toggle_path p es) ≡ es
toggle_path_twice p es closed h =
    ap (toggle_path p) (toggle_shut p es h)
    ∙ toggle_open p (es ++ p ∷ []) (added p es)
    ∙ ap (filter (λ q. not (starts_with q (p ++ slash ∷ [])))) (
        filter-append (λ q. not (text_eq p q)) es (p ∷ [])
        ∙ drop_added p es
        ∙ filter_all (λ q. not (text_eq p q)) es (λ q k. other p q es h k))
    ∙ filter_all (λ q. not (starts_with q (p ++ slash ∷ []))) es
        (λ q k. not_of_false _ (λ b.
          false≢true (sym h ∙ (is_path_visible_iff q es).0 (closed q k) p ((below_iff p q).0 b))))
