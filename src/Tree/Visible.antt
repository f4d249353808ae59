-- ===== src/Tree/Visible.antt =====
-- A path is shown exactly if every folder above it is open.
use native.Mathlib.Decide.{ℕ_discrete}
use mathlib.Core.Path.{subst}
use pb_launcher.Prelude.{
  ℕ, zero, suc, ◌+◌, ◌-◌, ◌≤◌, ◌<◌, Text, List, ◌∷◌, ◌++◌, true, ◌≡◌, ◌↔◌, refl, ap, sym, ◌∙◌,
  arith, length, take, drop, split, join, leb, Bool-cases, inl, inr, length-append, length_pos,
  take-length-append, take-append-drop, take-ne-nil, drop-ne-nil, split-ne-nil, join-split,
  split-append, join-append,
}
use pb_launcher.Tree.{slash, has, check_parents, is_path_visible}

check_head :
    (e ps : List Text) (i rounds : ℕ)
    → check_parents e ps i (suc rounds) ≡ true
    → (has e (join (take i ps) slash) ≡ true) × (check_parents e ps (suc i) rounds ≡ true)
unfolding check_parents
check_head e ps i rounds h = ground arith

check_sound :
    (e ps : List Text) (i rounds j : ℕ)
    → check_parents e ps i rounds ≡ true
    → i ≤ j
    → j < i + rounds
    → has e (join (take j ps) slash) ≡ true
check_sound e ps i zero j h le lt = absurd (omega arith)
check_sound e ps i (suc rounds) j h le lt =
    let (first, rest) = check_head e ps i rounds h in
    elim (ℕ_discrete i j) [
      | yes p ↦ subst (λ (n : ℕ). has e (join (take n ps) slash) ≡ true) p first
      | no p ↦ check_sound e ps (suc i) rounds j rest (omega arith) (omega arith)
    ]

check_complete :
    (e ps : List Text) (i rounds : ℕ)
    → ((j : ℕ) → i ≤ j → j < i + rounds → has e (join (take j ps) slash) ≡ true)
    → check_parents e ps i rounds ≡ true
unfolding check_parents
check_complete e ps i zero h = refl
check_complete e ps i (suc rounds) h =
    let now = h i (omega arith) (omega arith) in
    rw now (check_complete e ps (suc i) rounds (λ j p q. h j (omega arith) (omega arith)))

-- A path of one part has no round to make.
visible_eq :
    (path : Text) (e : List Text)
    → is_path_visible path e ≡ check_parents e (split path slash) 1 (length (split path slash) - 1)
unfolding is_path_visible
visible_eq path e = elim (Bool-cases (leb (length (split path slash)) 1)) [
  | inl c ↦ rw (c, no_rounds (length (split path slash)) c) (unfold check_parents in refl)
  | inr c ↦ rw c
]
  where
    no_rounds : (n : ℕ) → leb n 1 ≡ true → n - 1 ≡ 0
    no_rounds n h = ground arith

-- The folders above a path.
abbrev pub Above : Text → Text → Type 0
Above a path = (rest : Text) × (path ≡ a ++ slash ∷ rest)

above_cut :
    (a rest : Text)
    → join (take (length (split a slash)) (split (a ++ slash ∷ rest) slash)) slash ≡ a
above_cut a rest =
    rw (split-append slash a rest, take-length-append (split a slash) (split rest slash))
      (join-split slash a)

above_length :
    (a rest : Text)
    → (0 < length (split a slash))
      × (length (split a slash) < length (split (a ++ slash ∷ rest) slash))
above_length a rest =
    let p = length_pos (split a slash) (split-ne-nil slash a) in
    let q = length_pos (split rest slash) (split-ne-nil slash rest) in
    rw (split-append slash a rest, length-append (split a slash) (split rest slash)) (omega arith)

cut-Above :
    (path : Text) (j : ℕ)
    → 0 < j
    → j < length (split path slash)
    → Above (join (take j (split path slash)) slash) path
cut-Above path j pos lt =
    let ps = split path slash in
    (
      join (drop j ps) slash,
      sym (join-split slash path)
          ∙ ap (λ qs. join qs slash) (sym (take-append-drop j ps))
          ∙ join-append slash (take j ps) (drop j ps)
              (take-ne-nil j ps pos (split-ne-nil slash path)) (drop-ne-nil j ps lt),
    )

visible_sound :
    (path : Text) (e : List Text)
    → is_path_visible path e ≡ true
    → (a rest : Text) → path ≡ a ++ slash ∷ rest
    → has e a ≡ true
visible_sound path e h a rest p =
    let (pos, lt) = above_length a rest in
    let checks =
      subst (λ q. check_parents e (split q slash) 1 (length (split q slash) - 1) ≡ true) p
        (sym (visible_eq path e) ∙ h) in
    subst (λ t. has e t ≡ true) (above_cut a rest)
      (check_sound e (split (a ++ slash ∷ rest) slash) 1 _ (length (split a slash)) checks
        (omega arith) (omega arith))

-- A path is shown exactly if every folder above it is open.
pub is_path_visible_iff :
    (path : Text) (expanded : List Text)
    → (is_path_visible path expanded ≡ true) ↔ ((a : Text) → Above a path → has expanded a ≡ true)
is_path_visible_iff path e = (
  λ h a above. visible_sound path e h a above.0 above.1,
  λ h.
      visible_eq path e
      ∙ check_complete e (split path slash) 1 (length (split path slash) - 1) (λ j p q.
        h (join (take j (split path slash)) slash) (cut-Above path j (omega arith) (omega arith))),
)
