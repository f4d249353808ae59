-- ===== src/Prelude/Blank.antt =====
-- White space, as `trim` and `\s` take it.
use pb_launcher.Prelude.Tests.{◌==◌, leb}
use pb_launcher.Prelude.Strings.{Text}
use pb_launcher.Prelude.Lists.{any}
use Prim.Native.Nat.{ℕ}
use mathlib.Core.Bool.{Bool, false, ◌&&◌, ◌||◌}
use mathlib.Core.List.{List, [], ◌∷◌, ◌++◌, reverse, reverse-append, reverse-reverse}
use mathlib.Core.Path.{◌≡◌, refl, sym, ap, ◌∙◌}
use mathlib.Core.Logic.{inl, inr}
use pb_launcher.Prelude.Tests.{if◌then◌else◌, Bool-cases}

-- The code units of white space beyond the ASCII ones and the range from U+2000 to U+200A.
abbrev pub wide_blanks : List ℕ
wide_blanks = 32 ∷ 160 ∷ 5760 ∷ 8232 ∷ 8233 ∷ 8239 ∷ 8287 ∷ 12288 ∷ 65279 ∷ []

unfoldable pub is_blank : ℕ → Bool
is_blank c = (leb 9 c && leb c 13) || ((leb 8192 c && leb c 8202) || any (λ b. c == b) wide_blanks)

unfoldable pub trim_start : Text → Text
trim_start [] = []
trim_start (c ∷ s) = if is_blank c then trim_start s else c ∷ s

unfoldable pub trim : Text → Text
trim s = reverse (trim_start (reverse (trim_start s)))

trim_start_again : (s : Text) → trim_start (trim_start s) ≡ trim_start s
unfolding trim_start
trim_start_again [] = refl
trim_start_again (c ∷ s) = elim (Bool-cases (is_blank c)) [
  | inl e ↦ rw e (trim_start_again s)
  | inr e ↦ rw (e, trim_start) (rw e refl)
]

same_head : (d c : ℕ) (s t : Text) → d ∷ s ≡ c ∷ t → is_blank d ≡ false → is_blank c ≡ false
same_head d c s t h e = cc

trim_start-head : (s : Text) (c : ℕ) (t : Text) → trim_start s ≡ c ∷ t → is_blank c ≡ false
unfolding trim_start
trim_start-head [] c t h = cc
trim_start-head (d ∷ s) c t h = elim (Bool-cases (is_blank d)) [
  | inl e ↦ trim_start-head s c t (rw e at h)
  | inr e ↦ same_head d c s t (rw e at h) e
]

-- What is skipped is in front.
trim_start-suffix : (s : Text) → (front : Text) × (s ≡ front ++ trim_start s)
unfolding trim_start
trim_start-suffix [] = ([], refl)
trim_start-suffix (c ∷ s) = elim (Bool-cases (is_blank c)) [
  | inl e ↦ let (front, h) = trim_start-suffix s in (c ∷ front, rw e (ap (◌∷◌ c) h))
  | inr e ↦ ([], rw e refl)
]

prefix_kept :
    (y x rest : Text)
    → y ≡ x ++ rest
    → ((c : ℕ) (t : Text) → y ≡ c ∷ t → is_blank c ≡ false)
    → trim_start x ≡ x
unfolding trim_start
prefix_kept y [] rest h k = refl
prefix_kept y (c ∷ x) rest h k = rw (k c (x ++ rest) h) refl

-- A text that `trim` has gone over stays as it is.
pub trim_again : (s : Text) → trim (trim s) ≡ trim s
unfolding trim
trim_again s =
    let y : Text = trim_start s in
    let x : Text = reverse (trim_start (reverse y)) in
    let (front, h) = trim_start-suffix (reverse y) in
    let whole : y ≡ x ++ reverse front =
      sym (reverse-reverse y) ∙ ap reverse h ∙ reverse-append front (trim_start (reverse y)) in
    ap (λ u. reverse (trim_start (reverse u)))
      (prefix_kept y x (reverse front) whole (trim_start-head s))
    ∙ ap (λ u. reverse (trim_start u)) (reverse-reverse (trim_start (reverse y)))
    ∙ ap reverse (trim_start_again (reverse y))
