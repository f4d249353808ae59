-- ===== src/Prelude/Parts.antt =====
-- `split` and `join` of texts at one separator.
use pb_launcher.Prelude.Tests.{◌==◌, Bool-cases}
use pb_launcher.Prelude.Strings.{Text, split, join, push_head}
use pb_launcher.Prelude.Lists.{length, take, drop}
use Prim.Native.Nat.{ℕ, zero, suc, ◌<◌}
use mathlib.Core.Path.{◌≡◌, refl, ap, ◌∙◌, sym}
use mathlib.Core.Logic.{◌≢◌, inl, inr}
use mathlib.Core.List.{List, [], ◌∷◌, ◌++◌, append_assoc}
use native.Mathlib.Omega.{arith}

pub take-length-append {ℓ} : {A : Type ℓ} (xs ys : List A) → take (length xs) (xs ++ ys) ≡ xs
take-length-append [] ys = refl
take-length-append (x ∷ xs) ys = ap (◌∷◌ x) (take-length-append xs ys)

pub take-append-drop {ℓ} : {A : Type ℓ} (n : ℕ) (xs : List A) → take n xs ++ drop n xs ≡ xs
take-append-drop zero xs = refl
take-append-drop (suc n) [] = refl
take-append-drop (suc n) (x ∷ xs) = ap (◌∷◌ x) (take-append-drop n xs)

pub take-ne-nil {ℓ} : {A : Type ℓ} (n : ℕ) (xs : List A) → 0 < n → xs ≢ [] → take n xs ≢ []
take-ne-nil zero xs h ne = absurd (omega arith)
take-ne-nil (suc n) [] h ne = absurd (ne refl)
take-ne-nil (suc n) (x ∷ xs) h ne = λ e. cc

pub drop-ne-nil {ℓ} : {A : Type ℓ} (n : ℕ) (xs : List A) → n < length xs → drop n xs ≢ []
drop-ne-nil n [] h = absurd (omega arith)
drop-ne-nil zero (x ∷ xs) h = λ e. cc
drop-ne-nil (suc n) (x ∷ xs) h = drop-ne-nil n xs (omega arith)

module _ (sep : ℕ) where
  pub split-ne-nil : (s : Text) → split s sep ≢ []
  split-ne-nil [] = λ e. cc
  split-ne-nil (c ∷ s) = elim (Bool-cases (c == sep)) [
    | inl e ↦ rw e (λ f. cc)
    | inr e ↦ rw e (push_ne c (split s sep))
  ]
    where
      push_ne : (c : ℕ) (ps : List Text) → push_head c ps ≢ []
      push_ne c [] = λ e. cc
      push_ne c (p ∷ ps) = λ e. cc

  join-push_head : (c : ℕ) (ps : List Text) → ps ≢ [] → join (push_head c ps) sep ≡ c ∷ join ps sep
  join-push_head c [] h = absurd (h refl)
  join-push_head c (p ∷ []) h = refl
  join-push_head c (p ∷ q ∷ ps) h = refl

  join_cons : (ps : List Text) → ps ≢ [] → join ([] ∷ ps) sep ≡ sep ∷ join ps sep
  join_cons [] h = absurd (h refl)
  join_cons (p ∷ ps) h = refl

  pub join-split : (s : Text) → join (split s sep) sep ≡ s
  join-split [] = refl
  join-split (c ∷ s) = elim (Bool-cases (c == sep)) [
    | inl e ↦ rw e (join_cons (split s sep) (split-ne-nil s) ∙ ground (arith, join-split s))
    | inr e ↦ rw e (join-push_head c (split s sep) (split-ne-nil s) ∙ ap (◌∷◌ c) (join-split s))
  ]

  push_head-append :
      (c : ℕ) (ps qs : List Text) → ps ≢ [] → push_head c (ps ++ qs) ≡ push_head c ps ++ qs
  push_head-append c [] qs h = absurd (h refl)
  push_head-append c (p ∷ ps) qs h = refl

  pub split-append : (a r : Text) → split (a ++ sep ∷ r) sep ≡ split a sep ++ split r sep
  split-append [] r = ground arith
  split-append (c ∷ a) r = elim (Bool-cases (c == sep)) [
    | inl e ↦ rw e (ap (◌∷◌ []) (split-append a r))
    | inr e ↦ rw e (
        ap (push_head c) (split-append a r)
        ∙ push_head-append c (split a sep) (split r sep) (split-ne-nil a))
  ]

  pub join-append :
      (ps qs : List Text)
      → ps ≢ []
      → qs ≢ []
      → join (ps ++ qs) sep ≡ join ps sep ++ (sep ∷ join qs sep)
  join-append [] qs h k = absurd (h refl)
  join-append (p ∷ []) [] h k = absurd (k refl)
  join-append (p ∷ []) (q ∷ qs) h k = refl
  join-append (p ∷ q ∷ ps) qs h k =
      rw (join-append (q ∷ ps) qs (λ e. cc) k)
        (sym (append_assoc p (sep ∷ join (q ∷ ps) sep) (sep ∷ join qs sep)))

pub length_pos {ℓ} : {A : Type ℓ} (xs : List A) → xs ≢ [] → 0 < length xs
length_pos [] h = absurd (h refl)
length_pos (x ∷ xs) h = omega arith
