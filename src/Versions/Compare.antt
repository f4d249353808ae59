-- ===== src/Versions/Compare.antt =====
-- `compareVersions` on versions of numbers.
use pb_launcher.Prelude.{
  ℕ, zero, suc, ◌<◌, ◌-◌, Text, List, [], ◌∷◌, true, Option, some, map, ◌≡◌, ◌↔◌, ◌⊎◌, inl, inr,
  refl, arith,
}
use pb_launcher.Prelude.Int.{ℤ, pos, negsuc, ◌-ℤ◌}
use pb_launcher.Versions.{first_difference, compare_parts, compare_versions, parts_of, is_positive}

-- The number at a place of a version, 0 behind its end.
abbrev pub number_at : List ℕ → ℕ → ℕ
number_at [] i = 0
number_at (x ∷ xs) zero = x
number_at (x ∷ xs) (suc i) = number_at xs i

-- At the first place where the numbers differ the one is larger.
abbrev pub IsLater : (ℕ → ℕ) → (ℕ → ℕ) → Type 0
IsLater f g = (i : ℕ) × (((j : ℕ) → j < i → f j ≡ g j) × (g i < f i))

IsLater-step :
    (f g : ℕ → ℕ)
    → IsLater f g ↔ ((g 0 < f 0) ⊎ ((f 0 ≡ g 0) × IsLater (λ i. f (suc i)) (λ i. g (suc i))))
IsLater-step f g = (split_first, join_first)
  where
    split_first :
        IsLater f g → (g 0 < f 0) ⊎ ((f 0 ≡ g 0) × IsLater (λ i. f (suc i)) (λ i. g (suc i)))
    split_first (zero, (h, lt)) = inl lt
    split_first (suc i, (h, lt)) =
        inr (h 0 (omega arith), (i, (λ j k. h (suc j) (omega arith), lt)))

    join_first :
        (g 0 < f 0) ⊎ ((f 0 ≡ g 0) × IsLater (λ i. f (suc i)) (λ i. g (suc i))) → IsLater f g
    join_first (inl lt) = (0, (λ j k. absurd (omega arith), lt))
    join_first (inr (e, (i, (h, lt)))) = (suc i, (below, lt))
      where
        below : (j : ℕ) → j < suc i → f j ≡ g j
        below zero k = e
        below (suc j) k = h j (omega arith)

pub minus_less : (x y : ℕ) → x < y → pos x -ℤ pos y ≡ negsuc (y - x - 1)
unfolding ◌-ℤ◌
minus_less x y h = ground arith

pub minus_same : (x y : ℕ) → x ≡ y → pos x -ℤ pos y ≡ pos 0
unfolding ◌-ℤ◌
minus_same x y h = ground arith

pub minus_more : (x y : ℕ) → y < x → pos x -ℤ pos y ≡ pos (suc (x - y - 1))
unfolding ◌-ℤ◌
minus_more x y h = ground arith

pub negative_no :
    (n : ℕ) (rest : Option ℤ) → is_positive (first_difference (some (negsuc n)) rest) ≡ true → ⊥
negative_no n rest e = ground arith

positive_yes :
    (n : ℕ) (rest : Option ℤ) → is_positive (first_difference (some (pos (suc n))) rest) ≡ true
positive_yes n rest = ground arith

pub trichotomy : (x y : ℕ) → (x < y) ⊎ (x ≡ y) ⊎ (y < x)
trichotomy x y = omega arith

positive_step :
    (x y : ℕ) (rest : Option ℤ)
    → (is_positive (first_difference (some (pos x -ℤ pos y)) rest) ≡ true)
      ↔ ((y < x) ⊎ ((x ≡ y) × (is_positive rest ≡ true)))
positive_step x y rest = elim (trichotomy x y) [
  | inl less ↦
      rw (minus_less x y less)
        (λ e. absurd (negative_no (y - x - 1) rest e), λ o. absurd (not_more less o))
  | inr (inl same) ↦ rw (minus_same x y same) (λ e. inr (same, e), λ o. of_same same o)
  | inr (inr more) ↦ rw (minus_more x y more) (λ e. inl more, λ o. positive_yes (x - y - 1) rest)
]
  where
    not_more : x < y → (y < x) ⊎ ((x ≡ y) × (is_positive rest ≡ true)) → ⊥
    not_more l (inl m) = omega arith
    not_more l (inr (e, h)) = omega arith

    of_same : x ≡ y → (y < x) ⊎ ((x ≡ y) × (is_positive rest ≡ true)) → is_positive rest ≡ true
    of_same e (inl m) = absurd (omega arith)
    of_same e (inr (_, h)) = h

-- One round of the loop, for lists with the first numbers x and y.
round :
    (x y : ℕ) (f g : ℕ → ℕ) (rest : Option ℤ)
    → f 0 ≡ x
    → g 0 ≡ y
    → (is_positive rest ≡ true) ↔ IsLater (λ i. f (suc i)) (λ i. g (suc i))
    → (is_positive (first_difference (some (pos x -ℤ pos y)) rest) ≡ true) ↔ IsLater f g
round x y f g rest ef eg (there, back) =
    let (a, b) = positive_step x y rest in
    let (c, d) = IsLater-step f g in
    (
      λ e. d (forth (a e)),
      λ l. b (elim (c l) [ inl m ↦ inl (omega arith) | inr (e, h) ↦ inr (omega arith, back h) ]),
    )
  where
    forth :
        (y < x) ⊎ ((x ≡ y) × (is_positive rest ≡ true))
        → (g 0 < f 0) ⊎ ((f 0 ≡ g 0) × IsLater (λ i. f (suc i)) (λ i. g (suc i)))
    forth (inl m) = inl (omega arith)
    forth (inr (e, h)) = inr (omega arith, there h)

no_later : IsLater (λ i. 0) (λ i. 0) → ⊥
no_later (i, (h, lt)) = omega arith

compare-IsLater :
    (xs ys : List ℕ)
    → (is_positive (compare_parts (map some xs) (map some ys)) ≡ true)
      ↔ IsLater (number_at xs) (number_at ys)
unfolding compare_parts
compare-IsLater [] [] = (λ e. cc, λ l. absurd (no_later l))
compare-IsLater (x ∷ xs) [] =
    round x 0 (number_at (x ∷ xs)) (number_at []) _ refl refl (compare-IsLater xs [])
compare-IsLater [] (y ∷ ys) =
    round 0 y (number_at []) (number_at (y ∷ ys)) _ refl refl (compare-IsLater [] ys)
compare-IsLater (x ∷ xs) (y ∷ ys) =
    round x y (number_at (x ∷ xs)) (number_at (y ∷ ys)) _ refl refl (compare-IsLater xs ys)

-- Of two versions of numbers the first is compared as larger exactly if it is larger at the first
-- place where they differ, the places behind the end counting as 0.
pub compare_versions_iff :
    (a b : Text) (xs ys : List ℕ)
    → parts_of a ≡ map some xs
    → parts_of b ≡ map some ys
    → (is_positive (compare_versions a b) ≡ true) ↔ IsLater (number_at xs) (number_at ys)
unfolding compare_versions
compare_versions_iff a b xs ys p q = rw (p, q) (compare-IsLater xs ys)
