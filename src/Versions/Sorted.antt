-- ===== src/Versions/Sorted.antt =====
-- The order of the releases that the form for another version offers.
use pb_launcher.Prelude.{
  ℕ, ◌-◌, List, [], ◌∷◌, Bool, true, false, ◌||◌, Option, none, some, any, filter, ◌≡◌, refl, sym,
  ap, ◌∙◌, arith, Bool-cases, inl, inr,
}
use pb_launcher.Prelude.Int.{ℤ, pos, negsuc, ◌-ℤ◌}
use pb_launcher.Collections.Writes.{ReleaseOption}
use pb_launcher.Versions.{
  difference, first_difference, compare_parts, compare_versions, parts_of, is_positive, Installed,
  insert_release, sort_releases, is_candidate, change_candidates,
}
use pb_launcher.Versions.Compare.{minus_less, minus_same, trichotomy, negative_no}

negative : (n : ℕ) (rest : Option ℤ) → is_positive (first_difference (some (negsuc n)) rest) ≡ false
negative n rest = ground arith

asym_step :
    (x y : Option ℕ) (rest back : Option ℤ)
    → (is_positive rest ≡ true → is_positive back ≡ false)
    → is_positive (first_difference (difference x y) rest) ≡ true
    → is_positive (first_difference (difference y x) back) ≡ false
asym_step none y rest back k h = cc
asym_step (some x) none rest back k h = cc
asym_step (some x) (some y) rest back k h = elim (trichotomy x y) [
  | inl less ↦ absurd (negative_no (y - x - 1) rest (at _ (minus_less x y less)))
  | inr (inl same) ↦ rw (minus_same y x (sym same)) (k (at _ (minus_same x y same)))
  | inr (inr more) ↦ rw (minus_less y x more) (negative (x - y - 1) back)
]
  where
    at : (z : ℤ) → pos x -ℤ pos y ≡ z → is_positive (first_difference (some z) rest) ≡ true
    at z e = rw (sym e) h

compare_asym :
    (xs ys : List (Option ℕ))
    → is_positive (compare_parts xs ys) ≡ true
    → is_positive (compare_parts ys xs) ≡ false
unfolding compare_parts
compare_asym [] [] h = cc
compare_asym (x ∷ xs) [] h = asym_step x (some 0) _ _ (compare_asym xs []) h
compare_asym [] (y ∷ ys) h = asym_step (some 0) y _ _ (compare_asym [] ys) h
compare_asym (x ∷ xs) (y ∷ ys) h = asym_step x y _ _ (compare_asym xs ys) h

turned :
    (n r : ReleaseOption)
    → is_positive (compare_versions n.version r.version) ≡ true
    → is_positive (compare_versions r.version n.version) ≡ false
unfolding compare_versions
turned n r h = compare_asym (parts_of n.version) (parts_of r.version) h

-- No release stands directly before a later one.
abbrev pub DescendsFrom : ReleaseOption → List ReleaseOption → Type 0
DescendsFrom m [] = Unit
DescendsFrom m (r ∷ rs) =
    (is_positive (compare_versions r.version m.version) ≡ false) × DescendsFrom r rs

abbrev pub IsDescending : List ReleaseOption → Type 0
IsDescending [] = Unit
IsDescending (r ∷ rs) = DescendsFrom r rs

insert_release-DescendsFrom :
    (m r : ReleaseOption) (rs : List ReleaseOption)
    → is_positive (compare_versions r.version m.version) ≡ false
    → DescendsFrom m rs
    → DescendsFrom m (insert_release r rs)
unfolding insert_release
insert_release-DescendsFrom m r [] h d = (h, tt)
insert_release-DescendsFrom m r (n ∷ rs) h (hn, d) =
    elim (Bool-cases (is_positive (compare_versions n.version r.version))) [
      | inl e ↦ rw e (hn, insert_release-DescendsFrom n r rs (turned n r e) d)
      | inr e ↦ rw e (h, (e, d))
    ]

insert_release-IsDescending :
    (r : ReleaseOption) (rs : List ReleaseOption)
    → IsDescending rs
    → IsDescending (insert_release r rs)
unfolding insert_release
insert_release-IsDescending r [] d = tt
insert_release-IsDescending r (n ∷ rs) d =
    elim (Bool-cases (is_positive (compare_versions n.version r.version))) [
      | inl e ↦ rw e (insert_release-DescendsFrom n r rs (turned n r e) d)
      | inr e ↦ rw e (e, d)
    ]

sort_releases-IsDescending : (rs : List ReleaseOption) → IsDescending (sort_releases rs)
unfolding sort_releases
sort_releases-IsDescending [] = tt
sort_releases-IsDescending (r ∷ rs) =
    insert_release-IsDescending r (sort_releases rs) (sort_releases-IsDescending rs)

any-insert_release :
    (p : ReleaseOption → Bool) (r : ReleaseOption) (rs : List ReleaseOption)
    → any p (insert_release r rs) ≡ p r || any p rs
unfolding insert_release
any-insert_release p r [] = refl
any-insert_release p r (n ∷ rs) = ground (arith, any-insert_release p r rs)

any-sort_releases :
    (p : ReleaseOption → Bool) (rs : List ReleaseOption) → any p (sort_releases rs) ≡ any p rs
unfolding sort_releases
any-sort_releases p [] = refl
any-sort_releases p (r ∷ rs) =
    any-insert_release p r (sort_releases rs) ∙ ap (◌||◌ (p r)) (any-sort_releases p rs)

-- Whatever the texts of the versions, the releases are offered with none directly before a later
-- one, and they are those of the service's repository other than the installed one.
pub change_candidates-IsDescending :
    (service : Installed) (releases : List ReleaseOption)
    → IsDescending (change_candidates service releases)
      × ((p : ReleaseOption → Bool)
          → any p (change_candidates service releases)
            ≡ any p (filter (is_candidate service) releases))
unfolding change_candidates
change_candidates-IsDescending service releases = (
  sort_releases-IsDescending (filter (is_candidate service) releases),
  λ p. any-sort_releases p (filter (is_candidate service) releases),
)
