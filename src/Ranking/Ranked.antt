-- ===== src/Ranking/Ranked.antt =====
-- The order and the pages of the ranking.
use pb_launcher.Prelude.{
  ℕ, suc, ◌+◌, ◌-◌, ◌*◌, ◌/◌, ◌≤◌, ◌<◌, Text, List, [], ◌∷◌, Bool, true, false, ◌≡◌, ◌≢◌, ◌⊎◌, inl,
  inr, refl, ap, sym, ◌∙◌, All, arith, drop, length, filter, leb, ltb, ◌==◌, if◌then◌else◌,
  take-ne-nil, drop-ne-nil, length_pos, Bool-cases,
}
use pb_launcher.Ranking.{
  UptimeView, RangeDays, active_hours, insert_row, sort_rows, Page, first_page, page_size, Act,
  set_search, set_range, previous, next, is_listed, processed_data, total_pages, paginated, act,
  acts,
}

-- From the most active to the least.
abbrev pub IsRanked : RangeDays → List UptimeView → Type 0
IsRanked r [] = Unit {0}
IsRanked r (v ∷ vs) = All (λ w. active_hours r w ≤ active_hours r v) vs × IsRanked r vs

All-below :
    (r : RangeDays) (n m : ℕ) (ws : List UptimeView)
    → n ≤ m
    → All (λ w. active_hours r w ≤ n) ws
    → All (λ w. active_hours r w ≤ m) ws
All-below r n m [] h k = tt
All-below r n m (w ∷ ws) h k = (omega (arith, k.0), All-below r n m ws h k.1)

insert-All :
    (r : RangeDays) (v : UptimeView) (m : ℕ) (ws : List UptimeView)
    → active_hours r v ≤ m
    → All (λ w. active_hours r w ≤ m) ws
    → All (λ w. active_hours r w ≤ m) (insert_row r v ws)
unfolding insert_row
insert-All r v m [] h k = (h, tt)
insert-All r v m (w ∷ ws) h k = elim (Bool-cases (ltb (active_hours r v) (active_hours r w))) [
  | inl e ↦ rw e (k.0, insert-All r v m ws h k.1)
  | inr e ↦ rw e (h, k)
]

less : (m n : ℕ) → ltb m n ≡ true → m ≤ n
less m n h = ground (arith, h)

not_less : (m n : ℕ) → ltb m n ≡ false → n ≤ m
not_less m n h = ground (arith, h)

insert-IsRanked :
    (r : RangeDays) (v : UptimeView) (ws : List UptimeView)
    → IsRanked r ws
    → IsRanked r (insert_row r v ws)
unfolding insert_row
insert-IsRanked r v [] h = (tt, tt)
insert-IsRanked r v (w ∷ ws) h = elim (Bool-cases (ltb (active_hours r v) (active_hours r w))) [
  | inl e ↦ rw e (insert-All r v (active_hours r w) ws (less _ _ e) h.0, insert-IsRanked r v ws h.1)
  | inr e ↦ rw e (
    (not_less _ _ e, All-below r (active_hours r w) (active_hours r v) ws (not_less _ _ e) h.0),
    h,
  )
]

sort-IsRanked : (r : RangeDays) (vs : List UptimeView) → IsRanked r (sort_rows r vs)
unfolding sort_rows
sort-IsRanked r [] = tt
sort-IsRanked r (v ∷ vs) = insert-IsRanked r v (sort_rows r vs) (sort-IsRanked r vs)

length-insert_row :
    (r : RangeDays) (v : UptimeView) (ws : List UptimeView)
    → length (insert_row r v ws) ≡ suc (length ws)
unfolding insert_row
length-insert_row r v [] = refl
length-insert_row r v (w ∷ ws) = ground (arith, length-insert_row r v ws)

length-sort_rows : (r : RangeDays) (vs : List UptimeView) → length (sort_rows r vs) ≡ length vs
unfolding sort_rows
length-sort_rows r [] = refl
length-sort_rows r (v ∷ vs) =
    length-insert_row r v (sort_rows r vs) ∙ ap suc (length-sort_rows r vs)

one_more : (t k : ℕ) → leb (t - 1) k ≡ false → k + 1 < t
one_more t k h = ground arith

module _ (lower : Text → Text) (vs : List UptimeView) where
  -- The pages that a search has, whatever the range.
  abbrev pages_of : Text → ℕ
  pages_of search = (length (filter (is_listed lower search) vs) + 9) / 10

  length-processed_data :
      (p : Page)
      → length (processed_data lower p vs) ≡ length (filter (is_listed lower p.search) vs)
  unfolding processed_data
  length-processed_data p = length-sort_rows p.range_days (filter (is_listed lower p.search) vs)

  total_pages-search : (p : Page) → total_pages lower p vs ≡ pages_of p.search
  unfolding total_pages processed_data
  total_pages-search p =
      rw (length-sort_rows p.range_days (filter (is_listed lower p.search) vs)) refl

  abbrev IsInRange : Page → Type 0
  IsInRange p = (p.page ≡ 0) ⊎ (p.page < pages_of p.search)

  pick :
      (b : Bool) (p q : Page)
      → IsInRange p
      → (b ≡ false → IsInRange q)
      → IsInRange (if b then p else q)
  pick true p q h f = h
  pick false p q h f = f refl

  act-IsInRange : (p : Page) (a : Act) → IsInRange p → IsInRange (act lower vs p a)
  unfolding act
  act-IsInRange p (set_search t) h = inl refl
  act-IsInRange p (set_range r) h = h
  act-IsInRange p previous h =
      pick (p.page == 0) p (record p { page = p.page - 1 }) h (λ e. fewer h)
    where
      fewer : IsInRange p → IsInRange (record p { page = p.page - 1 })
      fewer (inl e) = inl (omega arith)
      fewer (inr l) = inr (omega arith)
  act-IsInRange p next h =
      pick (leb (total_pages lower p vs - 1) p.page) p (record p { page = p.page + 1 }) h
        (λ e. inr (
          one_more (pages_of p.search) p.page
            (ap (λ t. leb (t - 1) p.page) (sym (total_pages-search p)) ∙ e)))

  acts-IsInRange : (p : Page) (more : List Act) → IsInRange p → IsInRange (acts lower vs p more)
  unfolding acts
  acts-IsInRange p [] h = h
  acts-IsInRange p (a ∷ more) h = acts-IsInRange (act lower vs p a) more (act-IsInRange p a h)

  in_range-page :
      (p : Page) → processed_data lower p vs ≢ [] → IsInRange p → paginated lower p vs ≢ []
  unfolding paginated
  in_range-page p h r =
      take-ne-nil page_size (drop (p.page * page_size) (processed_data lower p vs)) (omega arith) (
        drop-ne-nil (p.page * page_size) (processed_data lower p vs)
          (below r (length_pos _ h) (length-processed_data p)))
    where
      below :
          IsInRange p
          → 0 < length (processed_data lower p vs)
          → length (processed_data lower p vs) ≡ length (filter (is_listed lower p.search) vs)
          → p.page * page_size < length (processed_data lower p vs)
      below (inl e) q s = omega arith
      below (inr l) q s = omega arith

  -- Whatever the user searches and turns, and whichever range is chosen in between, the rows stand from
  -- the most active of the range to the least, as many as the search leaves, and the page that is shown
  -- has one if there is any: a change of the range cannot leave the user behind the last page.
  pub acts-IsRanked :
      (more : List Act)
      → let p = acts lower vs first_page more in
        IsRanked p.range_days (processed_data lower p vs)
        × (length (processed_data lower p vs) ≡ length (filter (is_listed lower p.search) vs))
        × (processed_data lower p vs ≢ [] → paginated lower p vs ≢ [])
  unfolding processed_data
  acts-IsRanked more =
      let p = acts lower vs first_page more in
      (
        sort-IsRanked p.range_days (filter (is_listed lower p.search) vs),
        length-processed_data p,
        λ h. in_range-page p h (acts-IsInRange first_page more (inl refl)),
      )
