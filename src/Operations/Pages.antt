-- ===== src/Operations/Pages.antt =====
-- The pages of the history.
use pb_launcher.Prelude.{
  ℕ, zero, suc, ◌+◌, ◌-◌, ◌*◌, ◌/◌, ◌≤◌, ◌<◌, Text, List, [], ◌∷◌, ◌++◌, Bool, true, false, ◌==◌,
  ◌≡◌, ◌≢◌, refl, ap, sym, ◌∙◌, arith, take, drop, length, leb, inl, inr, ◌⊎◌, if◌then◌else◌,
  take-ne-nil, drop-ne-nil, length_pos,
}
use pb_launcher.Operations.{
  OperationLog, Page, first_page, page_size, total_pages, paginated, Act, set_search, set_service,
  set_status, previous, next, filtered_operations, act, acts,
}

take_nil : {A : Type 0} (n : ℕ) → take {A = A} n [] ≡ []
take_nil zero = refl
take_nil (suc n) = refl

take-add : {A : Type 0} (m n : ℕ) (xs : List A) → take (m + n) xs ≡ take m xs ++ take n (drop m xs)
take-add zero n xs = let e : 0 + n ≡ n = omega arith in ap (λ k. take k xs) e
take-add (suc m) n [] = take_nil (suc m + n) ∙ sym (take_nil n)
take-add (suc m) n (x ∷ xs) =
    let e : suc m + n ≡ suc (m + n) = omega arith in
    ap (λ k. take k (x ∷ xs)) e ∙ ap (◌∷◌ x) (take-add m n xs)

take_all : {A : Type 0} (n : ℕ) (xs : List A) → length xs ≤ n → take n xs ≡ xs
take_all zero [] h = refl
take_all zero (x ∷ xs) h = absurd (omega arith)
take_all (suc n) [] h = refl
take_all (suc n) (x ∷ xs) h = ap (◌∷◌ x) (take_all n xs (omega arith))

-- The pages before a page, one behind the other.
abbrev pub pages_before : {A : Type 0} → ℕ → List A → List A
pages_before zero xs = []
pages_before (suc k) xs = pages_before k xs ++ paginated k xs

pages_taken : {A : Type 0} (k : ℕ) (xs : List A) → pages_before k xs ≡ take (k * page_size) xs
unfolding paginated
pages_taken zero xs = refl
pages_taken (suc k) xs =
    let e : k * page_size + page_size ≡ suc k * page_size = omega arith in
    ap (λ q. q ++ paginated k xs) (pages_taken k xs)
    ∙ (sym (take-add (k * page_size) page_size xs) ∙ ap (λ n. take n xs) e)

enough : (n : ℕ) → n ≤ (n + 24) / 25 * 25
enough n = omega arith

-- The pages hold every operation that the filters leave, once and in order.
pub pages_cover :
    (lower : Text → Text) (p : Page) (ops : List OperationLog)
    → pages_before (total_pages (filtered_operations lower p ops)) (filtered_operations lower p ops)
      ≡ filtered_operations lower p ops
unfolding total_pages
pages_cover lower p ops =
    pages_taken _ (filtered_operations lower p ops)
    ∙ take_all _ (filtered_operations lower p ops)
        (enough (length (filtered_operations lower p ops)))

one_more : (t k : ℕ) → leb (t - 1) k ≡ false → k + 1 < t
one_more t k h = ground arith

module _ (lower : Text → Text) (ops : List OperationLog) where
  -- The page is the first or one of the pages there are.
  abbrev IsInRange : Page → Type 0
  IsInRange p = (p.page ≡ 0) ⊎ (p.page < total_pages (filtered_operations lower p ops))

  pick :
      (b : Bool) (p q : Page)
      → (b ≡ true → IsInRange p)
      → (b ≡ false → IsInRange q)
      → IsInRange (if b then p else q)
  pick true p q f g = f refl
  pick false p q f g = g refl

  act-IsInRange : (p : Page) (a : Act) → IsInRange p → IsInRange (act lower ops p a)
  unfolding act
  act-IsInRange p (set_search t) h = inl refl
  act-IsInRange p (set_service id) h = inl refl
  act-IsInRange p (set_status s) h = inl refl
  act-IsInRange p previous h =
      pick (p.page == 0) p (record p { page = p.page - 1 }) (λ e. h) (λ e. fewer h)
    where
      fewer : IsInRange p → IsInRange (record p { page = p.page - 1 })
      fewer (inl e) = inl (omega arith)
      fewer (inr l) = inr (omega arith)
  act-IsInRange p next h =
      pick (leb (total_pages (filtered_operations lower p ops) - 1) p.page) p
        (record p { page = p.page + 1 }) (λ e. h) (λ e. inr (one_more _ _ e))

  acts-IsInRange : (p : Page) (more : List Act) → IsInRange p → IsInRange (acts lower ops p more)
  unfolding acts
  acts-IsInRange p [] h = h
  acts-IsInRange p (a ∷ more) h = acts-IsInRange (act lower ops p a) more (act-IsInRange p a h)

shown_page :
    {A : Type 0} (k : ℕ) (xs : List A)
    → xs ≢ []
    → (k ≡ 0) ⊎ (k < total_pages xs)
    → paginated k xs ≢ []
unfolding paginated total_pages
shown_page k xs h r =
    take-ne-nil page_size (drop (k * page_size) xs) (omega arith)
      (drop-ne-nil (k * page_size) xs (below r (length_pos xs h)))
  where
    below : (k ≡ 0) ⊎ (k < (length xs + 24) / 25) → 0 < length xs → k * page_size < length xs
    below (inl e) q = omega arith
    below (inr l) q = omega arith

-- While the list stays as it is, whatever the user does, a page with an operation is shown if the
-- filters leave one.
pub acts_shown :
    (lower : Text → Text) (ops : List OperationLog) (more : List Act)
    → filtered_operations lower (acts lower ops first_page more) ops ≢ []
    → paginated
        (acts lower ops first_page more).page
        (filtered_operations lower (acts lower ops first_page more) ops)
      ≢ []
acts_shown lower ops more h = shown_page _ _ h (acts-IsInRange lower ops first_page more (inl refl))
