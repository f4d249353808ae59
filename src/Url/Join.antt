-- ===== src/Url/Join.antt =====
-- `joinUrls`: the seams between the parts, and the leading slash.
use mathlib.Core.List.{reverse-append, reverse-reverse, reverse-cons}
use pb_launcher.Prelude.{
  ℕ, zero, suc, Text, List, [], ◌∷◌, ◌++◌, reverse, true, false, ◌≡◌, ◌≢◌, refl, ap, starts_with,
  ends_with, join, filter, arith, ◌==◌, All, Bool-cases, inl, inr, sym, ◌∙◌,
}
use pb_launcher.Url.{slash, strip_leading, strip_trailing, clean_parts, is_truthy, join_urls}

-- `n` slashes in a row.
abbrev pub slashes : ℕ → Text
slashes zero = []
slashes (suc n) = slash ∷ slashes n

-- A text that is not empty and has a slash at neither end.
pub record IsBare (s : Text) : Type 0 where
  pub some_text : s ≢ []
  pub no_leading : starts_with s (slash ∷ []) ≡ false
  pub no_trailing : ends_with s (slash ∷ []) ≡ false

strip_leading-slashes : (n : ℕ) (s : Text) → strip_leading (slashes n ++ s) ≡ strip_leading s
unfolding strip_leading
strip_leading-slashes zero s = refl
strip_leading-slashes (suc n) s = strip_leading-slashes n s

strip_leading_bare : (s : Text) → starts_with s (slash ∷ []) ≡ false → strip_leading s ≡ s
unfolding strip_leading
strip_leading_bare [] h = refl
strip_leading_bare (c ∷ s) h = ground arith

-- What is left never starts with a slash.
pub strip_leading-starts : (s : Text) → starts_with (strip_leading s) (slash ∷ []) ≡ false
unfolding strip_leading
strip_leading-starts [] = refl
strip_leading-starts (c ∷ s) = ground (arith, strip_leading-starts s)

slashes-snoc : (n : ℕ) → slashes n ++ slash ∷ [] ≡ slash ∷ slashes n
slashes-snoc zero = refl
slashes-snoc (suc n) = ap (◌∷◌ slash) (slashes-snoc n)

pub reverse-slashes : (n : ℕ) → reverse (slashes n) ≡ slashes n
reverse-slashes zero = refl
reverse-slashes (suc n) = rw (reverse-cons, reverse-slashes n) (slashes-snoc n)

strip_trailing-slashes : (s : Text) (n : ℕ) → strip_trailing (s ++ slashes n) ≡ strip_trailing s
unfolding strip_trailing
strip_trailing-slashes s n =
    rw (reverse-append, reverse-slashes n, strip_leading-slashes n (reverse s))

strip_trailing_bare : (s : Text) → ends_with s (slash ∷ []) ≡ false → strip_trailing s ≡ s
unfolding strip_trailing
strip_trailing_bare s h = rw (strip_leading_bare (reverse s) h) (reverse-reverse s)

cons_eq : {c : ℕ} {s t : Text} → (c == slash) ≡ true → s ≡ t → c ∷ s ≡ slash ∷ t
cons_eq e h = ground arith

strip_leading-split : (s : Text) → (n : ℕ) × (s ≡ slashes n ++ strip_leading s)
unfolding strip_leading
strip_leading-split [] = (0, refl)
strip_leading-split (c ∷ s) = elim (Bool-cases (c == slash)) [
  | inl e ↦ let (n, h) = strip_leading-split s in (suc n, rw e (cons_eq e h))
  | inr e ↦ (0, rw e)
]

-- Stripping at the end leaves a prefix: what is taken away is slashes.
strip_trailing-split : (s : Text) → (n : ℕ) × (s ≡ strip_trailing s ++ slashes n)
unfolding strip_trailing
strip_trailing-split s =
    let (n, h) = strip_leading-split (reverse s) in
    (
      n,
      sym (reverse-reverse s)
          ∙ ap reverse h
          ∙ reverse-append (slashes n) _
          ∙ ap (λ t. strip_trailing s ++ t) (reverse-slashes n),
    )

starts-append :
    (s t : Text) → s ≢ [] → starts_with (s ++ t) (slash ∷ []) ≡ starts_with s (slash ∷ [])
starts-append [] t h = absurd (h refl)
starts-append (c ∷ s) t h = refl

strip_trailing-starts :
    (s : Text)
    → starts_with s (slash ∷ []) ≡ false
    → starts_with (strip_trailing s) (slash ∷ []) ≡ false
strip_trailing-starts s h = let (n, e) = strip_trailing-split s in go (strip_trailing s) n e
  where
    go : (t : Text) (n : ℕ) → s ≡ t ++ slashes n → starts_with t (slash ∷ []) ≡ false
    go [] n e = refl
    go (c ∷ t) n e = rw e at h

-- The cleaned parts.
abbrev NoLead : Text → Type 0
NoLead s = starts_with s (slash ∷ []) ≡ false

clean_parts-NoLead : (ps : List Text) → All NoLead (clean_parts ps)
unfolding clean_parts
clean_parts-NoLead [] = tt
clean_parts-NoLead (p ∷ []) = (strip_leading-starts p, tt)
clean_parts-NoLead (p ∷ q ∷ ps) =
    (strip_trailing-starts (strip_leading p) (strip_leading-starts p), clean_parts-NoLead (q ∷ ps))

join_head :
    (c : ℕ) (p : Text) (ps : List Text) → NoLead (c ∷ p) → NoLead (join ((c ∷ p) ∷ ps) slash)
join_head c p [] h = h
join_head c p (q ∷ ps) h = h

join-NoLead : (ps : List Text) → All NoLead ps → NoLead (join (filter is_truthy ps) slash)
join-NoLead [] h = refl
join-NoLead ([] ∷ ps) h = join-NoLead ps h.1
join-NoLead ((c ∷ p) ∷ ps) h = join_head c p (filter is_truthy ps) h.0

-- Whatever the parts, the joined URL starts with a slash exactly if the first part does.
pub starts-join_urls :
    (p : Text) (ps : List Text)
    → starts_with (join_urls (p ∷ ps)) (slash ∷ []) ≡ starts_with p (slash ∷ [])
unfolding join_urls
starts-join_urls p ps =
    ground (arith, join-NoLead (clean_parts (p ∷ ps)) (clean_parts-NoLead (p ∷ ps)))

-- The slash that the result has in front.
abbrev pub lead : ℕ → Text
lead zero = []
lead (suc k) = slash ∷ []

clean_seam :
    (k m n : ℕ) (base path : Text)
    → IsBare base
    → starts_with path (slash ∷ []) ≡ false
    → clean_parts ((slashes k ++ (base ++ slashes m)) ∷ (slashes n ++ path) ∷ []) ≡ base ∷ path ∷ []
unfolding clean_parts
clean_seam k m n base path b hl = rw (
  strip_leading-slashes k (base ++ slashes m),
  strip_leading_bare (base ++ slashes m)
      (starts-append base (slashes m) b.some_text ∙ b.no_leading),
  strip_trailing-slashes base m,
  strip_trailing_bare base b.no_trailing,
  strip_leading-slashes n path,
  strip_leading_bare path hl,
)

truthy_of_ne : (s : Text) → s ≢ [] → is_truthy s ≡ true
truthy_of_ne [] h = absurd (h refl)
truthy_of_ne (c ∷ s) h = refl

filter_two : (s t : Text) → s ≢ [] → t ≢ [] → filter is_truthy (s ∷ t ∷ []) ≡ s ∷ t ∷ []
filter_two s t hs ht = rw (truthy_of_ne s hs, truthy_of_ne t ht)

starts_seam :
    (k m : ℕ) (base : Text)
    → IsBare base
    → starts_with (slashes k ++ (base ++ slashes m)) (slash ∷ [])
      ≡ starts_with (lead k) (slash ∷ [])
starts_seam zero m base b = starts-append base (slashes m) b.some_text ∙ b.no_leading
starts_seam (suc k) m base b = refl

-- Whatever number of slashes stands at the seam of two parts that are not empty, the result has one
-- there, and the slashes before the first part become one.
pub join_urls_seam :
    (k m n : ℕ) (base path : Text)
    → IsBare base
    → path ≢ []
    → starts_with path (slash ∷ []) ≡ false
    → join_urls ((slashes k ++ (base ++ slashes m)) ∷ (slashes n ++ path) ∷ [])
      ≡ lead k ++ (base ++ slash ∷ path)
unfolding join_urls
join_urls_seam k m n base path b hp hl =
    rw (clean_seam k m n base path b hl, filter_two base path b.some_text hp)
      (ground (arith, starts_seam k m base b))

strip_leading_all : (k : ℕ) → strip_leading (slashes k) ≡ []
unfolding strip_leading
strip_leading_all zero = refl
strip_leading_all (suc k) = strip_leading_all k

clean_root :
    (k n : ℕ) (path : Text)
    → starts_with path (slash ∷ []) ≡ false
    → clean_parts (slashes (suc k) ∷ (slashes n ++ path) ∷ []) ≡ [] ∷ path ∷ []
unfolding clean_parts strip_trailing strip_leading
clean_root k n path hl =
    rw (strip_leading_all (suc k), strip_leading-slashes n path, strip_leading_bare path hl)

-- A first part of slashes alone, the `/` that the client uses as its own origin, gives one slash.
pub join_urls_root :
    (k n : ℕ) (path : Text)
    → path ≢ []
    → starts_with path (slash ∷ []) ≡ false
    → join_urls (slashes (suc k) ∷ (slashes n ++ path) ∷ []) ≡ slash ∷ path
unfolding join_urls
join_urls_root k n path hp hl = rw (clean_root k n path hl, truthy_of_ne path hp)

blank : (n : ℕ) → strip_trailing (strip_leading (slashes n)) ≡ []
unfolding strip_trailing strip_leading
blank n = rw (strip_leading_all n)

clean-skip :
    (p : Text) (ps : List Text) (n : ℕ) (q : Text) (qs : List Text)
    → filter is_truthy (clean_parts ((p ∷ ps) ++ (slashes n ∷ q ∷ qs)))
      ≡ filter is_truthy (clean_parts ((p ∷ ps) ++ (q ∷ qs)))
unfolding clean_parts
clean-skip p [] n q qs = rw (blank n)
clean-skip p (r ∷ ps) n q qs = rw (clean-skip r ps n q qs)

-- A part of slashes alone between two others changes nothing.
pub join_urls_skip :
    (p : Text) (ps : List Text) (n : ℕ) (q : Text) (qs : List Text)
    → join_urls ((p ∷ ps) ++ (slashes n ∷ q ∷ qs)) ≡ join_urls ((p ∷ ps) ++ (q ∷ qs))
unfolding join_urls
join_urls_skip p ps n q qs = rw (clean-skip p ps n q qs)
