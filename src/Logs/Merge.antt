-- ===== src/Logs/Merge.antt =====
-- Merging lists of logs by their ids.
use pb_launcher.Prelude.{
  ℕ, List, [], ◌∷◌, ◌++◌, Bool, true, false, ◌||◌, not, ◌==◌, ==_iff, any, filter, map, ◌≡◌, refl,
  sym, ap, ◌∙◌, arith, Bool-cases, inl, inr, or_false, append-nil,
}
use pb_launcher.Logs.{ServiceLog, has_log, merge_logs_unique}

-- No id stands twice.
abbrev pub IsUnique : List ServiceLog → Type 0
IsUnique [] = Unit
IsUnique (l ∷ ls) = (has_log ls l ≡ false) × IsUnique ls

pub has_log-append :
    (a b : List ServiceLog) (l : ServiceLog) → has_log (a ++ b) l ≡ has_log a l || has_log b l
has_log-append [] b l = refl
has_log-append (m ∷ a) b l = ground (arith, has_log-append a b l)

has_log-filter :
    (p : ServiceLog → Bool) (ms : List ServiceLog) (l : ServiceLog)
    → has_log ms l ≡ false
    → has_log (filter p ms) l ≡ false
has_log-filter p [] l h = refl
has_log-filter p (m ∷ ms) l h =
    let (e, rest) = or_false (l.id == m.id) (has_log ms l) h in
    elim (Bool-cases (p m)) [
      | inl t ↦ rw (t, e) (has_log-filter p ms l rest)
      | inr f ↦ rw f (has_log-filter p ms l rest)
    ]

filter-IsUnique :
    (p : ServiceLog → Bool) (ms : List ServiceLog) → IsUnique ms → IsUnique (filter p ms)
filter-IsUnique p [] u = tt
filter-IsUnique p (m ∷ ms) (h, u) = elim (Bool-cases (p m)) [
  | inl t ↦ rw t (has_log-filter p ms m h, filter-IsUnique p ms u)
  | inr f ↦ rw f (filter-IsUnique p ms u)
]

same_id : (c : List ServiceLog) (l m : ServiceLog) → l.id ≡ m.id → has_log c l ≡ has_log c m
same_id c l m e = ap (λ i. any (λ n. i == n) (map (λ (k : ServiceLog). k.id) c)) e

-- What the merge adds has none of the ids that were there.
fresh :
    (c ms : List ServiceLog) (l : ServiceLog)
    → has_log c l ≡ true
    → has_log (filter (λ m. not (has_log c m)) ms) l ≡ false
fresh c [] l h = refl
fresh c (m ∷ ms) l h = elim (Bool-cases (has_log c m)) [
  | inl t ↦ rw t (fresh c ms l h)
  | inr f ↦ rw (f, differs f) (fresh c ms l h)
]
  where
    differs : has_log c m ≡ false → (l.id == m.id) ≡ false
    differs f = elim (Bool-cases (l.id == m.id)) [
      | inl e ↦ absurd (clash (sym h ∙ same_id c l m ((==_iff _ _).0 e) ∙ f))
      | inr e ↦ e
    ]
      where
        clash : true ≡ false → ⊥
        clash q = cc

self : (n : ℕ) (b : Bool) → ((n == n) || b) ≡ true
self n b = ground arith

or_right : (a b : Bool) → b ≡ true → (a || b) ≡ true
or_right a b h = ground arith

append-IsUnique :
    (a b : List ServiceLog)
    → IsUnique a
    → IsUnique b
    → ((l : ServiceLog) → has_log a l ≡ true → has_log b l ≡ false)
    → IsUnique (a ++ b)
append-IsUnique [] b u v h = v
append-IsUnique (m ∷ a) b (hm, u) v h = (
  has_log-append a b m ∙ rw (hm, h m (self m.id _)) refl,
  append-IsUnique a b u v (λ l k. h l (or_right _ _ k)),
)

pub merge_logs_unique-IsUnique :
    (c ms : List ServiceLog) → IsUnique c → IsUnique ms → IsUnique (merge_logs_unique c ms)
unfolding merge_logs_unique
merge_logs_unique-IsUnique c ms u v =
    append-IsUnique c (filter (λ l. not (has_log c l)) ms) u
      (filter-IsUnique (λ l. not (has_log c l)) ms v) (λ l h. fresh c ms l h)

kept :
    (c ms : List ServiceLog) (l : ServiceLog)
    → has_log c l ≡ false
    → has_log (filter (λ m. not (has_log c m)) ms) l ≡ has_log ms l
kept c [] l h = refl
kept c (m ∷ ms) l h = elim (Bool-cases (has_log c m)) [
  | inl t ↦ rw (t, other t) (kept c ms l h)
  | inr f ↦ rw (f, kept c ms l h) refl
]
  where
    other : has_log c m ≡ true → (l.id == m.id) ≡ false
    other t = elim (Bool-cases (l.id == m.id)) [
      | inl e ↦ absurd (clash (sym t ∙ sym (same_id c l m ((==_iff _ _).0 e)) ∙ h))
      | inr e ↦ e
    ]
      where
        clash : true ≡ false → ⊥
        clash q = cc

-- The merge has the ids of both lists.
pub has_log-merge_logs_unique :
    (c ms : List ServiceLog) (l : ServiceLog)
    → has_log (merge_logs_unique c ms) l ≡ has_log c l || has_log ms l
unfolding merge_logs_unique
has_log-merge_logs_unique c ms l = elim (Bool-cases (has_log c l)) [
  | inl t ↦ has_log-append c _ l ∙ rw t refl
  | inr f ↦ has_log-append c _ l ∙ rw (f, kept c ms l f) refl
]

filter_none :
    (p : ServiceLog → Bool) (ms : List ServiceLog)
    → ((l : ServiceLog) → has_log ms l ≡ true → p l ≡ false)
    → filter p ms ≡ []
filter_none p [] h = refl
filter_none p (m ∷ ms) h = rw (h m (self m.id _)) (filter_none p ms (λ l k. h l (or_right _ _ k)))

-- Lines that arrive again change nothing.
pub merge_logs_unique_again :
    (c ms : List ServiceLog)
    → merge_logs_unique (merge_logs_unique c ms) ms ≡ merge_logs_unique c ms
merge_logs_unique_again c ms =
    opened (merge_logs_unique c ms) ∙ ap (◌++◌ (merge_logs_unique c ms)) nothing_new ∙ append-nil _
  where
    opened :
        (d : List ServiceLog) → merge_logs_unique d ms ≡ d ++ filter (λ l. not (has_log d l)) ms
    opened d = unfold merge_logs_unique in refl

    nothing_new : filter (λ l. not (has_log (merge_logs_unique c ms) l)) ms ≡ []
    nothing_new =
        filter_none _ ms
          (λ l h. rw (has_log-merge_logs_unique c ms l, h, or_true_right (has_log c l)) refl)
      where
        or_true_right : (b : Bool) → (b || true) ≡ true
        or_true_right b = ground arith
