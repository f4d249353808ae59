-- ===== src/Uptime/Select.antt =====
-- Which logs the statistics depend on, and that their order in the input does not matter.
use pb_launcher.Prelude.{
  Text, List, [], ◌∷◌, ◌++◌, Bool, false, Option, ◌≡◌, ◌≢◌, refl, sym, ◌∙◌, ap, filter, Bool-cases,
  inl, inr,
}
use pb_launcher.Prelude.Int.{ℤ}
use pb_launcher.Uptime.{
  OperationLog, counts_for, insert_log, sort_logs, successful_logs, calculate_uptime_for_logs,
}
use pb_launcher.Uptime.Sort.{insert_log_comm}

filter_skip :
    (p : OperationLog → Bool) (xs ys : List OperationLog) (l : OperationLog)
    → p l ≡ false
    → filter p (xs ++ l ∷ ys) ≡ filter p (xs ++ ys)
filter_skip p [] ys l h = rw h
filter_skip p (x ∷ xs) ys l h = rw (filter_skip p xs ys l h)

sort_swap :
    (p : OperationLog → Bool) (xs ys : List OperationLog) (a b : OperationLog)
    → a.created ≢ b.created
    → sort_logs (filter p (xs ++ a ∷ b ∷ ys)) ≡ sort_logs (filter p (xs ++ b ∷ a ∷ ys))
unfolding sort_logs
sort_swap p [] ys a b h = elim (Bool-cases (p a)) [
  | inl c ↦ elim (Bool-cases (p b)) [
    | inl d ↦ rw (c, d) (insert_log_comm a b (sort_logs (filter p ys)) h)
    | inr d ↦ rw (c, d)
  ]
  | inr c ↦ rw c
]
sort_swap p (x ∷ xs) ys a b h = elim (Bool-cases (p x)) [
  | inl c ↦ rw c (ap (insert_log x) (sort_swap p xs ys a b h))
  | inr c ↦ rw c (sort_swap p xs ys a b h)
]

-- Lists of logs that differ by logs that do not count and by the order of logs of different times.
pub data Alike (id : Option Text) : List OperationLog → List OperationLog → Type 0 where
  same : (xs : List OperationLog) → Alike id xs xs
  skip :
      (xs ys : List OperationLog) (l : OperationLog)
      → counts_for id l ≡ false
      → Alike id (xs ++ l ∷ ys) (xs ++ ys)
  swap :
      (xs ys : List OperationLog) (a b : OperationLog)
      → a.created ≢ b.created
      → Alike id (xs ++ a ∷ b ∷ ys) (xs ++ b ∷ a ∷ ys)
  back : (xs ys : List OperationLog) → Alike id xs ys → Alike id ys xs
  chain : (xs ys zs : List OperationLog) → Alike id xs ys → Alike id ys zs → Alike id xs zs

-- A log that is not a success, or is of another service, changes nothing, wherever it stands, and
-- neither does the order of logs of different times.
pub calculate_uptime-Alike :
    (id : Option Text) (now : ℤ) (created : Option ℤ) (xs ys : List OperationLog)
    → Alike id xs ys
    → calculate_uptime_for_logs xs id now created ≡ calculate_uptime_for_logs ys id now created
unfolding calculate_uptime_for_logs successful_logs
calculate_uptime-Alike id now created _ _ (same xs) = refl
calculate_uptime-Alike id now created _ _ (skip xs ys l h) =
    rw (filter_skip (counts_for id) xs ys l h)
calculate_uptime-Alike id now created _ _ (swap xs ys a b h) =
    rw (sort_swap (counts_for id) xs ys a b h)
calculate_uptime-Alike id now created _ _ (back xs ys h) =
    sym (calculate_uptime-Alike id now created xs ys h)
calculate_uptime-Alike id now created _ _ (chain xs ys zs h k) =
    calculate_uptime-Alike id now created xs ys h ∙ calculate_uptime-Alike id now created ys zs k
